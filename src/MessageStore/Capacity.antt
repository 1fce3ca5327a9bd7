-- ===== src/MessageStore/Capacity.antt =====
-- The buffer is bounded: live calls never panic and never pass the capacity, and a push evicts
-- the oldest message only.
use xous_app_signal.Prelude.{
  ℕ, ◌+◌, ◌-◌, ◌≤◌, ◌<◌, ◌≡◌, refl, Bool, true, false, some, List, [], ◌∷◌, ◌++◌, arith, Text,
  codes, ap, ◌∙◌, Option-cases, inl, inr, length, length-append, drop, All, nat_eq,
}
use xous_app_signal.Collections.HashMap.{Iteration}
use xous_app_signal.Dialogue.{Uuid, SendStatus, ThreadMessage, DialogueSummary}
use xous_app_signal.MessageStore.{
  MessageStore, new, clear, set_newest, push_incoming, push_outgoing_pending, set_outgoing_status,
  mark_send_delivered, mark_send_failed, mark_thread_read, resolve_author_labels,
}
use xous_app_signal.MessageStore.Funnel.{
  Call, incoming, outgoing, delivered, failed, read_thread, resolve, wipe, load, apply, run,
}
use xous_app_signal.MessageStore.Eviction.{
  length-mark_read, length-relabel, length-set_newest, kept, length-kept, kept-append,
  evict_if_full-some,
}

-- The load of mock rows is the one method that bypasses the capacity.
abbrev pub IsLive : Call → Type 0
IsLive (load rows) = ⊥
IsLive _ = Unit

module _ (simple : Uuid → Text) (order : Iteration Uuid DialogueSummary) where
  pub record IsBounded (capacity : ℕ) (s : MessageStore) : Type 0 where
    pub fixed : s.capacity ≡ capacity
    pub within : length s.messages ≤ capacity

  length-set_outgoing_status :
      (s : MessageStore) (ts : ℕ) (status : SendStatus)
      → length (set_outgoing_status simple order s ts status).0.messages ≡ length s.messages
  unfolding set_outgoing_status
  length-set_outgoing_status s ts status = elim (Option-cases (set_newest ts status s.messages)) [
    | inl e ↦ ground arith
    | inr (rest, e) ↦ ground (arith, length-set_newest ts status s.messages rest)
  ]

  -- A push leaves the kept messages, then the new one.
  pub push_incoming-messages :
      (s : MessageStore) (u : Uuid) (label body : Text) (ts : ℕ) (group : Bool)
      → 0 < s.capacity
      → (s' : MessageStore) × (push_incoming simple order s u label body ts group ≡ some s')
        × (s'.capacity ≡ s.capacity)
        × (s'.messages
            ≡ kept s.capacity s.messages
              ++ record {
                uuid = u;
                author_label = label;
                body = body;
                timestamp = ts;
                outgoing = false;
                status = SendStatus.sent;
                read = false;
                group = group;
              }
                ∷ [])
  unfolding push_incoming
  push_incoming-messages s u label body ts group p =
      rw (evict_if_full-some s p, push_incoming) (_, refl, refl, refl)

  pub push_outgoing_pending-messages :
      (s : MessageStore) (u : Uuid) (body : Text) (ts : ℕ)
      → 0 < s.capacity
      → (s' : MessageStore) × (push_outgoing_pending simple order s u body ts ≡ some s')
        × (s'.capacity ≡ s.capacity)
        × (s'.messages
            ≡ kept s.capacity s.messages
              ++ record {
                uuid = u;
                author_label = codes "You";
                body = body;
                timestamp = ts;
                outgoing = true;
                status = SendStatus.pending;
                read = true;
                group = false;
              }
                ∷ [])
  unfolding push_outgoing_pending
  push_outgoing_pending-messages s u body ts p =
      rw (evict_if_full-some s p, push_outgoing_pending) (_, refl, refl, refl)

  push-IsBounded :
      (capacity : ℕ) (s s' : MessageStore) (m : ThreadMessage)
      → 0 < capacity
      → IsBounded capacity s
      → s'.capacity ≡ s.capacity
      → s'.messages ≡ kept s.capacity s.messages ++ m ∷ []
      → IsBounded capacity s'
  push-IsBounded capacity s s' m p b cap ms = record {
    fixed = cap ∙ b.fixed;
    within = omega (
      arith,
      b.fixed,
      ap (λ (l : List ThreadMessage). length l) ms,
      length-append (kept s.capacity s.messages) (m ∷ []),
      length-kept s.capacity s.messages,
    );
  }

  same_length-IsBounded :
      (capacity : ℕ) (s s' : MessageStore)
      → IsBounded capacity s
      → s'.capacity ≡ s.capacity
      → length s'.messages ≡ length s.messages
      → IsBounded capacity s'
  same_length-IsBounded capacity s s' b cap len = record {
    fixed = cap ∙ b.fixed;
    within = omega (arith, len);
  }

  capacity-set_outgoing_status :
      (s : MessageStore) (ts : ℕ) (status : SendStatus)
      → (set_outgoing_status simple order s ts status).0.capacity ≡ s.capacity
  unfolding set_outgoing_status
  capacity-set_outgoing_status s ts status = ground arith

  abbrev pub Outcome : ℕ → Call → MessageStore → Type 0
  Outcome capacity c s =
      (s' : MessageStore) × (apply simple order c s ≡ some s') × IsBounded capacity s'

  pub apply-IsBounded :
      (capacity : ℕ) (c : Call) (s : MessageStore)
      → 0 < capacity
      → IsLive c
      → IsBounded capacity s
      → Outcome capacity c s
  unfolding apply
  apply-IsBounded capacity (incoming u label body ts group) s p l b =
      let (s', pushed, cap, ms) =
        push_incoming-messages s u label body ts group (omega (arith, b.fixed)) in
      (s', pushed, push-IsBounded capacity s s' _ p b cap ms)
  apply-IsBounded capacity (outgoing u body ts) s p l b =
      let (s', pushed, cap, ms) =
        push_outgoing_pending-messages s u body ts (omega (arith, b.fixed)) in
      (s', pushed, push-IsBounded capacity s s' _ p b cap ms)
  apply-IsBounded capacity (delivered ts) s p l b =
      let status = SendStatus.delivered in
      unfold mark_send_delivered in
      (
        _,
        refl,
        same_length-IsBounded capacity s _ b (capacity-set_outgoing_status s ts status)
            (length-set_outgoing_status s ts status),
      )
  apply-IsBounded capacity (failed ts) s p l b =
      let status = SendStatus.failed in
      unfold mark_send_failed in
      (
        _,
        refl,
        same_length-IsBounded capacity s _ b (capacity-set_outgoing_status s ts status)
            (length-set_outgoing_status s ts status),
      )
  apply-IsBounded capacity (read_thread u) s p l b = (
    mark_thread_read simple order s u,
    refl,
    unfold mark_thread_read in
        same_length-IsBounded capacity s _ b (ground arith)
          (ground (arith, length-mark_read u s.messages)),
  )
  apply-IsBounded capacity (resolve u name) s p l b = (
    (resolve_author_labels simple order s u name).0,
    refl,
    unfold resolve_author_labels in
        same_length-IsBounded capacity s _ b (ground arith)
          (ground (arith, length-relabel u name s.messages)),
  )
  apply-IsBounded capacity wipe s p l b =
      (clear s, refl, unfold clear in record { fixed = b.fixed; within = omega arith })
  apply-IsBounded capacity (load rows) s p l b = absurd l

  run-IsBounded :
      (capacity : ℕ) (calls : List Call) (s : MessageStore)
      → 0 < capacity
      → All IsLive calls
      → IsBounded capacity s
      → (s' : MessageStore) × (run simple order calls s ≡ some s') × IsBounded capacity s'
  unfolding run
  run-IsBounded capacity [] s p l b = (s, refl, b)
  run-IsBounded capacity (c ∷ cs) s p l b =
      let (t, done, bt) = apply-IsBounded capacity c s p l.0 b in
      let (s', rest, bs) = run-IsBounded capacity cs t p l.1 bt in (s', rw (done, run) rest, bs)

  -- With a capacity of at least 1, every sequence of calls other than the mock loader runs on a
  -- new store to the end without a panic, and leaves at most `capacity` messages.
  pub run_total :
      (capacity : ℕ) (calls : List Call)
      → 0 < capacity
      → All IsLive calls
      → (s : MessageStore) × (run simple order calls (new capacity) ≡ some s)
        × (length s.messages ≤ capacity)
  unfolding new
  run_total capacity calls p l =
      let (s, done, b) =
        run-IsBounded capacity calls (new capacity) p l
          (record { fixed = refl; within = omega arith }) in
      (s, done, b.within)

  -- A push on a full store drops the oldest message and on any other none, and adds the new one
  -- at the end.
  pub push_incoming_evicts :
      (s : MessageStore) (u : Uuid) (label body : Text) (ts : ℕ) (group : Bool)
      → 0 < s.capacity
      → length s.messages ≤ s.capacity
      → (s' : MessageStore) × (m : ThreadMessage) × (push_incoming simple order s u label body ts
            group
          ≡ some s')
        × (m.uuid ≡ u)
        × (m.body ≡ body)
        × (m.read ≡ false)
        × (s'.messages ≡ drop (length s.messages + 1 - s.capacity) (s.messages ++ m ∷ []))
  push_incoming_evicts s u label body ts group p h =
      let (s', pushed, _, ms) = push_incoming-messages s u label body ts group p in
      (s', _, pushed, refl, refl, refl, ms ∙ kept-append s.capacity s.messages _ p h)
