-- ===== src/MessageStore/Funnel.antt =====
-- Every mutation of the store keeps the summaries in step with the messages.
use xous_app_signal.Prelude.{
  ℕ, ◌≡◌, refl, sym, nil_of_length, Bool, false, Option, none, some, Option-cases, inl, inr, List,
  [], ◌∷◌, arith, Text, nat_eq,
}
use xous_app_signal.Collections.HashMap.{Iteration}
use xous_app_signal.Dialogue.{Uuid, SendStatus, ThreadMessage, DialogueSummary, rebuild_summaries}
use xous_app_signal.MessageStore.{
  MessageStore, new, clear, mark_read, relabel, push_incoming, push_outgoing_pending,
  set_outgoing_status, mark_send_delivered, mark_send_failed, mark_thread_read,
  resolve_author_labels, seed,
}

-- A call of one mutating method.
pub data Call : Type 0 where
  incoming : Uuid → Text → Text → ℕ → Bool → Call
  outgoing : Uuid → Text → ℕ → Call
  delivered failed : ℕ → Call
  read_thread : Uuid → Call
  resolve : Uuid → Text → Call
  wipe : Call
  load : List ThreadMessage → Call

module _ (simple : Uuid → Text) (order : Iteration Uuid DialogueSummary) where
  unfoldable pub apply : Call → MessageStore → Option MessageStore
  apply (incoming u label body ts group) s = push_incoming simple order s u label body ts group
  apply (outgoing u body ts) s = push_outgoing_pending simple order s u body ts
  apply (delivered ts) s = some (mark_send_delivered simple order s ts).0
  apply (failed ts) s = some (mark_send_failed simple order s ts).0
  apply (read_thread u) s = some (mark_thread_read simple order s u)
  apply (resolve u name) s = some (resolve_author_labels simple order s u name).0
  apply wipe s = some (clear s)
  apply (load rows) s = some (seed simple order s rows)

  unfoldable pub run : List Call → MessageStore → Option MessageStore
  run [] s = some s
  run (c ∷ cs) s = elim (apply c s) [ none ↦ none | some s' ↦ run cs s' ]

  abbrev pub IsDerived : MessageStore → Type 0
  IsDerived s = s.dialogues ≡ rebuild_summaries simple order s.messages

  rebuild_summaries-nil : rebuild_summaries simple order [] ≡ []
  unfolding rebuild_summaries
  rebuild_summaries-nil = rw (nil_of_length (order.entries []) (order.entries_length []))

  mark_read-unchanged :
      (u : Uuid) (ms : List ThreadMessage) → (mark_read u ms).1 ≡ false → (mark_read u ms).0 ≡ ms
  unfolding mark_read
  mark_read-unchanged u [] h = refl
  mark_read-unchanged u (m ∷ ms) h = ground (arith, mark_read-unchanged u ms)

  relabel-unchanged :
      (u : Uuid) (name : Text) (ms : List ThreadMessage)
      → (relabel u name ms).1 ≡ false
      → (relabel u name ms).0 ≡ ms
  unfolding relabel
  relabel-unchanged u name [] h = refl
  relabel-unchanged u name (m ∷ ms) h = ground (arith, relabel-unchanged u name ms)

  set_outgoing_status-IsDerived :
      (s : MessageStore) (ts : ℕ) (status : SendStatus)
      → IsDerived s
      → IsDerived (set_outgoing_status simple order s ts status).0
  unfolding set_outgoing_status
  set_outgoing_status-IsDerived s ts status h = ground arith

  pub apply-IsDerived :
      (c : Call) (s s' : MessageStore) → IsDerived s → apply c s ≡ some s' → IsDerived s'
  unfolding apply
  apply-IsDerived (incoming u label body ts group) s s' h e = unfold push_incoming in ground arith
  apply-IsDerived (outgoing u body ts) s s' h e = unfold push_outgoing_pending in ground arith
  apply-IsDerived (delivered ts) s s' h e =
      unfold mark_send_delivered in
      ground (arith, set_outgoing_status-IsDerived s ts SendStatus.delivered h)
  apply-IsDerived (failed ts) s s' h e =
      unfold mark_send_failed in
      ground (arith, set_outgoing_status-IsDerived s ts SendStatus.failed h)
  apply-IsDerived (read_thread u) s s' h e =
      unfold mark_thread_read in ground (arith, mark_read-unchanged u s.messages)
  apply-IsDerived (resolve u name) s s' h e =
      unfold resolve_author_labels in ground (arith, relabel-unchanged u name s.messages)
  apply-IsDerived wipe s s' h e = unfold clear in ground (arith, rebuild_summaries-nil)
  apply-IsDerived (load rows) s s' h e = unfold seed in ground arith

  run-from :
      (calls : List Call) (t s : MessageStore) → IsDerived t → run calls t ≡ some s → IsDerived s
  unfolding run
  run-from [] t s d e = ground arith
  run-from (c ∷ cs) t s d e = elim (Option-cases (apply c t)) [
    | inl stopped ↦ absurd (ground arith)
    | inr (t', done) ↦ run-from cs t' s (apply-IsDerived c t t' d done) (ground arith)
  ]

  -- After any sequence of calls of the mutating methods on a new store, the rows are exactly what
  -- `rebuild_summaries` makes of the messages, also where a method skips the rebuild.
  pub run-IsDerived :
      (capacity : ℕ) (calls : List Call) (s : MessageStore)
      → run calls (new capacity) ≡ some s
      → s.dialogues ≡ rebuild_summaries simple order s.messages
  unfolding new
  run-IsDerived capacity calls s h = run-from calls (new capacity) s (sym rebuild_summaries-nil) h
