-- ===== src/MessageStore/Reading.antt =====
-- Read marks and author labels.
use xous_app_signal.Prelude.{
  ℕ, ◌+◌, ◌^◌, ◌<◌, ◌≡◌, ◌≢◌, refl, ap, ◌∙◌, Bool-cases, inl, inr, sym, subst, Bool, true, false,
  ◌||◌, some, map, All, if◌then◌else◌, List, [], ◌∷◌, arith, Text, nat_eq,
}
use xous_app_signal.Collections.HashMap.{Iteration}
use xous_app_signal.Labels.{looks_like_raw_uuid}
use xous_app_signal.Dialogue.{Uuid, ThreadMessage, DialogueSummary, is_unread}
use xous_app_signal.Dialogue.Spec.{own, unread}
use xous_app_signal.Dialogue.Total.{sum_unread-rebuild_summaries}
use xous_app_signal.MessageStore.Funnel.{Call, run, run-IsDerived}
use xous_app_signal.MessageStore.{
  new, total_unread, MessageStore, thread_messages, mark_read, relabel, mark_thread_read,
  resolve_author_labels,
}

unread-mark_read :
    (u : Uuid) (ms : List ThreadMessage)
    → (unread (own u (mark_read u ms).0) ≡ 0)
      × (unread (mark_read u ms).0 + unread (own u ms) ≡ unread ms)
unfolding unread own mark_read is_unread
unread-mark_read u [] = (refl, refl)
unread-mark_read u (m ∷ ms) = ground (arith, unread-mark_read u ms)

own-mark_read : (u v : Uuid) (ms : List ThreadMessage) → u ≢ v → own v (mark_read u ms).0 ≡ own v ms
unfolding own mark_read
own-mark_read u v [] h = refl
own-mark_read u v (m ∷ ms) h = ground (arith, own-mark_read u v ms)

mark_read-mark_read :
    (u : Uuid) (ms : List ThreadMessage)
    → mark_read u (mark_read u ms).0 ≡ ((mark_read u ms).0, false)
unfolding mark_read
mark_read-mark_read u [] = refl
mark_read-mark_read u (m ∷ ms) = ground (arith, mark_read-mark_read u ms)

relabel-relabel :
    (u : Uuid) (name : Text) (ms : List ThreadMessage)
    → looks_like_raw_uuid name ≡ false
    → relabel u name (relabel u name ms).0 ≡ ((relabel u name ms).0, false)
unfolding relabel
relabel-relabel u name [] h = refl
relabel-relabel u name (m ∷ ms) h = ground (arith, relabel-relabel u name ms)

-- A message with its label resolved, where that is a raw UUID.
abbrev pub resolved : Text → ThreadMessage → ThreadMessage
resolved name m = record m {
  author_label = (if looks_like_raw_uuid m.author_label then name else m.author_label);
}

unfoldable pub any_raw : List ThreadMessage → Bool
any_raw [] = false
any_raw (m ∷ ms) = looks_like_raw_uuid m.author_label || any_raw ms

abbrev pub IsNamed : ThreadMessage → Type 0
IsNamed m = looks_like_raw_uuid m.author_label ≡ false

resolved-raw :
    (name : Text) (m : ThreadMessage)
    → looks_like_raw_uuid m.author_label ≡ true
    → resolved name m ≡ record m { author_label = name }
resolved-raw name m h =
    ap (λ (b : Bool). record m { author_label = (if b then name else m.author_label) }) h

resolved-named : (name : Text) (m : ThreadMessage) → IsNamed m → resolved name m ≡ m
resolved-named name m h =
    ap (λ (b : Bool). record m { author_label = (if b then name else m.author_label) }) h

relabel-own :
    (u : Uuid) (name : Text) (ms : List ThreadMessage)
    → (own u (relabel u name ms).0 ≡ map (resolved name) (own u ms))
      × ((relabel u name ms).1 ≡ any_raw (own u ms))
unfolding own relabel any_raw
relabel-own u name [] = (refl, refl)
relabel-own u name (m ∷ ms) =
    ground (arith, relabel-own u name ms, resolved-raw name m, resolved-named name m)

named_after :
    (name label : Text)
    → looks_like_raw_uuid name ≡ false
    → looks_like_raw_uuid (if looks_like_raw_uuid label then name else label) ≡ false
named_after name label h = elim (Bool-cases (looks_like_raw_uuid label)) [
  | inl raw ↦ ap (λ (b : Bool). looks_like_raw_uuid (if b then name else label)) raw ∙ h
  | inr named ↦ ap (λ (b : Bool). looks_like_raw_uuid (if b then name else label)) named ∙ named
]

resolved-IsNamed :
    (name : Text) (ms : List ThreadMessage)
    → looks_like_raw_uuid name ≡ false
    → All IsNamed (map (resolved name) ms)
resolved-IsNamed name [] h = tt
resolved-IsNamed name (m ∷ ms) h = (named_after name m.author_label h, resolved-IsNamed name ms h)

own-relabel :
    (u v : Uuid) (name : Text) (ms : List ThreadMessage)
    → u ≢ v
    → own v (relabel u name ms).0 ≡ own v ms
unfolding own relabel
own-relabel u v name [] h = refl
own-relabel u v name (m ∷ ms) h = ground (arith, own-relabel u v name ms)

unread-relabel :
    (u : Uuid) (name : Text) (ms : List ThreadMessage) → unread (relabel u name ms).0 ≡ unread ms
unfolding unread relabel is_unread
unread-relabel u name [] = refl
unread-relabel u name (m ∷ ms) = ground (arith, unread-relabel u name ms)

module _ (simple : Uuid → Text) (order : Iteration Uuid DialogueSummary) where
  messages-mark_thread_read :
      (s : MessageStore) (u : Uuid)
      → (mark_thread_read simple order s u).messages ≡ (mark_read u s.messages).0
  unfolding mark_thread_read
  messages-mark_thread_read s u = ground arith

  -- Marking a thread read leaves no unread message in it, takes exactly its unread messages off
  -- the total, and changes no message of another thread.
  pub mark_thread_read_exact :
      (s : MessageStore) (u : Uuid)
      → (unread (thread_messages (mark_thread_read simple order s u) u) ≡ 0)
        × (unread (mark_thread_read simple order s u).messages + unread (thread_messages s u)
            ≡ unread s.messages)
        × ((v : Uuid)
            → u ≢ v
            → thread_messages (mark_thread_read simple order s u) v ≡ thread_messages s v)
  unfolding thread_messages
  mark_thread_read_exact s u =
      let (none_left, removed) = unread-mark_read u s.messages in
      rw (messages-mark_thread_read s u) (none_left, removed, λ v h. own-mark_read u v s.messages h)

  -- A second call on the same thread changes nothing.
  pub mark_thread_read_idem :
      (s : MessageStore) (u : Uuid)
      → mark_thread_read simple order (mark_thread_read simple order s u) u
        ≡ mark_thread_read simple order s u
  unfolding mark_thread_read
  mark_thread_read_idem s u = ground (arith, mark_read-mark_read u s.messages)

  -- Resolving a name that does not look like a raw UUID gives it to exactly the messages of the
  -- thread whose label looks like one, and changes nothing else of them: afterwards no label of the
  -- thread does, and the answer says whether one did. Messages of other threads and the number of
  -- unread messages stay, and a second call finds nothing to do.
  pub resolve_author_labels_settles :
      (s : MessageStore) (u : Uuid) (name : Text)
      → looks_like_raw_uuid name ≡ false
      → (thread_messages (resolve_author_labels simple order s u name).0 u
          ≡ map (resolved name) (thread_messages s u))
        × ((resolve_author_labels simple order s u name).1 ≡ any_raw (thread_messages s u))
        × All IsNamed (thread_messages (resolve_author_labels simple order s u name).0 u)
        × (resolve_author_labels simple order (resolve_author_labels simple order s u name).0 u name
            ≡ ((resolve_author_labels simple order s u name).0, false))
        × (unread (resolve_author_labels simple order s u name).0.messages ≡ unread s.messages)
        × ((v : Uuid)
            → u ≢ v
            → thread_messages (resolve_author_labels simple order s u name).0 v
              ≡ thread_messages s v)
  unfolding resolve_author_labels thread_messages
  resolve_author_labels_settles s u name h =
      let (exact, told) = relabel-own u name s.messages in
      let thread : thread_messages (resolve_author_labels simple order s u name).0 u
          ≡ map (resolved name) (thread_messages s u) =
        ground (arith, exact) in
      (
        thread,
        ground (arith, told),
        subst (All IsNamed) (sym thread) (resolved-IsNamed name (thread_messages s u) h),
        ground (arith, relabel-relabel u name s.messages),
        ground (arith, unread-relabel u name s.messages),
        λ v n. ground (arith, own-relabel u v name s.messages),
      )

  -- After any sequence of calls on a new store, with fewer than 2^32 unread messages in it, the
  -- home screen's count is the number of unread messages.
  pub total_unread-run :
      (capacity : ℕ) (calls : List Call) (s : MessageStore)
      → run simple order calls (new capacity) ≡ some s
      → unread s.messages < 2 ^ 32
      → total_unread s ≡ unread s.messages
  unfolding total_unread
  total_unread-run capacity calls s h few =
      let rows = run-IsDerived simple order capacity calls s h in
      let exact = sum_unread-rebuild_summaries simple order s.messages (omega arith) in
      rw (rows, exact) (omega arith)
