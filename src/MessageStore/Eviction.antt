-- ===== src/MessageStore/Eviction.antt =====
-- What the helpers of the message store (crates/xous-app-signal/src/store.rs) do to the number of
-- its rows, and what an eviction leaves.
use xous_app_signal.Prelude.{
  ℕ, suc, ◌+◌, ◌-◌, ◌≤◌, ◌<◌, ◌≡◌, refl, some, List, [], ◌∷◌, ◌++◌, arith, Text, Option-cases,
  Bool-cases, inl, inr, length, drop, nat_eq, leb, if◌then◌else◌,
}
use xous_app_signal.Dialogue.{Uuid, SendStatus, ThreadMessage, DialogueSummary}
use xous_app_signal.MessageStore.{MessageStore, evict_if_full, mark_read, relabel, set_newest}

pub length-mark_read : (u : Uuid) (ms : List ThreadMessage) → length (mark_read u ms).0 ≡ length ms
unfolding mark_read
length-mark_read u [] = refl
length-mark_read u (m ∷ ms) = ground (arith, length-mark_read u ms)

pub length-relabel :
    (u : Uuid) (name : Text) (ms : List ThreadMessage) → length (relabel u name ms).0 ≡ length ms
unfolding relabel
length-relabel u name [] = refl
length-relabel u name (m ∷ ms) = ground (arith, length-relabel u name ms)

pub length-set_newest :
    (ts : ℕ) (status : SendStatus) (ms ms' : List ThreadMessage)
    → set_newest ts status ms ≡ some ms'
    → length ms' ≡ length ms
unfolding set_newest
length-set_newest ts status [] ms' h = ground arith
length-set_newest ts status (m ∷ ms) ms' h = elim (Option-cases (set_newest ts status ms)) [
  | inl e ↦ ground arith
  | inr (rest, e) ↦ ground (arith, length-set_newest ts status ms rest)
]

-- The messages that a push leaves.
unfoldable pub kept : ℕ → List ThreadMessage → List ThreadMessage
kept capacity ms = if leb capacity (length ms) then drop 1 ms else ms

pub length-kept :
    (capacity : ℕ) (ms : List ThreadMessage)
    → 0 < capacity
    → length ms ≤ capacity
    → length (kept capacity ms) < capacity
unfolding kept
length-kept capacity [] p h = ground arith
length-kept capacity (m ∷ ms) p h = ground arith

pub kept-append :
    (capacity : ℕ) (ms : List ThreadMessage) (m : ThreadMessage)
    → 0 < capacity
    → length ms ≤ capacity
    → kept capacity ms ++ m ∷ [] ≡ drop (length ms + 1 - capacity) (ms ++ m ∷ [])
unfolding kept
kept-append capacity [] m p h =
    let none_dropped : 0 + 1 - capacity ≡ 0 = omega arith in rw none_dropped (ground arith)
kept-append capacity (x ∷ ms) m p h = elim (Bool-cases (leb capacity (suc (length ms)))) [
  | inl full ↦
      let one : suc (length ms) + 1 - capacity ≡ suc 0 = ground arith in rw (full, one) refl
  | inr room ↦
      let none_dropped : suc (length ms) + 1 - capacity ≡ 0 = ground arith in
      rw (room, none_dropped) refl
]

pub evict_rows :
    (ms : List ThreadMessage) (ds : List DialogueSummary) (capacity : ℕ)
    → 0 < capacity
    → evict_if_full (record { messages = ms; dialogues = ds; capacity = capacity })
      ≡ some (record { messages = kept capacity ms; dialogues = ds; capacity = capacity })
unfolding evict_if_full kept
evict_rows [] ds capacity p = ground arith
evict_rows (m ∷ ms) ds capacity p = ground arith

pub evict_if_full-some :
    (s : MessageStore)
    → 0 < s.capacity
    → evict_if_full s ≡ some (record s { messages = kept s.capacity s.messages })
evict_if_full-some s p = evict_rows s.messages s.dialogues s.capacity p
