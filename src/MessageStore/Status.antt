-- ===== src/MessageStore/Status.antt =====
-- Matching a worker's send event back to its row.
use xous_app_signal.Prelude.{
  ℕ, ◌≡◌, refl, ◌⊎◌, Bool, true, false, ◌||◌, none, some, ap, Bool-cases, inl, inr, List, [], ◌∷◌,
  ◌++◌, arith, Text, nat_eq,
}
use xous_app_signal.Collections.HashMap.{Iteration}
use xous_app_signal.Dialogue.{Uuid, SendStatus, ThreadMessage, DialogueSummary}
use xous_app_signal.MessageStore.{MessageStore, is_send, set_newest, set_outgoing_status}

unfoldable pub any_send : ℕ → List ThreadMessage → Bool
any_send timestamp [] = false
any_send timestamp (m ∷ ms) = is_send timestamp m || any_send timestamp ms

-- The newest row of a send: one that matches, with no match behind it.
pub record IsNewest (timestamp : ℕ) (ms before : List ThreadMessage) (m : ThreadMessage)
    (behind : List ThreadMessage) : Type 0 where
  pub parts : ms ≡ before ++ m ∷ behind
  pub matches : is_send timestamp m ≡ true
  pub last : any_send timestamp behind ≡ false

set_newest-none :
    (ts : ℕ) (status : SendStatus) (ms : List ThreadMessage)
    → any_send ts ms ≡ false
    → set_newest ts status ms ≡ none
unfolding set_newest any_send
set_newest-none ts status [] h = refl
set_newest-none ts status (m ∷ ms) h = ground (arith, set_newest-none ts status ms)

set_newest-append :
    (ts : ℕ) (status : SendStatus) (before : List ThreadMessage) (m : ThreadMessage)
    (behind : List ThreadMessage)
    → is_send ts m ≡ true
    → any_send ts behind ≡ false
    → set_newest ts status (before ++ m ∷ behind)
      ≡ some (before ++ record m { status = status } ∷ behind)
unfolding set_newest
set_newest-append ts status [] m behind h last =
    ground (arith, set_newest-none ts status behind last)
set_newest-append ts status (x ∷ before) m behind h last =
    ground (arith, set_newest-append ts status before m behind h last)

find-IsNewest :
    (ts : ℕ) (ms : List ThreadMessage)
    → (any_send ts ms ≡ false)
      ⊎ ((before : List ThreadMessage) × (m : ThreadMessage) × (behind : List ThreadMessage)
          × IsNewest ts ms before m behind)
unfolding any_send
find-IsNewest ts [] = inl refl
find-IsNewest ts (m ∷ ms) = elim (find-IsNewest ts ms) [
  | inr (before, n, behind, found) ↦ inr (
    m ∷ before,
    n,
    behind,
    record { parts = ap (λ l. m ∷ l) found.parts; matches = found.matches; last = found.last },
  )
  | inl later ↦ elim (Bool-cases (is_send ts m)) [
    | inl here ↦ inr ([], m, ms, record { parts = refl; matches = here; last = later })
    | inr other ↦ inl (ground arith)
  ]
]

module _ (simple : Uuid → Text) (order : Iteration Uuid DialogueSummary) where
  -- A send event with no outgoing row of its timestamp reports false and changes nothing;
  -- otherwise it reports true, there is a newest outgoing row of that timestamp, and of the
  -- messages exactly the status of that row is new.
  pub set_outgoing_status_lem :
      (s : MessageStore) (ts : ℕ) (status : SendStatus)
      → ((any_send ts s.messages ≡ false)
          × (set_outgoing_status simple order s ts status ≡ (s, false)))
        ⊎ ((before : List ThreadMessage) × (m : ThreadMessage) × (behind : List ThreadMessage)
            × IsNewest ts s.messages before m behind
            × ((set_outgoing_status simple order s ts status).1 ≡ true)
            × ((set_outgoing_status simple order s ts status).0.messages
                ≡ before ++ record m { status = status } ∷ behind))
  unfolding set_outgoing_status
  set_outgoing_status_lem s ts status = elim (find-IsNewest ts s.messages) [
    | inl absent ↦
        inl (absent, rw (set_newest-none ts status s.messages absent, set_outgoing_status))
    | inr (before, m, behind, found) ↦
        let e : set_newest ts status s.messages
            ≡ some (before ++ record m { status = status } ∷ behind) =
          rw found.parts (set_newest-append ts status before m behind found.matches found.last) in
        inr (before, m, behind, found, ground (arith, e), ground (arith, e))
  ]
