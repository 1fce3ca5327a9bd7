-- ===== src/Worker/Waiting.antt =====
-- The sends that wait for a delivery receipt: the receipts in `process_received` and the sweep
-- `sweep_expired_pending_sends` of crates/xous-signal-worker/src/lib.rs, in any order.
use xous_app_signal.Prelude.{
  ℕ, ◌+◌, ◌≤◌, ◌≡◌, ◌⊎◌, inl, inr, refl, ap, ◌∙◌, true, not, Bool-cases, Option, Option-cases, none,
  some, List, [], ◌∷◌, ◌++◌, leb, nat_beq, nat_beq_iff, nat_eq, if◌then◌else◌, arith,
}
use xous_app_signal.Collections.HashMap.{
  Iteration, NodupKeys, lookup, remove, lookup-remove, retain-NodupKeys,
}
use xous_app_signal.Worker.{
  SendEvent, Pending, confirm, expired, drop_expired, sweep_expired_pending_sends,
}
use xous_app_signal.Worker.Accounting.{timestamp_of}

-- How many events there are of a timestamp, and whether it waits.
unfoldable pub count : ℕ → List SendEvent → ℕ
count ts [] = 0
count ts (e ∷ events) = (if nat_beq (timestamp_of e) ts then 1 else 0) + count ts events

abbrev pub as_one : Option ℕ → ℕ
as_one none = 0
as_one (some _) = 1

abbrev pub held : ℕ → Pending → ℕ
held ts pending = as_one (lookup ts pending)

-- Receipts, with the channel open, and a sweep at a time.
pub data Tick : Type 0 where
  receipts : List ℕ → Tick
  sweep : ℕ → Tick

remove-NodupKeys : (ts : ℕ) (p : Pending) → NodupKeys p → NodupKeys (remove ts p)
unfolding remove
remove-NodupKeys ts p h = retain-NodupKeys (λ j. not (nat_beq j ts)) p h

confirm-count :
    (timestamps : List ℕ) (p : Pending) (ts : ℕ)
    → count ts (confirm true timestamps p).1 + held ts (confirm true timestamps p).0 ≡ held ts p
unfolding confirm count
confirm-count [] p ts = omega arith
confirm-count (t ∷ timestamps) p ts = elim (Option-cases (lookup t p)) [
  | inl absent ↦ rw (confirm, absent) (confirm-count timestamps p ts)
  | inr (d, there) ↦
      let rest = confirm-count timestamps (remove t p) ts in
      ground (arith, there, rest, lookup-remove t ts p, nat_beq_iff t ts)
]

confirm-NodupKeys :
    (timestamps : List ℕ) (p : Pending) → NodupKeys p → NodupKeys (confirm true timestamps p).0
unfolding confirm
confirm-NodupKeys [] p h = h
confirm-NodupKeys (t ∷ timestamps) p h = elim (Option-cases (lookup t p)) [
  | inl absent ↦ rw (confirm, absent) (confirm-NodupKeys timestamps p h)
  | inr (d, there) ↦
      rw (confirm, there) (confirm-NodupKeys timestamps (remove t p) (remove-NodupKeys t p h))
]

-- An entry keeps its deadline for as long as it waits.
confirm-lookup :
    (timestamps : List ℕ) (p : Pending) (ts : ℕ)
    → (lookup ts (confirm true timestamps p).0 ≡ none)
      ⊎ (lookup ts (confirm true timestamps p).0 ≡ lookup ts p)
unfolding confirm
confirm-lookup [] p ts = inr refl
confirm-lookup (t ∷ timestamps) p ts = elim (Option-cases (lookup t p)) [
  | inl absent ↦ rw (confirm, absent) (confirm-lookup timestamps p ts)
  | inr (d, there) ↦
      let rest = confirm-lookup timestamps (remove t p) ts in
      ground (arith, there, rest, lookup-remove t ts p)
]

unfoldable occurrences : ℕ → List ℕ → ℕ
occurrences ts [] = 0
occurrences ts (t ∷ rest) = (if nat_beq t ts then 1 else 0) + occurrences ts rest

drop_expired-count :
    (l : List ℕ) (p : Pending) (ts : ℕ) → count ts (drop_expired l p).1 ≡ occurrences ts l
unfolding drop_expired count occurrences
drop_expired-count [] p ts = refl
drop_expired-count (t ∷ l) p ts =
    ap (λ n. (if nat_beq t ts then 1 else 0) + n) (drop_expired-count l (remove t p) ts)

drop_expired-lookup :
    (l : List ℕ) (p : Pending) (ts : ℕ)
    → lookup ts (drop_expired l p).0 ≡ (if nat_beq (occurrences ts l) 0 then lookup ts p else none)
unfolding drop_expired occurrences
drop_expired-lookup [] p ts = refl
drop_expired-lookup (t ∷ l) p ts =
    ground (arith, drop_expired-lookup l (remove t p) ts, lookup-remove t ts p)

drop_expired-NodupKeys : (l : List ℕ) (p : Pending) → NodupKeys p → NodupKeys (drop_expired l p).0
unfolding drop_expired
drop_expired-NodupKeys [] p h = h
drop_expired-NodupKeys (t ∷ l) p h = drop_expired-NodupKeys l (remove t p) (remove-NodupKeys t p h)

abbrev due : ℕ → Option ℕ → ℕ
due now none = 0
due now (some deadline) = if leb deadline now then 1 else 0

expired-occurrences :
    (now ts : ℕ) (entries : List (ℕ × ℕ))
    → NodupKeys entries
    → occurrences ts (expired now entries) ≡ due now (lookup ts entries)
unfolding expired occurrences lookup
expired-occurrences now ts [] h = refl
expired-occurrences now ts ((t, deadline) ∷ entries) (fresh, h) =
    ground (arith, fresh, expired-occurrences now ts entries h, nat_beq_iff t ts)

module _ (order : Iteration ℕ ℕ) where
  sweep_lem :
      (now ts : ℕ) (p : Pending)
      → NodupKeys p
      → (count ts (sweep_expired_pending_sends order now p).1 ≡ due now (lookup ts p))
        × (lookup ts (sweep_expired_pending_sends order now p).0
            ≡ (if nat_beq (due now (lookup ts p)) 0 then lookup ts p else none))
        × NodupKeys (sweep_expired_pending_sends order now p).0
  unfolding sweep_expired_pending_sends count lookup
  sweep_lem now ts [] h = (refl, refl, tt)
  sweep_lem now ts (entry ∷ entries) h =
      let p : Pending = entry ∷ entries in
      let l = expired now (order.entries p) in
      let occurs : occurrences ts l ≡ due now (lookup ts p) =
        expired-occurrences now ts (order.entries p) (order.entries_NodupKeys p h)
        ∙ ap (due now) (order.entries_lookup p ts) in
      (
        drop_expired-count l p ts ∙ occurs,
        drop_expired-lookup l p ts ∙ ap (λ n. if nat_beq n 0 then lookup ts p else none) occurs,
        drop_expired-NodupKeys l p h,
      )

  unfoldable pub tick : Tick → Pending → Pending × List SendEvent
  tick (receipts timestamps) p = confirm true timestamps p
  tick (sweep now) p = sweep_expired_pending_sends order now p

  unfoldable pub run_ticks : List Tick → Pending → Pending × List SendEvent
  unfolding tick
  run_ticks [] p = (p, [])
  run_ticks (t ∷ ticks) p =
      let (p', events) = tick t p in let (last, more) = run_ticks ticks p' in (last, events ++ more)

  count-append : (ts : ℕ) (xs ys : List SendEvent) → count ts (xs ++ ys) ≡ count ts xs + count ts ys
  unfolding count
  count-append ts [] ys = omega arith
  count-append ts (x ∷ xs) ys = omega (arith, count-append ts xs ys)

  -- No event is lost and none is doubled, and a deadline stays.
  abbrev Kept : ℕ → Pending → Pending × List SendEvent → Type 0
  Kept ts p (p', events) =
      (count ts events + held ts p' ≡ held ts p)
      × ((lookup ts p' ≡ none) ⊎ (lookup ts p' ≡ lookup ts p))
      × NodupKeys p'

  swept-Kept :
      (now ts : ℕ) (p p' : Pending) (events : List SendEvent)
      → count ts events ≡ due now (lookup ts p)
      → lookup ts p' ≡ (if nat_beq (due now (lookup ts p)) 0 then lookup ts p else none)
      → NodupKeys p'
      → Kept ts p (p', events)
  swept-Kept now ts p p' events counted left keys = elim (Option-cases (lookup ts p)) [
    | inl absent ↦ (ground (arith, counted, left, absent), inl (ground (arith, left, absent)), keys)
    | inr (deadline, there) ↦ elim (Bool-cases (leb deadline now)) [
      | inl late ↦ (
        ground (arith, counted, left, there, late),
        inl (ground (arith, left, there, late)),
        keys,
      )
      | inr early ↦ (
        ground (arith, counted, left, there, early),
        inr (ground (arith, left, there, early)),
        keys,
      )
    ]
  ]

  tick-Kept : (t : Tick) (ts : ℕ) (p : Pending) → NodupKeys p → Kept ts p (tick t p)
  unfolding tick
  tick-Kept (receipts timestamps) ts p h = (
    confirm-count timestamps p ts,
    confirm-lookup timestamps p ts,
    confirm-NodupKeys timestamps p h,
  )
  tick-Kept (sweep now) ts p h =
      let (counted, left, keys) = sweep_lem now ts p h in swept-Kept now ts p _ _ counted left keys

  run_ticks-Kept :
      (ticks : List Tick) (ts : ℕ) (p : Pending) → NodupKeys p → Kept ts p (run_ticks ticks p)
  unfolding run_ticks count
  run_ticks-Kept [] ts p h = (omega arith, inr refl, h)
  run_ticks-Kept (t ∷ ticks) ts p h =
      let (counted, deadline, keys) = tick-Kept t ts p h in
      let (counted', deadline', keys') = run_ticks-Kept ticks ts (tick t p).0 keys in
      (
        omega (
          arith,
          counted,
          counted',
          count-append ts (tick t p).1 (run_ticks ticks (tick t p).0).1,
        ),
        elim deadline' [
          | inl gone ↦ inl gone
          | inr same ↦ elim deadline [
            | inl gone ↦ inl (same ∙ gone)
            | inr same' ↦ inr (same ∙ same')
          ]
        ],
        keys',
      )

  -- Every send that waits is resolved, once. From a table of distinct timestamps in which a send waits
  -- until a deadline: whatever receipts and sweeps come in whatever order, after a sweep at or past the
  -- deadline exactly one event has been emitted for its timestamp, and it waits no more.
  pub wait-resolved :
      (ticks : List Tick) (now ts deadline : ℕ) (p : Pending)
      → NodupKeys p
      → lookup ts p ≡ some deadline
      → deadline ≤ now
      → let (p', events) = run_ticks ticks p in
        let (last, more) = sweep_expired_pending_sends order now p' in
        (count ts (events ++ more) ≡ 1) × (lookup ts last ≡ none)
  wait-resolved ticks now ts deadline p keys waits late =
      let (counted, stays, keys') = run_ticks-Kept ticks ts p keys in
      let (swept, left, _) = sweep_lem now ts (run_ticks ticks p).0 keys' in
      let total =
        count-append ts (run_ticks ticks p).1
          (sweep_expired_pending_sends order now (run_ticks ticks p).0).1 in
      elim stays [
        | inl gone ↦
            (ground (arith, counted, swept, gone, waits, total), ground (arith, left, gone))
        | inr same ↦ (
          ground (arith, counted, swept, same, waits, late, total),
          ground (arith, left, same, waits, late),
        )
      ]
