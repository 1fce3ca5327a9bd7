-- ===== src/KeyStores/Numerals.antt =====
-- Numeric keys and the greatest of them: the listing `list_keys_as_u32s` of
-- crates/presage-store-pddb/src/lib.rs and `max()` in protocol/kyber_pre_key_store.rs.
use xous_app_signal.Prelude.{
  ℕ, zero, suc, ◌+◌, ◌-◌, max, ◌/◌, ◌%◌, ◌^◌, ◌<◌, ◌≤◌, ◌≡◌, refl, sym, ap, ◌∙◌, Bool, true, false,
  Option, none, some, Text, List, [], ◌∷◌, nat_beq, leb, ltb, ltb→lt, Bool-cases, Option-cases,
  text_beq, text_beq_iff, ◌||◌, inl, inr, arith, ◌&&◌,
}
use xous_app_signal.Collections.BTreeSet.{contains}
use xous_app_signal.Labels.{decimal, decimal_from}
use xous_app_signal.KeyStores.{read_digits, parse_u32, filter_map_u32, below_u32}
use xous_app_signal.KeyStores.Kyber.{max_id}
use xous_app_signal.KeyStores.PreKeys.{next_id}

read_digits-decimal_from :
    (fuel n : ℕ) (acc : Text)
    → n < fuel
    → read_digits 0 (decimal_from fuel n acc) ≡ read_digits n acc
unfolding decimal_from read_digits
read_digits-decimal_from zero n acc h = absurd (omega arith)
read_digits-decimal_from (suc fuel) n acc h =
    let digit : (leb b'0' (n % 10 + b'0') && leb (n % 10 + b'0') b'9') ≡ true = ground arith in
    elim (Bool-cases (ltb n 10)) [
      | inl small ↦
          rw (small, digit) (ap (λ t. read_digits t acc) (omega (arith, ltb→lt n 10 small)))
      | inr large ↦
          let some_left : 10 ≤ n = ground arith in
          rw large (
            read_digits-decimal_from fuel (n / 10) ((n % 10 + b'0') ∷ acc) (omega arith)
            ∙ rw digit (ap (λ t. read_digits t acc) (omega arith)))
    ]

decimal_from-cons :
    (fuel n : ℕ) (acc : Text)
    → n < fuel
    → (c : ℕ) × (s : Text) × (decimal_from fuel n acc ≡ c ∷ s) × (nat_beq c b'+' ≡ false)
unfolding decimal_from
decimal_from-cons zero n acc h = absurd (omega arith)
decimal_from-cons (suc fuel) n acc h = elim (Bool-cases (ltb n 10)) [
  | inl small ↦ (n % 10 + b'0', acc, rw small refl, ground arith)
  | inr large ↦
      let some_left : 10 ≤ n = ground arith in
      rw large (decimal_from-cons fuel (n / 10) ((n % 10 + b'0') ∷ acc) (omega arith))
]

-- The key of an id parses as the id.
parse_u32-decimal : (id : ℕ) → id < 2 ^ 32 → parse_u32 (decimal id) ≡ some id
unfolding parse_u32 decimal read_digits
parse_u32-decimal id bound =
    let (c, s, shape, plain) = decimal_from-cons (suc id) id [] (omega arith) in
    let value : read_digits 0 (decimal_from (suc id) id []) ≡ some id =
      read_digits-decimal_from (suc id) id [] (omega arith) in
    let value' : read_digits 0 (c ∷ s) ≡ some id = ap (read_digits 0) (sym shape) ∙ value in
    rw (shape, plain, value') (ground arith)

pub member : ℕ → List ℕ → Bool
member id [] = false
member id (x ∷ xs) = nat_beq x id || member id xs

member-head : (id : ℕ) (xs : List ℕ) → member id (id ∷ xs) ≡ true
unfolding member
member-head id xs = ground arith

member-tail : (id x : ℕ) (xs : List ℕ) → member id xs ≡ true → member id (x ∷ xs) ≡ true
unfolding member
member-tail id x xs h = ground (arith, h)

filter_map-some :
    (k : Text) (keys : List Text) (id : ℕ)
    → parse_u32 k ≡ some id
    → filter_map_u32 (k ∷ keys) ≡ id ∷ filter_map_u32 keys
unfolding filter_map_u32
filter_map-some k keys id e = rw (filter_map_u32, e) refl

filter_map-none :
    (k : Text) (keys : List Text)
    → parse_u32 k ≡ none
    → filter_map_u32 (k ∷ keys) ≡ filter_map_u32 keys
unfolding filter_map_u32
filter_map-none k keys e = rw (filter_map_u32, e) refl

pub member-filter_map :
    (id : ℕ) (keys : List Text)
    → id < 2 ^ 32
    → contains (decimal id) keys ≡ true
    → member id (filter_map_u32 keys) ≡ true
unfolding contains
member-filter_map id [] bound h = ground arith
member-filter_map id (k ∷ keys) bound h = elim (Bool-cases (text_beq k (decimal id))) [
  | inl same ↦
      let read : parse_u32 k ≡ some id =
        ap parse_u32 ((text_beq_iff k (decimal id)).0 same) ∙ parse_u32-decimal id bound in
      ap (member id) (filter_map-some k keys id read) ∙ member-head id (filter_map_u32 keys)
  | inr differ ↦
      let rest = member-filter_map id keys bound (ground (arith, h, differ)) in
      elim (Option-cases (parse_u32 k)) [
        | inl unread ↦ ap (member id) (filter_map-none k keys unread) ∙ rest
        | inr (found, read) ↦
            ap (member id) (filter_map-some k keys found read)
            ∙ member-tail id found (filter_map_u32 keys) rest
      ]
]

pub max_id-bounds :
    (id : ℕ) (ids : List ℕ)
    → member id ids ≡ true
    → (best : ℕ) × (max_id ids ≡ some best) × (id ≤ best)
unfolding max_id member
max_id-bounds id [] h = ground (arith, h)
max_id-bounds id (x ∷ ids) h = elim (Option-cases (max_id ids)) [
  | inl empty ↦ elim (Bool-cases (member id ids)) [
    | inl later ↦ ground (arith, empty, max_id-bounds id ids later)
    | inr not_later ↦ (x, rw empty refl, ground (arith, h, not_later))
  ]
  | inr (best, found) ↦ elim (Bool-cases (member id ids)) [
    | inl later ↦
        let (best', found', le) = max_id-bounds id ids later in
        let same : best' ≡ best = ground (arith, found, found') in
        (max x best, rw found refl, omega (arith, le, same))
    | inr not_later ↦
        let here : x ≡ id = ground (arith, h, not_later) in
        (max x best, rw found refl, omega (arith, here))
  ]
]

below_u32-bound : (o : Option ℕ) (n : ℕ) → below_u32 o ≡ some n → n < 2 ^ 32
below_u32-bound none n h = ground (arith, h)
below_u32-bound (some m) n h = ground (arith, h)

parse_u32-bound : (k : Text) (n : ℕ) → parse_u32 k ≡ some n → n < 2 ^ 32
unfolding parse_u32
parse_u32-bound [] n h = ground (arith, h)
parse_u32-bound (c ∷ []) n h = ground (arith, h, below_u32-bound (read_digits 0 (c ∷ [])) n)
parse_u32-bound (c ∷ d ∷ s) n h = ground (
  arith,
  h,
  below_u32-bound (read_digits 0 (d ∷ s)) n,
  below_u32-bound (read_digits 0 (c ∷ d ∷ s)) n,
)

max_id-one :
    (n : ℕ) (ids : List ℕ) (best : ℕ)
    → n < 2 ^ 32
    → max_id ids ≡ none
    → max_id (n ∷ ids) ≡ some best
    → best < 2 ^ 32
unfolding max_id
max_id-one n ids best small empty h = ground (arith, small, empty, h)

max_id-more :
    (n rest : ℕ) (ids : List ℕ) (best : ℕ)
    → n < 2 ^ 32
    → rest < 2 ^ 32
    → max_id ids ≡ some rest
    → max_id (n ∷ ids) ≡ some best
    → best < 2 ^ 32
unfolding max_id
max_id-more n rest ids best small small' found h = ground (arith, small, small', found, h)

pub max_id-filter_map :
    (keys : List Text) (best : ℕ) → max_id (filter_map_u32 keys) ≡ some best → best < 2 ^ 32
unfolding max_id filter_map_u32
max_id-filter_map [] best h = ground (arith, h)
max_id-filter_map (k ∷ keys) best h = elim (Option-cases (parse_u32 k)) [
  | inl unread ↦ max_id-filter_map keys best (sym (ap max_id (filter_map-none k keys unread)) ∙ h)
  | inr (n, read) ↦
      let small = parse_u32-bound k n read in
      let shown = sym (ap max_id (filter_map-some k keys n read)) ∙ h in
      elim (Option-cases (max_id (filter_map_u32 keys))) [
        | inl empty ↦ max_id-one n (filter_map_u32 keys) best small empty shown
        | inr (rest, found) ↦
            max_id-more n rest (filter_map_u32 keys) best small (max_id-filter_map keys rest found)
              found shown
      ]
]

pub next_id-above : (id best : ℕ) → id ≤ best → best < 2 ^ 32 - 1 → id < next_id (some best)
unfolding next_id
next_id-above id best le bound = omega (arith, le, bound)
