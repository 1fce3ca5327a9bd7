-- ===== src/Contents/Threads.antt =====
-- What `messages` of crates/presage-store-pddb/src/content.rs lists of a thread.
use xous_app_signal.Prelude.{
  ℕ, ◌^◌, ◌<◌, ◌≤◌, ◌≡◌, refl, sym, ap, ◌∙◌, Bool, true, false, ◌||◌, Bool-cases, Option,
  Option-cases, some, inl, inr, Text, List, [], ◌∷◌, leb, nat_beq, nat_beq_iff, text_beq,
  text_beq_iff, Result, ok, Result-cases, arith,
}
use xous_app_signal.Collections.BTreeSet.{contains}
use xous_app_signal.Backend.{Error, Bytes, KvBackend}
use xous_app_signal.Backend.Laws.{Laws, is_some}
use xous_app_signal.KeyStores.{Json}
use xous_app_signal.Contents.{
  Bound, Thread, message_key, from_str_radix_16, range_contains_u64, in_range, sort_in,
  sort_unstable, thread_dict_name, load_each, messages,
}
use xous_app_signal.Contents.Keys.{from_str_radix-message_key}

unfoldable pub member : ℕ → List ℕ → Bool
member t [] = false
member t (x ∷ xs) = nat_beq x t || member t xs

-- Each is at most the next.
abbrev pub AtMostHead : ℕ → List ℕ → Type 0
AtMostHead x [] = Unit
AtMostHead x (y ∷ ys) = x ≤ y

abbrev pub IsAscending : List ℕ → Type 0
IsAscending [] = Unit
IsAscending (x ∷ xs) = AtMostHead x xs × IsAscending xs

sort_in-head : (x y : ℕ) (ys : List ℕ) → y ≤ x → AtMostHead y ys → AtMostHead y (sort_in x ys)
unfolding sort_in
sort_in-head x y [] le h = le
sort_in-head x y (z ∷ zs) le h = ground (arith, le, h)

sort_in-IsAscending : (x : ℕ) (ys : List ℕ) → IsAscending ys → IsAscending (sort_in x ys)
unfolding sort_in
sort_in-IsAscending x [] h = (tt, tt)
sort_in-IsAscending x (y ∷ ys) (first, rest) = elim (Bool-cases (leb x y)) [
  | inl le ↦ rw le (ground (arith, le), (first, rest))
  | inr more ↦
      rw more (sort_in-head x y ys (ground (arith, more)) first, sort_in-IsAscending x ys rest)
]

sort_unstable-IsAscending : (xs : List ℕ) → IsAscending (sort_unstable xs)
unfolding sort_unstable
sort_unstable-IsAscending [] = tt
sort_unstable-IsAscending (x ∷ xs) =
    sort_in-IsAscending x (sort_unstable xs) (sort_unstable-IsAscending xs)

member-sort_in : (t x : ℕ) (ys : List ℕ) → member t (sort_in x ys) ≡ (nat_beq x t || member t ys)
unfolding sort_in member
member-sort_in t x [] = refl
member-sort_in t x (y ∷ ys) = ground (arith, member-sort_in t x ys)

member-sort_unstable : (t : ℕ) (xs : List ℕ) → member t (sort_unstable xs) ≡ member t xs
unfolding sort_unstable member
member-sort_unstable t [] = refl
member-sort_unstable t (x ∷ xs) =
    member-sort_in t x (sort_unstable xs) ∙ ap (λ b. nat_beq x t || b) (member-sort_unstable t xs)

-- What is listed is in the range.
in_range_sound :
    (start end : Bound) (t : ℕ) (keys : List Text)
    → member t (in_range start end keys) ≡ true
    → range_contains_u64 start end t ≡ true
unfolding in_range member
in_range_sound start end t [] h = ground (arith, h)
in_range_sound start end t (k ∷ keys) h = elim (Option-cases (from_str_radix_16 (2 ^ 64) k)) [
  | inl unread ↦ in_range_sound start end t keys (ground (arith, h, unread))
  | inr (ts, read) ↦ elim (Bool-cases (range_contains_u64 start end ts)) [
    | inr outside ↦ in_range_sound start end t keys (ground (arith, h, read, outside))
    | inl inside ↦
        ground (arith, h, read, inside, in_range_sound start end t keys, nat_beq_iff ts t)
  ]
]

-- What is stored under the key of a timestamp in the range is listed.
in_range_complete :
    (start end : Bound) (t : ℕ) (keys : List Text)
    → t < 2 ^ 64
    → contains (message_key t) keys ≡ true
    → range_contains_u64 start end t ≡ true
    → member t (in_range start end keys) ≡ true
unfolding in_range member contains
in_range_complete start end t [] bound h inside = ground (arith, h)
in_range_complete start end t (k ∷ keys) bound h inside =
    elim (Bool-cases (text_beq k (message_key t))) [
      | inl same ↦
          let read : from_str_radix_16 (2 ^ 64) k ≡ some t =
            ap (from_str_radix_16 (2 ^ 64)) ((text_beq_iff k (message_key t)).0 same)
            ∙ from_str_radix-message_key t bound in
          ground (arith, read, inside)
      | inr differ ↦
          let rest = in_range_complete start end t keys bound (ground (arith, h, differ)) inside in
          ground (arith, rest)
    ]

module _ (sha256_hex base64 : Text → Text) {B S C : Type 0} (kv : KvBackend B)
    (view : B → Text → Text → Option Bytes) (IsValid : B → Type 0) (laws : Laws kv view IsValid)
    (json : Json S) (from_content : C → S) (into_content : S → Result C Error)
    (timestamp_of : C → ℕ) where
  -- The timestamps of a listing.
  abbrev pub Listed : B → Thread → Bound → Bound → List (Result C Error) → Type 0
  Listed b thread start end items =
      (stamps : List ℕ) × (items
        ≡ load_each sha256_hex base64 kv json from_content into_content timestamp_of b
            (thread_dict_name sha256_hex base64 thread) stamps)
      × IsAscending stamps
      × ((t : ℕ) → member t stamps ≡ true → range_contains_u64 start end t ≡ true)
      × ((t : ℕ)
          → t < 2 ^ 64
          → is_some (view b (thread_dict_name sha256_hex base64 thread) (message_key t)) ≡ true
          → range_contains_u64 start end t ≡ true
          → member t stamps ≡ true)

  -- Over a lawful and valid backend: a listing of a thread's messages loads them by timestamps that
  -- ascend, all of which lie in the range, and among which is every timestamp of the range under whose
  -- key the thread holds a message.
  pub messages-Listed :
      (b : B) (thread : Thread) (start end : Bound) (items : List (Result C Error))
      → IsValid b
      → messages sha256_hex base64 kv json from_content into_content timestamp_of b thread start end
        ≡ ok items
      → Listed b thread start end items
  unfolding messages
  messages-Listed b thread start end items valid h =
      let dict = thread_dict_name sha256_hex base64 thread in
      elim (Result-cases (kv.list_keys b dict)) [
        | inr (e, bad) ↦ ground (arith, h, bad)
        | inl (keys, got) ↦ (
          sort_unstable (in_range start end keys),
          ground (arith, h, got),
          sort_unstable-IsAscending (in_range start end keys),
          λ t there.
              in_range_sound start end t keys
                (sym (member-sort_unstable t (in_range start end keys)) ∙ there),
          λ t bound held inside.
              member-sort_unstable t (in_range start end keys)
              ∙ in_range_complete start end t keys bound
                  (laws.list_keys_ok b dict (message_key t) keys valid got ∙ held) inside,
        )
      ]
