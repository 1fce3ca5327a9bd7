-- ===== src/Collections/BTreeSet.antt =====
-- `std::collections::BTreeSet<String>`: a strictly ascending list of texts, in byte order.
use Prim.Native.Nat.{compare, Ordering}
use Prim.Native.Nat.Ordering.{lt, eq, gt}
use xous_app_signal.Prelude.{
  ◌≡◌, refl, Bool, false, not, ◌&&◌, ◌||◌, List, [], ◌∷◌, arith, Text, text_beq, text_beq_iff,
  if◌then◌else◌,
}

abbrev pub BTreeSet : Type 0
BTreeSet = List Text

-- The order of `str`: lexicographic on bytes.
unfoldable pub text_cmp : Text → Text → Ordering
text_cmp [] [] = eq
text_cmp [] (y ∷ ys) = lt
text_cmp (x ∷ xs) [] = gt
text_cmp (x ∷ xs) (y ∷ ys) = let rest = text_cmp xs ys in elim (compare x y) [ eq ↦ rest | o ↦ o ]

pub text_cmp-eq : (a b : Text) → text_cmp a b ≡ eq → a ≡ b
unfolding text_cmp
text_cmp-eq [] [] h = refl
text_cmp-eq [] (y ∷ ys) h = ground arith
text_cmp-eq (x ∷ xs) [] h = ground arith
text_cmp-eq (x ∷ xs) (y ∷ ys) h = ground (arith, text_cmp-eq xs ys)

pub text_cmp_refl : (a : Text) → text_cmp a a ≡ eq
unfolding text_cmp
text_cmp_refl [] = refl
text_cmp_refl (x ∷ xs) = ground (arith, text_cmp_refl xs)

text_cmp-gt : (a b : Text) → text_cmp a b ≡ gt → text_cmp b a ≡ lt
unfolding text_cmp
text_cmp-gt [] [] h = ground arith
text_cmp-gt [] (y ∷ ys) h = ground arith
text_cmp-gt (x ∷ xs) [] h = refl
text_cmp-gt (x ∷ xs) (y ∷ ys) h = ground (arith, text_cmp-gt xs ys)

unfoldable pub contains : Text → BTreeSet → Bool
contains k [] = false
contains k (x ∷ s) = text_beq x k || contains k s

unfoldable pub insert : Text → BTreeSet → BTreeSet
insert k [] = k ∷ []
insert k (x ∷ s) =
    let rest = insert k s in elim (text_cmp k x) [ lt ↦ k ∷ x ∷ s | eq ↦ x ∷ s | gt ↦ x ∷ rest ]

unfoldable pub remove : Text → BTreeSet → BTreeSet
remove k [] = []
remove k (x ∷ s) = let rest = remove k s in if text_beq x k then rest else x ∷ rest

-- `into_iter().collect()`
unfoldable pub collect : List Text → BTreeSet
unfolding insert
collect [] = []
collect (x ∷ xs) = insert x (collect xs)

pub contains-insert :
    (k j : Text) (s : BTreeSet) → contains j (insert k s) ≡ (text_beq k j || contains j s)
unfolding contains insert
contains-insert k j [] = ground arith
contains-insert k j (x ∷ s) =
    ground (arith, contains-insert k j s, text_cmp-eq k x, text_beq_iff k j, text_beq_iff x j)

pub contains-remove :
    (k j : Text) (s : BTreeSet) → contains j (remove k s) ≡ (not (text_beq k j) && contains j s)
unfolding contains remove
contains-remove k j [] = ground arith
contains-remove k j (x ∷ s) =
    ground (arith, contains-remove k j s, text_beq_iff k j, text_beq_iff x j, text_beq_iff x k)

pub contains-collect : (k : Text) (xs : List Text) → contains k (collect xs) ≡ contains k xs
unfolding collect contains
contains-collect k [] = refl
contains-collect k (x ∷ xs) =
    ground (arith, contains-insert x k (collect xs), contains-collect k xs)

-- Strictly ascending.
abbrev pub Ascends : List Text → Type 0
Ascends [] = Unit
Ascends (x ∷ []) = Unit
Ascends (x ∷ y ∷ s) = (text_cmp x y ≡ lt) × Ascends (y ∷ s)

pub insert-Ascends : (k : Text) (s : BTreeSet) → Ascends s → Ascends (insert k s)
unfolding insert
insert-Ascends k [] h = tt
insert-Ascends k (x ∷ []) h = ground (arith, text_cmp-gt k x)
insert-Ascends k (x ∷ y ∷ s) h =
    ground (arith, insert-Ascends k (y ∷ s), text_cmp-gt k x, text_cmp-gt k y)

pub collect-Ascends : (xs : List Text) → Ascends (collect xs)
unfolding collect
collect-Ascends [] = tt
collect-Ascends (x ∷ xs) = insert-Ascends x (collect xs) (collect-Ascends xs)

text_cmp-lt_trans : (a b c : Text) → text_cmp a b ≡ lt → text_cmp b c ≡ lt → text_cmp a c ≡ lt
unfolding text_cmp
text_cmp-lt_trans [] [] c p q = ground arith
text_cmp-lt_trans [] (y ∷ ys) [] p q = ground arith
text_cmp-lt_trans [] (y ∷ ys) (z ∷ zs) p q = refl
text_cmp-lt_trans (x ∷ xs) [] c p q = ground arith
text_cmp-lt_trans (x ∷ xs) (y ∷ ys) [] p q = ground arith
text_cmp-lt_trans (x ∷ xs) (y ∷ ys) (z ∷ zs) p q = ground (arith, text_cmp-lt_trans xs ys zs)

Ascends-skip : (x y : Text) (s : List Text) → Ascends (x ∷ y ∷ s) → Ascends (x ∷ s)
Ascends-skip x y [] h = tt
Ascends-skip x y (z ∷ s) h = (text_cmp-lt_trans x y z h.0 h.1.0, h.1.1)

remove-above : (k x : Text) (s : BTreeSet) → Ascends (x ∷ s) → Ascends (x ∷ remove k s)
unfolding remove
remove-above k x [] h = tt
remove-above k x (y ∷ s) h =
    ground (arith, remove-above k x s (Ascends-skip x y s h), remove-above k y s h.1)

pub remove-Ascends : (k : Text) (s : BTreeSet) → Ascends s → Ascends (remove k s)
unfolding remove
remove-Ascends k [] h = tt
remove-Ascends k (x ∷ []) h = ground arith
remove-Ascends k (x ∷ y ∷ s) h =
    ground (arith, remove-Ascends k (y ∷ s), remove-above k x (y ∷ s) h)
