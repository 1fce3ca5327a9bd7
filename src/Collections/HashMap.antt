-- ===== src/Collections/HashMap.antt =====
-- `std::collections::HashMap`: an association list of distinct keys. The order of iteration is
-- not specified, so code that iterates takes an `Iteration`.
use xous_app_signal.Prelude.{
  suc, ◌≡◌, refl, Bool, true, not, ◌&&◌, Option, none, some, List, [], ◌∷◌, arith, HasEq, ◌==◌,
  if◌then◌else◌, length,
}

abbrev pub HashMap {ℓ κ} : Type ℓ → Type κ → Type (ℓ ⊔ κ)
HashMap K V = List (K × V)

-- A tuple key compares by components.
module _ {ℓ κ} {A : Type ℓ} {B : Type κ} ⦃a : HasEq A⦄ ⦃b : HasEq B⦄ where
  abbrev pub pair_beq : A × B → A × B → Bool
  pair_beq x y = a.same x.0 y.0 && b.same x.1 y.1

  pub pair_eq_lem : (x y : A × B) → (pair_beq x y ≡ true → x ≡ y) × (x ≡ y → pair_beq x y ≡ true)
  pair_eq_lem x y = (
    λ h. ground (arith, a.same_iff x.0 y.0, b.same_iff x.1 y.1),
    λ h. ground (arith, a.same_iff x.0 y.0, b.same_iff x.1 y.1),
  )

  instance abbrev pub pair_eq : HasEq (A × B)
  pair_eq = record { same = pair_beq; same_iff = pair_eq_lem }

module _ {ℓ κ} {K : Type ℓ} {V : Type κ} ⦃e : HasEq K⦄ where
  unfoldable pub lookup : K → HashMap K V → Option V
  lookup k [] = none
  lookup k ((key, value) ∷ rest) = if key == k then some value else lookup k rest

  unfoldable pub insert : K → V → HashMap K V → HashMap K V
  insert k v [] = (k, v) ∷ []
  insert k v ((key, old) ∷ rest) =
      if key == k then (key, v) ∷ rest else (key, old) ∷ insert k v rest

  unfoldable pub retain : (K → Bool) → HashMap K V → HashMap K V
  retain p [] = []
  retain p ((j, v) ∷ m) = let rest = retain p m in if p j then (j, v) ∷ rest else rest

  unfoldable pub remove : K → HashMap K V → HashMap K V
  unfolding retain
  remove k m = retain (λ j. not (j == k)) m

  abbrev pub NodupKeys : HashMap K V → Type κ
  NodupKeys [] = Unit
  NodupKeys ((k, v) ∷ m) = (lookup k m ≡ none) × NodupKeys m

  pub lookup-insert :
      (new at : K) (v : V) (m : HashMap K V)
      → lookup at (insert new v m) ≡ (if new == at then some v else lookup at m)
  unfolding lookup insert
  lookup-insert new at v [] = refl
  lookup-insert new at v ((key, old) ∷ rest) =
      ground (
        arith,
        e.same_iff key at,
        e.same_iff key new,
        e.same_iff new at,
        lookup-insert new at v rest,
      )

  pub lookup-retain :
      (p : K → Bool) (j : K) (m : HashMap K V)
      → lookup j (retain p m) ≡ (if p j then lookup j m else none)
  unfolding lookup retain
  lookup-retain p j [] = ground arith
  lookup-retain p j ((i, w) ∷ m) = ground (arith, e.same_iff i j, lookup-retain p j m)

  pub lookup-remove :
      (k j : K) (m : HashMap K V) → lookup j (remove k m) ≡ (if k == j then none else lookup j m)
  unfolding remove
  lookup-remove k j m =
      ground (arith, lookup-retain (λ i. not (i == k)) j m, e.same_iff k j, e.same_iff j k)

  pub insert-NodupKeys : (k : K) (v : V) (m : HashMap K V) → NodupKeys m → NodupKeys (insert k v m)
  unfolding lookup insert
  insert-NodupKeys k v [] h = (refl, tt)
  insert-NodupKeys k v ((i, w) ∷ m) h =
      ground (arith, insert-NodupKeys k v m, lookup-insert k i v m, e.same_iff k i, e.same_iff i k)

  pub retain-NodupKeys : (p : K → Bool) (m : HashMap K V) → NodupKeys m → NodupKeys (retain p m)
  unfolding lookup retain
  retain-NodupKeys p [] h = tt
  retain-NodupKeys p ((i, w) ∷ m) h = ground (arith, retain-NodupKeys p m, lookup-retain p i m)

  -- A write to a key that is there keeps the size; a new key adds one.
  pub length-insert :
      (k : K) (v : V) (m : HashMap K V)
      → length (insert k v m) ≡ elim (lookup k m) [ none ↦ suc (length m) | some _ ↦ length m ]
  unfolding lookup insert
  length-insert k v [] = refl
  length-insert k v ((i, w) ∷ m) = ground (arith, length-insert k v m)

-- What iteration over a map is documented to do: visit each entry once, in some order.
pub record Iteration {ℓ κ} (K : Type ℓ) (V : Type κ) ⦃e : HasEq K⦄ : Type (ℓ ⊔ κ) where
  pub entries : HashMap K V → List (K × V)
  pub entries_lookup : (m : HashMap K V) (k : K) → lookup k (entries m) ≡ lookup k m
  pub entries_NodupKeys : (m : HashMap K V) → NodupKeys m → NodupKeys (entries m)
  pub entries_length : (m : HashMap K V) → length (entries m) ≡ length m

abbrev pub insertion_order {ℓ κ} : {K : Type ℓ} {V : Type κ} ⦃e : HasEq K⦄ → Iteration K V
insertion_order = record {
  entries = λ m. m;
  entries_lookup = λ m k. refl;
  entries_NodupKeys = λ m h. h;
  entries_length = λ m. refl;
}

pub ruleset hash_map_laws = (lookup-insert, lookup-retain, lookup-remove)
