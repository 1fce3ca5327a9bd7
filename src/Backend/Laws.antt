-- ===== src/Backend/Laws.antt =====
-- What the documentation of `trait KvBackend` asks of the entries of an implementation, as laws over
-- a view of its state. A failed write may have been done in part, but touches no other entry. When a
-- write becomes durable and in which order keys are listed is no part of the laws.
use xous_app_signal.Prelude.{
  ◌≡◌, Bool, true, false, ◌&&◌, ◌||◌, Option, none, some, ap, List, [], ◌∷◌, arith, Text, text_beq,
  if◌then◌else◌, Result, ok, err, refl, Result-cases, inl, inr,
}
use xous_app_signal.Collections.BTreeSet.{contains}
use xous_app_signal.Backend.{Error, Bytes, Entry, KvBackend, default_put_batch}

-- A dictionary and a key, compared with another.
abbrev pub same_key : Text → Text → Text → Text → Bool
same_key d k d' k' = text_beq d d' && text_beq k k'

abbrev pub is_some {ℓ} : {A : Type ℓ} → Option A → Bool
is_some none = false
is_some (some _) = true

abbrev pub is_ok {ℓ κ} : {A : Type ℓ} {E : Type κ} → Result A E → Bool
is_ok (ok _) = true
is_ok (err _) = false

-- Whether a batch names an entry, and what it leaves there: the last value wins.
unfoldable pub in_batch : List Entry → Text → Text → Bool
in_batch [] d k = false
in_batch ((d', k', v) ∷ es) d k = same_key d' k' d k || in_batch es d k

unfoldable pub after_batch : List Entry → (Text → Text → Option Bytes) → Text → Text → Option Bytes
after_batch [] view d k = view d k
after_batch ((d', k', v) ∷ es) view d k =
    after_batch es (λ a b. if same_key d' k' a b then some v else view a b) d k

pub record Laws {S : Type 0} (b : KvBackend S) (view : S → Text → Text → Option Bytes)
    (IsValid : S → Type 0) : Type 0 where
  pub get_ok : (s : S) (d k : Text) (r : Option Bytes) → b.get s d k ≡ ok r → r ≡ view s d k
  pub put_ok :
      (s : S) (d k : Text) (v : Bytes) (d' k' : Text)
      → (b.put s d k v).1 ≡ ok tt
      → view (b.put s d k v).0 d' k' ≡ (if same_key d k d' k' then some v else view s d' k')
  pub put_frame :
      (s : S) (d k : Text) (v : Bytes) (d' k' : Text)
      → same_key d k d' k' ≡ false
      → view (b.put s d k v).0 d' k' ≡ view s d' k'
  pub put_IsValid : (s : S) (d k : Text) (v : Bytes) → IsValid s → IsValid (b.put s d k v).0
  pub batch_ok :
      (s : S) (es : List Entry) (d k : Text)
      → (b.put_batch s es).1 ≡ ok tt
      → view (b.put_batch s es).0 d k ≡ after_batch es (view s) d k
  pub batch_frame :
      (s : S) (es : List Entry) (d k : Text)
      → in_batch es d k ≡ false
      → view (b.put_batch s es).0 d k ≡ view s d k
  pub batch_IsValid : (s : S) (es : List Entry) → IsValid s → IsValid (b.put_batch s es).0
  pub delete_ok :
      (s : S) (d k d' k' : Text)
      → (b.delete s d k).1 ≡ ok tt
      → view (b.delete s d k).0 d' k' ≡ (if same_key d k d' k' then none else view s d' k')
  pub delete_frame :
      (s : S) (d k d' k' : Text)
      → same_key d k d' k' ≡ false
      → view (b.delete s d k).0 d' k' ≡ view s d' k'
  pub delete_IsValid : (s : S) (d k : Text) → IsValid s → IsValid (b.delete s d k).0
  pub delete_dict_ok :
      (s : S) (d d' k' : Text)
      → (b.delete_dict s d).1 ≡ ok tt
      → view (b.delete_dict s d).0 d' k' ≡ (if text_beq d d' then none else view s d' k')
  pub delete_dict_frame :
      (s : S) (d d' k' : Text)
      → text_beq d d' ≡ false
      → view (b.delete_dict s d).0 d' k' ≡ view s d' k'
  pub delete_dict_IsValid : (s : S) (d : Text) → IsValid s → IsValid (b.delete_dict s d).0
  pub list_keys_ok :
      (s : S) (d k : Text) (ks : List Text)
      → IsValid s
      → b.list_keys s d ≡ ok ks
      → contains k ks ≡ is_some (view s d k)

-- A backend that answers: no operation fails on a valid state.
pub record Works {S : Type 0} (b : KvBackend S) (IsValid : S → Type 0) : Type 0 where
  pub get_works : (s : S) (d k : Text) → IsValid s → is_ok (b.get s d k) ≡ true
  pub put_works : (s : S) (d k : Text) (v : Bytes) → IsValid s → (b.put s d k v).1 ≡ ok tt
  pub batch_works : (s : S) (es : List Entry) → IsValid s → (b.put_batch s es).1 ≡ ok tt
  pub delete_works : (s : S) (d k : Text) → IsValid s → (b.delete s d k).1 ≡ ok tt
  pub delete_dict_works : (s : S) (d : Text) → IsValid s → (b.delete_dict s d).1 ≡ ok tt
  pub list_keys_works : (s : S) (d : Text) → IsValid s → is_ok (b.list_keys s d) ≡ true

-- `after_batch` reads the view at every entry, so it respects pointwise equality.
pub after_batch-congr :
    (es : List Entry) (f g : Text → Text → Option Bytes)
    → ((a b : Text) → f a b ≡ g a b)
    → (d k : Text) → after_batch es f d k ≡ after_batch es g d k
unfolding after_batch
after_batch-congr [] f g h d k = h d k
after_batch-congr ((d', k', v) ∷ es) f g h d k =
    after_batch-congr es _ _
      (λ a b. ap (λ (t : Option Bytes). if same_key d' k' a b then some v else t) (h a b)) d k

-- The default `put_batch` has the laws of a batch, whenever `put` has its own.
module _ {S : Type 0} (put : S → Text → Text → Bytes → S × Result (Unit {0}) Error)
    (view : S → Text → Text → Option Bytes) where
  pub default_put_batch-frame :
      ((s : S) (d k : Text) (v : Bytes) (d' k' : Text)
        → same_key d k d' k' ≡ false
        → view (put s d k v).0 d' k' ≡ view s d' k')
      → (es : List Entry) (s : S) (d k : Text) → in_batch es d k ≡ false
      → view (default_put_batch put s es).0 d k ≡ view s d k
  unfolding default_put_batch in_batch
  default_put_batch-frame frame [] s d k h = refl
  default_put_batch-frame frame ((d', k', v) ∷ es) s d k h =
      ground (arith, frame s d' k' v d k, default_put_batch-frame frame es (put s d' k' v).0 d k)

  pub default_put_batch-ok :
      ((s : S) (d k : Text) (v : Bytes) (d' k' : Text)
        → (put s d k v).1 ≡ ok tt
        → view (put s d k v).0 d' k' ≡ (if same_key d k d' k' then some v else view s d' k'))
      → (es : List Entry) (s : S) (d k : Text) → (default_put_batch put s es).1 ≡ ok tt
      → view (default_put_batch put s es).0 d k ≡ after_batch es (view s) d k
  unfolding default_put_batch after_batch
  default_put_batch-ok law [] s d k h = refl
  default_put_batch-ok law ((d', k', v) ∷ es) s d k h = ground (
    arith,
    default_put_batch-ok law es (put s d' k' v).0 d k,
    λ (done : (put s d' k' v).1 ≡ ok tt).
        after_batch-congr es _ _ (λ a b. law s d' k' v a b done) d k,
  )

-- The value under a key that the batch writes does not depend on what was there.
pub after_batch-frame :
    (es : List Entry) (f g : Text → Text → Option Bytes) (d k : Text)
    → (in_batch es d k ≡ false → f d k ≡ g d k)
    → after_batch es f d k ≡ after_batch es g d k
unfolding after_batch in_batch
after_batch-frame [] f g d k h = h refl
after_batch-frame ((d', k', v) ∷ es) f g d k h =
    after_batch-frame es _ _ d k (λ fresh. ground (arith, h))

pub default_put_batch-IsValid :
    {S : Type 0} (put : S → Text → Text → Bytes → S × Result (Unit {0}) Error) (P : S → Type 0)
    → ((s : S) (d k : Text) (v : Bytes) → P s → P (put s d k v).0)
    → (es : List Entry) (s : S) → P s
    → P (default_put_batch put s es).0
unfolding default_put_batch
default_put_batch-IsValid put P keep [] s h = h
default_put_batch-IsValid put P keep ((d, k, v) ∷ es) s h =
    let kept = keep s d k v h in
    elim (Result-cases (put s d k v).1) [
      | inl (u, e) ↦
          rw (e, default_put_batch) (default_put_batch-IsValid put P keep es (put s d k v).0 kept)
      | inr (x, e) ↦ rw (e, default_put_batch) kept
    ]

pub default_put_batch-works :
    {S : Type 0} (put : S → Text → Text → Bytes → S × Result (Unit {0}) Error) (P : S → Type 0)
    → ((s : S) (d k : Text) (v : Bytes) → P s → P (put s d k v).0)
    → ((s : S) (d k : Text) (v : Bytes) → P s → (put s d k v).1 ≡ ok tt)
    → (es : List Entry) (s : S) → P s
    → (default_put_batch put s es).1 ≡ ok tt
unfolding default_put_batch
default_put_batch-works put P keep works [] s h = refl
default_put_batch-works put P keep works ((d, k, v) ∷ es) s h =
    rw (default_put_batch, works s d k v h)
      (default_put_batch-works put P keep works es (put s d k v).0 (keep s d k v h))
