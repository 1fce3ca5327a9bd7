-- ===== src/Buffering/Replay.antt =====
-- The two loops of `commit_internal` over a lawful inner backend: what they leave in its view,
-- when they report no error and when they do.
use xous_app_signal.Prelude.{
  ◌≡◌, refl, Bool, false, ◌||◌, Option, none, some, List, [], ◌∷◌, arith, Text, text_beq_iff,
  text_eq, if◌then◌else◌, Result, Result-cases, inl, inr, ok, err, ap, ◌∙◌,
}
use xous_app_signal.Collections.HashMap.{Iteration, NodupKeys, pair_eq, lookup}
use xous_app_signal.Backend.{Error, Bytes, Entry, KvBackend}
use xous_app_signal.Backend.Laws.{
  Laws, same_key, in_batch, after_batch, after_batch-frame, after_batch-congr,
}
use xous_app_signal.Buffering.{
  BufferEntry, put, delete, split, note, put_each, delete_each, replay_puts,
}
use xous_app_signal.Buffering.Overlay.{overlay}

abbrev pub Key : Type 0
Key = Text × Text

unfoldable pub in_deletes : List Key → Text → Text → Bool
in_deletes [] d k = false
in_deletes ((d', k') ∷ ks) d k = same_key d' k' d k || in_deletes ks d k

abbrev pub View : Type 0
View = Text → Text → Option Bytes

-- What the two lists of `split` make of a view, one after the other.
abbrev pub after_deletes : List Key → View → View
after_deletes ks view d k = if in_deletes ks d k then none else view d k

-- Replaying the split entries is the overlay: each key has one entry, so grouping loses nothing.
pub split-overlay :
    (m : List (Key × BufferEntry)) (view : View) (d k : Text)
    → NodupKeys m
    → after_deletes (split m).1 (after_batch (split m).0 view) d k
      ≡ overlay (lookup (d, k) m) (view d k)
unfolding split in_deletes after_batch lookup
split-overlay [] view d k u = refl
split-overlay (((d', k'), put v) ∷ m) view d k u = ground (
  arith,
  split-overlay m (λ a b. if same_key d' k' a b then some v else view a b) d k u.1,
  text_beq_iff d' d,
  text_beq_iff k' k,
)
split-overlay (((d', k'), delete) ∷ m) view d k u =
    ground (arith, split-overlay m view d k u.1, text_beq_iff d' d, text_beq_iff k' k)

-- A key that the buffer does not hold is in neither list.
pub split-frame :
    (m : List (Key × BufferEntry)) (d k : Text)
    → lookup (d, k) m ≡ none
    → (in_batch (split m).0 d k ≡ false) × (in_deletes (split m).1 d k ≡ false)
unfolding split in_deletes in_batch lookup
split-frame [] d k h = (refl, refl)
split-frame (((d', k'), put v) ∷ m) d k h = ground (arith, split-frame m d k)
split-frame (((d', k'), delete) ∷ m) d k h = ground (arith, split-frame m d k)

note-none :
    (first : Option Error) (r : Result (Unit {0}) Error)
    → note first r ≡ none
    → (first ≡ none) × (r ≡ ok tt)
unfolding note
note-none (some e) r h = cc
note-none none (ok _) h = (refl, refl)
note-none none (err e) h = cc

module _ {S : Type 0} (b : KvBackend S) (order : Iteration Key BufferEntry) (view : S → View)
    (IsValid : S → Type 0) (l : Laws b view IsValid) where
  put_each-frame :
      (es : List Entry) (s : S) (first : Option Error) (d k : Text)
      → in_batch es d k ≡ false
      → view (put_each b order s first es).0 d k ≡ view s d k
  unfolding put_each in_batch
  put_each-frame [] s first d k h = refl
  put_each-frame ((d', k', v) ∷ es) s first d k h = ground (
    arith,
    put_each-frame es (b.put s d' k' v).0 (note first (b.put s d' k' v).1) d k,
    l.put_frame s d' k' v d k,
  )

  -- No error at the end means that there was none on the way.
  put_each-none :
      (es : List Entry) (s : S) (first : Option Error) (d k : Text)
      → (put_each b order s first es).1 ≡ none
      → (first ≡ none) × (view (put_each b order s first es).0 d k ≡ after_batch es (view s) d k)
  unfolding put_each after_batch
  put_each-none [] s first d k h = (h, refl)
  put_each-none ((d', k', v) ∷ es) s first d k h =
      let s' = (b.put s d' k' v).0 in
      let (clean, rest) = put_each-none es s' (note first (b.put s d' k' v).1) d k h in
      let (none_before, done) = note-none first (b.put s d' k' v).1 clean in
      (
        none_before,
        rest ∙ after_batch-congr es (view s') _ (λ x y. l.put_ok s d' k' v x y done) d k,
      )

  delete_each-frame :
      (ks : List Key) (s : S) (first : Option Error) (d k : Text)
      → in_deletes ks d k ≡ false
      → view (delete_each b order s first ks).0 d k ≡ view s d k
  unfolding delete_each in_deletes
  delete_each-frame [] s first d k h = refl
  delete_each-frame ((d', k') ∷ ks) s first d k h = ground (
    arith,
    delete_each-frame ks (b.delete s d' k').0 (note first (b.delete s d' k').1) d k,
    l.delete_frame s d' k' d k,
  )

  delete_each-none :
      (ks : List Key) (s : S) (first : Option Error) (d k : Text)
      → (delete_each b order s first ks).1 ≡ none
      → (first ≡ none)
        × (view (delete_each b order s first ks).0 d k ≡ after_deletes ks (view s) d k)
  unfolding delete_each in_deletes
  delete_each-none [] s first d k h = (h, refl)
  delete_each-none ((d', k') ∷ ks) s first d k h =
      let s' = (b.delete s d' k').0 in
      let (clean, rest) = delete_each-none ks s' (note first (b.delete s d' k').1) d k h in
      let (none_before, done) = note-none first (b.delete s d' k').1 clean in
      (none_before, ground (arith, rest, l.delete_ok s d' k' d k done))

  replay_puts-frame :
      (es : List Entry) (s : S) (d k : Text)
      → in_batch es d k ≡ false
      → view (replay_puts b order s es).0 d k ≡ view s d k
  unfolding replay_puts
  replay_puts-frame [] s d k h = refl
  replay_puts-frame (e ∷ es) s d k h = ground (
    arith,
    l.batch_frame s (e ∷ es) d k,
    put_each-frame (e ∷ es) (b.put_batch s (e ∷ es)).0 none d k,
  )

  -- Whether the batch call succeeds or the fallback does, the view is that of the whole batch.
  replay_puts-none :
      (es : List Entry) (s : S) (d k : Text)
      → (replay_puts b order s es).1 ≡ none
      → view (replay_puts b order s es).0 d k ≡ after_batch es (view s) d k
  unfolding replay_puts
  replay_puts-none [] s d k h = unfold after_batch in refl
  replay_puts-none (e ∷ es) s d k h =
      let tried = (b.put_batch s (e ∷ es)).0 in
      ground (
        arith,
        l.batch_ok s (e ∷ es) d k,
        put_each-none (e ∷ es) tried none d k,
        after_batch-frame (e ∷ es) (view tried) (view s) d k (l.batch_frame s (e ∷ es) d k),
      )

  -- The two loops, one after the other, as `commit_internal` runs them.
  abbrev pub replay : S → List (Key × BufferEntry) → S × Option Error
  replay s m =
      let (inner, put_err) = replay_puts b order s (split m).0 in
      delete_each b order inner put_err (split m).1

  pub replay-frame :
      (m : List (Key × BufferEntry)) (s : S) (d k : Text)
      → lookup (d, k) m ≡ none
      → view (replay s m).0 d k ≡ view s d k
  replay-frame m s d k h =
      let (no_put, no_delete) = split-frame m d k h in
      let (inner, put_err) = replay_puts b order s (split m).0 in
      delete_each-frame (split m).1 inner put_err d k no_delete
      ∙ replay_puts-frame (split m).0 s d k no_put

  pub replay-none :
      (m : List (Key × BufferEntry)) (s : S) (d k : Text)
      → NodupKeys m
      → (replay s m).1 ≡ none
      → view (replay s m).0 d k ≡ overlay (lookup (d, k) m) (view s d k)
  replay-none m s d k u h =
      let (inner, put_err) = replay_puts b order s (split m).0 in
      let (puts_done, deleted) = delete_each-none (split m).1 inner put_err d k h in
      deleted
      ∙ ap (λ (t : Option Bytes). if in_deletes (split m).1 d k then none else t)
          (replay_puts-none (split m).0 s d k puts_done)
      ∙ split-overlay m (view s) d k u

  -- Where each single write of the inner backend succeeds, the replay reports no error, also if
  -- `put_batch` fails.
  module _ (puts_work : (s : S) (d k : Text) (v : Bytes) → IsValid s → (b.put s d k v).1 ≡ ok tt)
      (deletes_work : (s : S) (d k : Text) → IsValid s → (b.delete s d k).1 ≡ ok tt) where
    put_each-works :
        (es : List Entry) (s : S) (first : Option Error)
        → IsValid s
        → first ≡ none
        → ((put_each b order s first es).1 ≡ none) × IsValid (put_each b order s first es).0
    unfolding put_each
    put_each-works [] s first i h = (h, i)
    put_each-works ((d, k, v) ∷ es) s first i h =
        put_each-works es (b.put s d k v).0 (note first (b.put s d k v).1) (l.put_IsValid s d k v i)
          (unfold note in rw (h, puts_work s d k v i))

    replay_puts-works :
        (es : List Entry) (s : S)
        → IsValid s
        → ((replay_puts b order s es).1 ≡ none) × IsValid (replay_puts b order s es).0
    unfolding replay_puts
    replay_puts-works [] s i = (refl, i)
    replay_puts-works (e ∷ es) s i =
        let kept = l.batch_IsValid s (e ∷ es) i in
        elim (Result-cases (b.put_batch s (e ∷ es)).1) [
          | inl (_, worked) ↦ rw (worked, replay_puts) (refl, kept)
          | inr (_, failed) ↦
              rw (failed, replay_puts)
                (put_each-works (e ∷ es) (b.put_batch s (e ∷ es)).0 none kept refl)
        ]

    delete_each-works :
        (ks : List Key) (s : S) (first : Option Error)
        → IsValid s
        → first ≡ none
        → (delete_each b order s first ks).1 ≡ none
    unfolding delete_each
    delete_each-works [] s first i h = h
    delete_each-works ((d, k) ∷ ks) s first i h =
        delete_each-works ks (b.delete s d k).0 (note first (b.delete s d k).1)
          (l.delete_IsValid s d k i) (unfold note in rw (h, deletes_work s d k i))

    pub replay-works : (m : List (Key × BufferEntry)) (s : S) → IsValid s → (replay s m).1 ≡ none
    replay-works m s i =
        let (clean, kept) = replay_puts-works (split m).0 s i in
        delete_each-works (split m).1 (replay_puts b order s (split m).0).0 _ kept clean
