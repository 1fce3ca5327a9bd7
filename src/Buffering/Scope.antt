-- ===== src/Buffering/Scope.antt =====
-- A whole batch scope: open it, make any writes, then commit the guard or drop it.
use xous_app_signal.Prelude.{
  ℕ, ◌≡◌, refl, ◌∙◌, true, false, none, some, List, [], ◌∷◌, arith, Text, text_eq, Option, Result,
  ap, ok, if◌then◌else◌,
}
use xous_app_signal.Collections.HashMap.{Iteration, pair_eq, lookup, lookup-insert}
use xous_app_signal.Backend.{Error, Bytes, KvBackend}
use xous_app_signal.Backend.Laws.{Laws, same_key}
use xous_app_signal.Buffering.{
  BufferEntry, BufferingBackend, BatchGuard, is_batching, get, begin_batch, put_bytes, delete_key,
  commit, drop, buffering,
}
use xous_app_signal.Buffering.Overlay.{visible, IsCoherent, buffering_laws}
use xous_app_signal.Buffering.Replay.{Key, View}
use xous_app_signal.Buffering.Commit.{commit-durable}

-- The writes that a client makes inside the scope.
pub data Write : Type 0 where
  put : Text → Text → Bytes → Write
  delete : Text → Text → Write

-- The same writes on a plain function.
unfoldable pub apply : Write → View → View
apply (put d k v) f d' k' = if same_key d k d' k' then some v else f d' k'
apply (delete d k) f d' k' = if same_key d k d' k' then none else f d' k'

unfoldable pub apply_all : List Write → View → View
apply_all [] f = f
apply_all (w ∷ ws) f = apply_all ws (apply w f)

apply_all-congr :
    (ws : List Write) (f g : View)
    → ((d k : Text) → f d k ≡ g d k)
    → (d k : Text) → apply_all ws f d k ≡ apply_all ws g d k
unfolding apply_all apply
apply_all-congr [] f g h d k = h d k
apply_all-congr (put d' k' v ∷ ws) f g h d k =
    apply_all-congr ws _ _ (λ x y. ground (arith, h x y)) d k
apply_all-congr (delete d' k' ∷ ws) f g h d k =
    apply_all-congr ws _ _ (λ x y. ground (arith, h x y)) d k

-- What a read answers behind the writes, by what it would answer without them.
unfoldable pub read_after :
    List Write → Text → Text → Result (Option Bytes) Error → Result (Option Bytes) Error
read_after [] d' k' answer = answer
read_after (put d k v ∷ ws) d' k' answer =
    read_after ws d' k' (if same_key d k d' k' then ok (some v) else answer)
read_after (delete d k ∷ ws) d' k' answer =
    read_after ws d' k' (if same_key d k d' k' then ok none else answer)

module _ {S : Type 0} (b : KvBackend S) (order : Iteration Key BufferEntry) where
  unfoldable pub write : BufferingBackend S → Write → BufferingBackend S
  write s (put d k v) = (put_bytes b order s d k v).0
  write s (delete d k) = (delete_key b order s d k).0

  unfoldable pub run : BufferingBackend S → List Write → BufferingBackend S
  run s [] = s
  run s (w ∷ ws) = run (write s w) ws

  -- Inside a batch the writes change the buffer and nothing else.
  abbrev Deferred : BufferingBackend S → BufferingBackend S → Type 0
  Deferred s t = (t.inner ≡ s.inner) × (t.batching ≡ s.batching) × (t.poisoned ≡ s.poisoned)

  write-Deferred : (w : Write) (s : BufferingBackend S) → s.batching ≡ true → Deferred s (write s w)
  unfolding write put_bytes delete_key
  write-Deferred (put d k v) s h = ground arith
  write-Deferred (delete d k) s h = ground arith

  run-Deferred :
      (ws : List Write) (s : BufferingBackend S) → s.batching ≡ true → Deferred s (run s ws)
  unfolding run
  run-Deferred [] s h = (refl, refl, refl)
  run-Deferred (w ∷ ws) s h =
      let (same_inner, same_batching, same_poisoned) = write-Deferred w s h in
      let (i, f, p) = run-Deferred ws (write s w) (same_batching ∙ h) in
      (i ∙ same_inner, f ∙ same_batching, p ∙ same_poisoned)

  begin_batch-ok :
      (s : BufferingBackend S) (g : BatchGuard)
      → (begin_batch s).1 ≡ ok g
      → ((begin_batch s).0 ≡ record s { batching = true }) × (s.batching ≡ false)
  unfolding begin_batch
  begin_batch-ok s g h = ground arith

  get-put :
      (s : BufferingBackend S) (d' k' d k : Text) (v : Bytes)
      → s.batching ≡ true
      → s.poisoned ≡ false
      → get b order (write s (put d' k' v)) d k
        ≡ (if same_key d' k' d k then ok (some v) else get b order s d k)
  unfolding write put_bytes get is_batching
  get-put s d' k' d k v h p =
      ground (arith, h, p, lookup-insert (d', k') (d, k) (BufferEntry.put v) s.buffer)

  get-delete :
      (s : BufferingBackend S) (d' k' d k : Text)
      → s.batching ≡ true
      → s.poisoned ≡ false
      → get b order (write s (delete d' k')) d k
        ≡ (if same_key d' k' d k then ok none else get b order s d k)
  unfolding write delete_key get is_batching
  get-delete s d' k' d k h p =
      ground (arith, h, p, lookup-insert (d', k') (d, k) BufferEntry.delete s.buffer)

  get-run :
      (ws : List Write) (s : BufferingBackend S) (d k : Text)
      → s.batching ≡ true
      → s.poisoned ≡ false
      → get b order (run s ws) d k ≡ read_after ws d k (get b order s d k)
  unfolding run read_after
  get-run [] s d k h p = refl
  get-run (put d' k' v ∷ ws) s d k h p =
      let (_, still_open, still_sound) = write-Deferred (put d' k' v) s h in
      get-run ws (write s (put d' k' v)) d k (still_open ∙ h) (still_sound ∙ p)
      ∙ ap (read_after ws d k) (get-put s d' k' d k v h p)
  get-run (delete d' k' ∷ ws) s d k h p =
      let (_, still_open, still_sound) = write-Deferred (delete d' k') s h in
      get-run ws (write s (delete d' k')) d k (still_open ∙ h) (still_sound ∙ p)
      ∙ ap (read_after ws d k) (get-delete s d' k' d k h p)

  get-empty :
      (s : BufferingBackend S) (d k : Text) → s.buffer ≡ [] → get b order s d k ≡ b.get s.inner d k
  unfolding get lookup
  get-empty s d k empty = ground (arith, empty)

  -- In a batch, open on a sound lock and an empty buffer, a read of any key after any puts and
  -- deletes answers what the last of them to that key left, at once and without the inner backend,
  -- and where none wrote it exactly what the inner backend answers.
  pub batch_reads :
      (s : BufferingBackend S) (g : BatchGuard) (ws : List Write) (d k : Text)
      → s.poisoned ≡ false
      → s.buffer ≡ []
      → (begin_batch s).1 ≡ ok g
      → get b order (run (begin_batch s).0 ws) d k ≡ read_after ws d k (b.get s.inner d k)
  batch_reads s g ws d k sound empty opened =
      let t : BufferingBackend S = record s { batching = true } in
      let (state, _) = begin_batch-ok s g opened in
      rw state (get-run ws t d k refl sound ∙ ap (read_after ws d k) (get-empty t d k empty))

  -- Dropping the guard of an open batch without a commit undoes the scope: after any puts and
  -- deletes the whole state is as it was before `begin_batch`.
  pub drop_restores :
      (s : BufferingBackend S) (g : BatchGuard) (ws : List Write)
      → s.poisoned ≡ false
      → s.buffer ≡ []
      → (begin_batch s).1 ≡ ok g
      → drop g (run (begin_batch s).0 ws) ≡ s
  unfolding begin_batch drop
  drop_restores s g ws sound empty opened =
      ground (arith, run-Deferred ws (record s { batching = true }))

  module _ (view : S → View) (IsValid : S → Type 0) (l : Laws b view IsValid) where
    abbrev seen : BufferingBackend S → View
    seen = visible b order view IsValid

    write-visible :
        (w : Write) (s : BufferingBackend S) (d k : Text)
        → s.batching ≡ true
        → s.poisoned ≡ false
        → seen (write s w) d k ≡ apply w (seen s) d k
    unfolding write apply put_bytes delete_key
    write-visible (put d' k' v) s d k h p =
        ground (arith, lookup-insert (d', k') (d, k) (BufferEntry.put v) s.buffer)
    write-visible (delete d' k') s d k h p =
        ground (arith, lookup-insert (d', k') (d, k) BufferEntry.delete s.buffer)

    -- Every write of a client is read back at once, in a batch as outside one.
    run-visible :
        (ws : List Write) (s : BufferingBackend S) (d k : Text)
        → s.batching ≡ true
        → s.poisoned ≡ false
        → seen (run s ws) d k ≡ apply_all ws (seen s) d k
    unfolding run apply_all
    run-visible [] s d k h p = refl
    run-visible (w ∷ ws) s d k h p =
        let (_, still_open, still_sound) = write-Deferred w s h in
        run-visible ws (write s w) d k (still_open ∙ h) (still_sound ∙ p)
        ∙ apply_all-congr ws _ _ (λ x y. write-visible w s x y h p) d k

    seen-empty :
        (s : BufferingBackend S)
        → s.poisoned ≡ false
        → s.buffer ≡ []
        → (d k : Text) → seen s d k ≡ view s.inner d k
    unfolding lookup
    seen-empty s sound empty d k = ground arith

    run-IsCoherent :
        (ws : List Write) (s : BufferingBackend S)
        → IsCoherent b order view IsValid s
        → IsCoherent b order view IsValid (run s ws)
    unfolding run write buffering
    run-IsCoherent [] s c = c
    run-IsCoherent (put d k v ∷ ws) s c =
        run-IsCoherent ws (write s (put d k v))
          ((buffering_laws b order view IsValid l).put_IsValid s d k v c)
    run-IsCoherent (delete d k ∷ ws) s c =
        run-IsCoherent ws (write s (delete d k))
          ((buffering_laws b order view IsValid l).delete_IsValid s d k c)

    scope :
        (s : BufferingBackend S) (g : BatchGuard) (ws : List Write) (n : ℕ) (d k : Text)
        → IsCoherent b order view IsValid s
        → s.poisoned ≡ false
        → s.buffer ≡ []
        → (commit b order g (run (record s { batching = true }) ws)).1 ≡ ok n
        → view (commit b order g (run (record s { batching = true }) ws)).0.inner d k
          ≡ apply_all ws (view s.inner) d k
    scope s g ws n d k c sound empty done =
        let t : BufferingBackend S = record s { batching = true } in
        let (_, still_open, _) = run-Deferred ws t refl in
        let c' : IsCoherent b order view IsValid t = record {
          inner_IsValid = c.inner_IsValid;
          nodup = c.nodup;
        } in
        let shown =
          run-visible ws t d k refl sound
          ∙ apply_all-congr ws (seen t) (view s.inner) (seen-empty t sound empty) d k in
        let durable =
          commit-durable b order view IsValid l g (run t ws) n d k (run-IsCoherent ws t c')
            still_open done in
        durable.0 ∙ shown

    -- A batch over a lawful inner backend is the sequence of its writes: open it on a sound lock
    -- and an empty buffer, put and delete, and end it with a commit that says `ok`. Then a read at
    -- its end, before the commit, answers what the last write to the key left or, where there was
    -- none, what the inner backend answers, and after the commit the inner backend holds under
    -- every key what the writes, one after the other, make of what it held.
    pub batch_refines :
        (s : BufferingBackend S) (g : BatchGuard) (ws : List Write) (n : ℕ) (d k : Text)
        → IsCoherent b order view IsValid s
        → s.poisoned ≡ false
        → s.buffer ≡ []
        → (begin_batch s).1 ≡ ok g
        → (commit b order g (run (begin_batch s).0 ws)).1 ≡ ok n
        → (get b order (run (begin_batch s).0 ws) d k ≡ read_after ws d k (b.get s.inner d k))
          × (view (commit b order g (run (begin_batch s).0 ws)).0.inner d k
              ≡ apply_all ws (view s.inner) d k)
    batch_refines s g ws n d k c sound empty opened done =
        let (state, _) = begin_batch-ok s g opened in
        (
          batch_reads s g ws d k sound empty opened,
          rw state (scope s g ws n d k c sound empty (rw state at done)),
        )
