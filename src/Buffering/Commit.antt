-- ===== src/Buffering/Commit.antt =====
-- `BatchGuard::commit` against its specification: the buffer lands in the inner backend whole,
-- and nothing else moves. Proved over any lawful inner backend and any order of the map.
use xous_app_signal.Prelude.{
  ℕ, ◌≡◌, true, false, none, [], arith, Text, text_eq, ok, err, length, if◌then◌else◌,
}
use xous_app_signal.Collections.HashMap.{Iteration, pair_eq, lookup}
use xous_app_signal.Backend.{backend, Bytes, KvBackend}
use xous_app_signal.Backend.Laws.{Laws}
use xous_app_signal.Buffering.{BufferEntry, BufferingBackend, BatchGuard, begin_batch, commit}
use xous_app_signal.Buffering.Overlay.{visible, IsCoherent}
use xous_app_signal.Buffering.Replay.{Key, View, replay-frame, replay-none, replay-works}

module _ {S : Type 0} (b : KvBackend S) (order : Iteration Key BufferEntry) (view : S → View)
    (IsValid : S → Type 0) (l : Laws b view IsValid) where
  -- A successful commit makes durable exactly what a reader of the open batch saw: under every
  -- key the inner backend then holds what the batch showed, the result counts the buffered
  -- entries, and the buffer is empty and the batch closed.
  pub commit-durable :
      (g : BatchGuard) (s : BufferingBackend S) (n : ℕ) (d k : Text)
      → IsCoherent b order view IsValid s
      → s.batching ≡ true
      → (commit b order g s).1 ≡ ok n
      → (view (commit b order g s).0.inner d k ≡ visible b order view IsValid s d k)
        × (n ≡ length s.buffer)
        × ((commit b order g s).0.buffer ≡ [])
        × ((commit b order g s).0.batching ≡ false)
  unfolding commit
  commit-durable g s n d k c open_batch h =
      let m = order.entries s.buffer in
      ground (
        arith,
        replay-none b order view IsValid l m s.inner d k (order.entries_NodupKeys s.buffer c.nodup),
        order.entries_lookup s.buffer (d, k),
        order.entries_length s.buffer,
      )

  -- Whether commit succeeds or fails, a key with no buffered entry keeps its value in the inner
  -- backend.
  pub commit-frame :
      (g : BatchGuard) (s : BufferingBackend S) (d k : Text)
      → lookup (d, k) s.buffer ≡ none
      → view (commit b order g s).0.inner d k ≡ view s.inner d k
  unfolding commit
  commit-frame g s d k h = ground (
    arith,
    replay-frame b order view IsValid l (order.entries s.buffer) s.inner d k,
    order.entries_lookup s.buffer (d, k),
  )

  -- Where every single put and delete on a valid state of the inner backend succeeds, commit succeeds, with the
  -- number of buffered entries, even if the batched put fails.
  pub commit-recovers :
      (g : BatchGuard) (s : BufferingBackend S)
      → ((t : S) (d k : Text) (v : Bytes) → IsValid t → (b.put t d k v).1 ≡ ok tt)
      → ((t : S) (d k : Text) → IsValid t → (b.delete t d k).1 ≡ ok tt)
      → IsValid s.inner
      → s.poisoned ≡ false
      → (commit b order g s).1 ≡ ok (length s.buffer)
  unfolding commit
  commit-recovers g s puts_work deletes_work valid sound = ground (
    arith,
    replay-works b order view IsValid l puts_work deletes_work (order.entries s.buffer) s.inner
        valid,
    order.entries_length s.buffer,
  )

  -- After a commit a new batch can be opened, whatever failed on the way, exactly where the
  -- buffer's mutex is not poisoned; with a poisoned one an open batch stays open for good.
  pub begin_batch-commit :
      (g : BatchGuard) (s : BufferingBackend S)
      → s.batching ≡ true
      → (begin_batch (commit b order g s).0).1 ≡ (
          if s.poisoned
          then err (backend "batch already in flight on this backend")
          else ok (record { committed = false }))
  unfolding commit begin_batch
  begin_batch-commit g s open_batch = ground arith
