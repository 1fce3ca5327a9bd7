-- ===== src/Buffering/Examples.antt =====
-- Tests of the buffering backend over the mock backend, after the tests of the source file, and
-- the theorems at concrete inputs.
use xous_app_signal.Prelude.{
  none, some, ◌≡◌, refl, true, false, List, [], ◌∷◌, arith, Text, codes, text_eq, text_beq, ok, err,
  length, if◌then◌else◌,
}
use xous_app_signal.Collections.HashMap
use xous_app_signal.Collections.HashMap.{Iteration, NodupKeys, insertion_order, pair_eq, lookup}
use xous_app_signal.Collections.BTreeSet
use xous_app_signal.Backend.{backend, Bytes, KvBackend, default_put_batch}
use xous_app_signal.Backend.Laws.{Laws, Works}
use xous_app_signal.Backend.Mock.{MockBackend, mock, mock_laws, mock_refines, IsSound, view}
use xous_app_signal.Buffering.{
  BufferEntry, BufferingBackend, BatchGuard, buffering, begin_batch, put_bytes, delete_key, get,
  list_keys, commit, drop,
}
use xous_app_signal.Buffering.Overlay.{visible, IsCoherent}
use xous_app_signal.Buffering.Working.{IsReady, buffering_refines}
use xous_app_signal.Buffering.Commit.{commit-durable, commit-recovers, begin_batch-commit}
use xous_app_signal.Buffering.Scope.{
  Write, put, delete, apply, read_after, batch_reads, apply_all, run, write, drop_restores,
  batch_refines,
}

abbrev inner : KvBackend MockBackend
inner = mock insertion_order

abbrev seeded : MockBackend
seeded = record {
  poisoned = false;
  entries = ((codes "d", codes "a"), codes "1") ∷ ((codes "d", codes "b"), codes "2") ∷ [];
}

abbrev start : BufferingBackend MockBackend
start = record { inner = seeded; batching = false; buffer = []; poisoned = false }

abbrev writes : List Write
writes = delete (codes "d") (codes "a") ∷ put (codes "d") (codes "c") (codes "3") ∷ []

abbrev in_scope : BufferingBackend MockBackend
in_scope = record {
  inner = seeded;
  batching = true;
  buffer =
      ((codes "d", codes "a"), BufferEntry.delete)
      ∷ ((codes "d", codes "c"), BufferEntry.put (codes "3"))
      ∷ [];
  poisoned = false;
}

abbrev guard : BatchGuard
guard = record { committed = false }

-- `list_keys_overlay_during_batch`
list_keys_overlay :
    list_keys inner insertion_order in_scope (codes "d") ≡ ok (codes "b" ∷ codes "c" ∷ [])
unfolding list_keys mock BTreeSet.insert BTreeSet.remove BTreeSet.collect BTreeSet.text_cmp text_beq
list_keys_overlay = refl

commits : (commit inner insertion_order guard in_scope).1 ≡ ok 2
unfolding commit mock HashMap.insert HashMap.remove text_beq default_put_batch
commits = refl

scope_commits :
    (commit inner insertion_order guard (run inner insertion_order (begin_batch start).0 writes)).1
    ≡ ok 2
unfolding commit mock run write begin_batch put_bytes delete_key HashMap.insert HashMap.remove
    text_beq default_put_batch
scope_commits = refl

opens : (begin_batch start).1 ≡ ok guard
unfolding begin_batch
opens = refl

start-IsCoherent : IsCoherent inner insertion_order view IsSound start
start-IsCoherent = record { inner_IsValid = refl; nodup = tt }

in_scope-IsCoherent : IsCoherent inner insertion_order view IsSound in_scope
unfolding lookup text_beq
in_scope-IsCoherent = record { inner_IsValid = refl; nodup = (refl, (refl, tt)) }

-- A backend whose batched put always fails, as one over the wire limit does.
abbrev no_batch : KvBackend MockBackend
no_batch = record inner { put_batch = λ s es. (s, err (backend "batch exceeds the limit")) }

no_batch_laws : Laws no_batch view IsSound
no_batch_laws =
    let m = mock_laws insertion_order in
    record {
      get_ok = m.get_ok;
      put_ok = m.put_ok;
      put_frame = m.put_frame;
      put_IsValid = m.put_IsValid;
      delete_ok = m.delete_ok;
      delete_frame = m.delete_frame;
      delete_IsValid = m.delete_IsValid;
      delete_dict_ok = m.delete_dict_ok;
      delete_dict_frame = m.delete_dict_frame;
      delete_dict_IsValid = m.delete_dict_IsValid;
      list_keys_ok = m.list_keys_ok;
      batch_ok = λ s es d k h. ground arith;
      batch_frame = λ s es d k h. refl;
      batch_IsValid = λ s es h. h;
    }

put_works :
    (t : MockBackend) (d k : Text) (v : Bytes) → IsSound t → (no_batch.put t d k v).1 ≡ ok tt
unfolding mock
put_works t d k v h = ground arith

delete_works : (t : MockBackend) (d k : Text) → IsSound t → (no_batch.delete t d k).1 ≡ ok tt
unfolding mock
delete_works t d k h = ground arith

commit-recovers_example :
    (commit no_batch insertion_order guard in_scope).1 ≡ ok (length in_scope.buffer)
commit-recovers_example =
    commit-recovers no_batch insertion_order view IsSound no_batch_laws guard in_scope put_works
      delete_works refl refl

mock_refines_example : Laws inner view IsSound × Works inner IsSound
mock_refines_example = mock_refines insertion_order

buffering_refines_example :
    Laws
      (buffering inner insertion_order)
      (visible inner insertion_order view IsSound)
      (IsCoherent inner insertion_order view IsSound)
    × Works (buffering inner insertion_order) (IsReady inner insertion_order view IsSound)
buffering_refines_example =
    buffering_refines inner insertion_order view IsSound (mock_laws insertion_order)
      (mock_refines insertion_order).1

commit-durable_example :
    (view (commit inner insertion_order guard in_scope).0.inner (codes "d") (codes "c")
      ≡ visible inner insertion_order view IsSound in_scope (codes "d") (codes "c"))
    × (2 ≡ length in_scope.buffer)
    × ((commit inner insertion_order guard in_scope).0.buffer ≡ [])
    × ((commit inner insertion_order guard in_scope).0.batching ≡ false)
commit-durable_example =
    commit-durable inner insertion_order view IsSound (mock_laws insertion_order) guard in_scope 2
      (codes "d") (codes "c") in_scope-IsCoherent refl commits

begin_batch-commit_example : (begin_batch (commit inner insertion_order guard in_scope).0).1 ≡ (
    if in_scope.poisoned
    then err (backend "batch already in flight on this backend")
    else ok (record { committed = false }))
begin_batch-commit_example =
    begin_batch-commit inner insertion_order view IsSound (mock_laws insertion_order) guard in_scope
      refl

drop_restores_example : drop guard (run inner insertion_order (begin_batch start).0 writes) ≡ start
drop_restores_example = drop_restores inner insertion_order start guard writes refl refl opens

batch_reads_example :
    get inner insertion_order
      (run inner insertion_order (begin_batch start).0 writes)
      (codes "d")
      (codes "a")
    ≡ ok none
unfolding read_after text_beq
batch_reads_example =
    batch_reads inner insertion_order start guard writes (codes "d") (codes "a") refl refl opens

batch_refines_example :
    (get inner insertion_order
        (run inner insertion_order (begin_batch start).0 writes)
        (codes "d")
        (codes "c")
      ≡ ok (some (codes "3")))
    × (view
          (commit inner insertion_order guard
            (run inner insertion_order (begin_batch start).0 writes)).0.inner
          (codes "d")
          (codes "c")
        ≡ some (codes "3"))
unfolding read_after apply_all apply text_beq
batch_refines_example =
    batch_refines inner insertion_order view IsSound (mock_laws insertion_order) start guard writes
      2 (codes "d") (codes "c") start-IsCoherent refl refl opens scope_commits
