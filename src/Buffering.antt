-- ===== src/Buffering.antt =====
-- `BufferingBackend` and `BatchGuard` of
-- crates/presage-store-pddb/src/buffering_backend.rs: a backend that defers writes while a batch
-- is open. The inner backend is the section's parameter, the order in which a `HashMap` is walked
-- is another. The flag that an atomic holds and the mutex's poison are fields of the state;
-- tracing events and clocks are left out.
pub mod Overlay
pub mod Working
pub mod Replay
pub mod Commit
pub mod Scope
mod Examples
use xous_app_signal.Prelude.{
  ℕ, Bool, true, false, not, ◌&&◌, Option, none, some, List, [], ◌∷◌, Text, text_beq, text_eq,
  if◌then◌else◌, length, Result, ok, err, ◌>>=◌,
}
use xous_app_signal.Collections.HashMap
use xous_app_signal.Collections.HashMap.{HashMap, Iteration, pair_eq}
use xous_app_signal.Collections.BTreeSet
use xous_app_signal.Collections.BTreeSet.{BTreeSet}
use xous_app_signal.Backend.{Error, backend, Bytes, Entry, KvBackend, default_put_batch}

pub data BufferEntry : Type 0 where
  put : Bytes → BufferEntry
  delete : BufferEntry

abbrev pub Buffer : Type 0
Buffer = HashMap (Text × Text) BufferEntry

pub record BufferingBackend (S : Type 0) : Type 0 where
  pub inner : S
  pub batching : Bool
  pub buffer : Buffer
  pub poisoned : Bool

-- The guard borrows the backend; what it holds of its own is the flag.
pub record BatchGuard : Type 0 where
  pub committed : Bool

module _ {S : Type 0} where
  unfoldable pub new : S → BufferingBackend S
  new inner = record { inner = inner; batching = false; buffer = []; poisoned = false }

  unfoldable pub is_batching : BufferingBackend S → Bool
  is_batching s = s.batching

  unfoldable pub buffered_len : BufferingBackend S → ℕ
  buffered_len s = if s.poisoned then 0 else length s.buffer

  -- `compare_exchange(false, true)`
  unfoldable pub begin_batch : BufferingBackend S → BufferingBackend S × Result BatchGuard Error
  begin_batch s =
      if s.batching
      then (s, err (backend "batch already in flight on this backend"))
      else (record s { batching = true }, ok (record { committed = false }))

  unfoldable pub abort_internal : BufferingBackend S → BufferingBackend S
  abort_internal s = record s { buffer = (if s.poisoned then s.buffer else []); batching = false }

  -- `Drop for BatchGuard`
  unfoldable pub drop : BatchGuard → BufferingBackend S → BufferingBackend S
  unfolding abort_internal
  drop guard s = if guard.committed then s else abort_internal s

module _ {S : Type 0} where
  -- A write inside a batch goes to the buffer.
  abbrev pub defer :
      BufferingBackend S → Text → Text → BufferEntry → BufferingBackend S × Result (Unit {0}) Error
  defer s dict key entry =
      if s.poisoned
      then (s, err (backend "buffer mutex poisoned"))
      else (record s { buffer = HashMap.insert (dict, key) entry s.buffer }, ok tt)

-- The loop that moves the drained entries into `puts` and `deletes`.
unfoldable pub split : List ((Text × Text) × BufferEntry) → List Entry × List (Text × Text)
split [] = ([], [])
split (((dict, key), put bytes) ∷ entries) =
    let (puts, deletes) = split entries in ((dict, key, bytes) ∷ puts, deletes)
split (((dict, key), delete) ∷ entries) =
    let (puts, deletes) = split entries in (puts, (dict, key) ∷ deletes)

-- `if first_err.is_none() { first_err = Some(e) }` after an operation that may fail.
unfoldable pub note : Option Error → Result (Unit {0}) Error → Option Error
note (some e) r = some e
note none (ok _) = none
note none (err e) = some e

-- The last `match first_err`.
abbrev pub finish : Option Error → ℕ → Result ℕ Error
finish none total = ok total
finish (some e) total = err e

-- The overlay of the buffer on the keys of one dictionary.
unfoldable pub overlay_keys : Text → List ((Text × Text) × BufferEntry) → BTreeSet → BTreeSet
overlay_keys dict [] keys = keys
overlay_keys dict (((d, k), put bytes) ∷ buf) keys =
    overlay_keys dict buf (if text_beq d dict then BTreeSet.insert k keys else keys)
overlay_keys dict (((d, k), delete) ∷ buf) keys =
    overlay_keys dict buf (if text_beq d dict then BTreeSet.remove k keys else keys)

module _ {S : Type 0} (b : KvBackend S) (order : Iteration (Text × Text) BufferEntry) where
  -- The fallback: every drained put by itself, whether or not an earlier one failed.
  unfoldable pub put_each : S → Option Error → List Entry → S × Option Error
  put_each s first_err [] = (s, first_err)
  put_each s first_err ((dict, key, value) ∷ puts) =
      let (s', r) = b.put s dict key value in put_each s' (note first_err r) puts

  unfoldable pub delete_each : S → Option Error → List (Text × Text) → S × Option Error
  delete_each s first_err [] = (s, first_err)
  delete_each s first_err ((dict, key) ∷ deletes) =
      let (s', r) = b.delete s dict key in delete_each s' (note first_err r) deletes

  -- One `put_batch`, and the fallback where it fails; nothing where there are no puts.
  unfoldable pub replay_puts : S → List Entry → S × Option Error
  unfolding put_each
  replay_puts s [] = (s, none)
  replay_puts s (p ∷ puts) =
      let (s', r) = b.put_batch s (p ∷ puts) in
      elim r [ ok _ ↦ (s', none) | err _ ↦ put_each s' none (p ∷ puts) ]

  unfoldable pub commit_internal : BufferingBackend S → BufferingBackend S × Result ℕ Error
  unfolding split note replay_puts delete_each
  commit_internal s =
      if s.poisoned
      then (s, err (backend "buffer mutex poisoned"))
      else let entries = order.entries s.buffer in
        let (puts, deletes) = split entries in
        let (inner, put_err) = replay_puts s.inner puts in
        let (inner', first_err) = delete_each inner put_err deletes in
        (
          record s { inner = inner'; buffer = []; batching = false },
          finish first_err (length entries),
        )

  -- `BatchGuard::commit` consumes the guard, which is then dropped as committed.
  unfoldable pub commit : BatchGuard → BufferingBackend S → BufferingBackend S × Result ℕ Error
  unfolding commit_internal drop
  commit guard s =
      let (s', r) = commit_internal s in (drop (record guard { committed = true }) s', r)

  unfoldable pub get : BufferingBackend S → Text → Text → Result (Option Bytes) Error
  unfolding is_batching
  get s dict key =
      if is_batching s && not s.poisoned
      then elim (HashMap.lookup (dict, key) s.buffer) [
        | some (put bytes) ↦ ok (some bytes)
        | some delete ↦ ok none
        | none ↦ b.get s.inner dict key
      ]
      else b.get s.inner dict key

  unfoldable pub put_bytes :
      BufferingBackend S → Text → Text → Bytes → BufferingBackend S × Result (Unit {0}) Error
  unfolding is_batching
  put_bytes s dict key value =
      if is_batching s
      then defer s dict key (put value)
      else let (i, r) = b.put s.inner dict key value in (record s { inner = i }, r)

  unfoldable pub delete_key :
      BufferingBackend S → Text → Text → BufferingBackend S × Result (Unit {0}) Error
  unfolding is_batching
  delete_key s dict key =
      if is_batching s
      then defer s dict key delete
      else let (i, r) = b.delete s.inner dict key in (record s { inner = i }, r)

  unfoldable pub delete_dict :
      BufferingBackend S → Text → BufferingBackend S × Result (Unit {0}) Error
  unfolding is_batching
  delete_dict s dict =
      let (i, r) = b.delete_dict s.inner dict in
      let kept = HashMap.retain (λ k. not (text_beq k.0 dict)) s.buffer in
      (
        record s {
          inner = i;
          buffer = (if is_batching s && not s.poisoned then kept else s.buffer);
        },
        r,
      )

  unfoldable pub list_keys : BufferingBackend S → Text → Result (List Text) Error
  unfolding is_batching overlay_keys
  list_keys s dict = do
    inner_keys ← b.list_keys s.inner dict
    if not (is_batching s)
        then ok inner_keys
        else if s.poisoned
        then err (backend "buffer mutex poisoned")
        else ok (overlay_keys dict (order.entries s.buffer) (BTreeSet.collect inner_keys))

  -- `impl KvBackend for BufferingBackend`; it leaves `put_batch` to the trait's default.
  unfoldable pub buffering : KvBackend (BufferingBackend S)
  unfolding get put_bytes delete_key delete_dict list_keys
  buffering = record {
    get = get;
    put = put_bytes;
    put_batch = default_put_batch put_bytes;
    delete = delete_key;
    delete_dict = delete_dict;
    list_keys = list_keys;
  }
