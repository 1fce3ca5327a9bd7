-- ===== src/Pddb/Client.antt =====
-- `impl PddbClient` of crates/xous-pddb-ipc/src/client.rs: the requests, the packing of a batch
-- and the parsing of a listing. A slice index out of range is `none`, the panic it is in Rust.
pub mod Format
pub mod Copies
pub mod Packing
use xous_app_signal.Prelude.{
  ℕ, zero, suc, ◌+◌, ◌-◌, ◌%◌, ◌/◌, ◌^◌, Bool, true, false, Option, none, some, String, Text, List,
  [], ◌∷◌, ◌++◌, length, take, drop, leb, ltb, if◌then◌else◌, nat_beq, Result, ok, err, ◌>>=◌,
}
use xous_app_signal.Backend.{Bytes, Entry}
use xous_app_signal.Pddb
use xous_app_signal.Pddb.{
  dict_name_len, key_name_len, max_pddbklistlen, max_pddb_write_batch_len, PddbRequestCode,
  PddbRetcode, Opcode, ListToken, PddbKeyRequest, PddbDictRequest, PddbKeyList, PddbWriteBatch,
  ErrorKind, Message, Fault, Transport, zeros,
}

abbrev pub fail {ℓ} : {A : Type ℓ} → ErrorKind → String → Result A Pddb.Error
fail kind msg = err (record { kind = kind; msg = Message.text msg })

-- `data[index..index + bytes.len()].copy_from_slice(bytes)`, with the index after it.
unfoldable pub copy_at : Text × ℕ → Bytes → Option (Text × ℕ)
copy_at (data_bytes, index) bytes =
    if leb (index + length bytes) (length data_bytes)
    then some (
      take index data_bytes ++ bytes ++ drop (index + length bytes) data_bytes,
      index + length bytes,
    )
    else none

-- `(len as u16).to_le_bytes()`
abbrev pub u16_le : ℕ → Bytes
u16_le n = n % 2 ^ 16 % 256 ∷ n % 2 ^ 16 / 256 ∷ []

abbrev pub and_then {ℓ κ} : {A : Type ℓ} {B : Type κ} → Option A → (A → Option B) → Option B
and_then none f = none
and_then (some a) f = f a

-- The copies of one entry that has passed the guards.
unfoldable pub pack_entry : Text × ℕ → Entry → Option (Text × ℕ)
pack_entry at (dict, key, value) = and_then (copy_at at (length dict % 256 ∷ [])) (λ at.
    and_then (copy_at at dict) (λ at. and_then (copy_at at (length key % 256 ∷ [])) (λ at.
      and_then (copy_at at key)
        (λ at. and_then (copy_at at (u16_le (length value))) (λ at. copy_at at value)))))

-- The guards on one entry at the index `index`.
unfoldable pub check_entry : ℕ → Entry → Result (Unit {0}) Pddb.Error
check_entry index (dict, key, value) =
    if leb (length dict) 0
    then fail ErrorKind.invalid_input "empty dict name (collides with terminator)"
    else if ltb (dict_name_len - 1) (length dict)
    then fail ErrorKind.invalid_input "dict name too long"
    else if ltb (key_name_len - 1) (length key)
    then fail ErrorKind.invalid_input "key name too long"
    else if ltb 65535 (length value)
    then fail ErrorKind.invalid_input "value too large for one entry"
    else if ltb max_pddb_write_batch_len
        (index + (1 + length dict + 1 + length key + 2 + length value) + 1)
    then fail ErrorKind.invalid_input "batch exceeds MAX_PDDB_WRITE_BATCH_LEN; split"
    else ok tt

-- The loop over the entries.
unfoldable pub pack_entries : Text × ℕ → List Entry → Option (Result (Text × ℕ) Pddb.Error)
pack_entries at [] = some (ok at)
pack_entries at (entry ∷ entries) = elim (check_entry at.1 entry) [
  | err e ↦ some (err e)
  | ok _ ↦ and_then (pack_entry at entry) (λ at. pack_entries at entries)
]

-- The loop from an empty page, and the terminator after it.
unfoldable pub pack_batch : List Entry → Option (Result Text Pddb.Error)
pack_batch entries = and_then (pack_entries (zeros max_pddb_write_batch_len, 0) entries) (λ r.
    elim r [
      | err e ↦ some (err e)
      | ok at ↦
          if ltb at.1 max_pddb_write_batch_len
          then and_then (copy_at at (0 ∷ [])) (λ at. some (ok at.0))
          else some (ok at.0)
    ])

abbrev pub batch_reply : PddbRetcode → Result (Unit {0}) Pddb.Error
batch_reply PddbRetcode.ok = ok tt
batch_reply PddbRetcode.basis_lost = fail ErrorKind.not_found "basis lost"
batch_reply PddbRetcode.access_denied = fail ErrorKind.access_denied "access denied"
batch_reply PddbRetcode.disk_full = fail ErrorKind.no_free_space "disk full"
batch_reply PddbRetcode.unexpected_eof = fail ErrorKind.internal "unexpected EOF"
batch_reply PddbRetcode.internal_error = fail ErrorKind.internal "internal error"
batch_reply PddbRetcode.uninit = fail ErrorKind.internal "server returned without setting retcode"
