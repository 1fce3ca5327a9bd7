-- ===== src/Pddb/Store.antt =====
-- `impl KvBackend for PddbBackend` of crates/presage-store-pddb/src/backend_pddb.rs over the
-- client. The client's mutex is the flag `poisoned`; `none` is a panic of the client, or a reply
-- of the server that never ends. Timing and tracing are left out.
pub mod Durable
use Prim.Native.String.{String, ◌++◌}
use xous_app_signal.Prelude.{
  ℕ, suc, Bool, true, false, Option, none, some, Text, List, [], ◌∷◌, length, if◌then◌else◌, Result,
  ok, err,
}
use xous_app_signal.Backend.{Error, Bytes, Entry}
use xous_app_signal.Pddb
use xous_app_signal.Pddb.{PddbRequestCode, PddbRetcode, ErrorKind, Message, Transport}
use xous_app_signal.Pddb.Client.{and_then}
use xous_app_signal.Pddb.Requests.{KeyHandle, read_only, create_all}
use xous_app_signal.Pddb.Requests
use xous_app_signal.Pddb.Listing
use xous_app_signal.Pddb.Handle.{IoError, read_all, write_all}

-- `#[derive(Debug)]` of the two codes.
abbrev pub debug_code : PddbRequestCode → String
debug_code PddbRequestCode.create_code = "Create"
debug_code PddbRequestCode.open_code = "Open"
debug_code PddbRequestCode.close_code = "Close"
debug_code PddbRequestCode.delete_code = "Delete"
debug_code PddbRequestCode.no_err = "NoErr"
debug_code PddbRequestCode.not_mounted = "NotMounted"
debug_code PddbRequestCode.no_free_space = "NoFreeSpace"
debug_code PddbRequestCode.not_found = "NotFound"
debug_code PddbRequestCode.internal_error = "InternalError"
debug_code PddbRequestCode.access_denied = "AccessDenied"
debug_code PddbRequestCode.uninit = "Uninit"
debug_code PddbRequestCode.duplicate_entry = "DuplicateEntry"
debug_code PddbRequestCode.bulk_read = "BulkRead"

abbrev pub debug_retcode : PddbRetcode → String
debug_retcode PddbRetcode.uninit = "Uninit"
debug_retcode PddbRetcode.ok = "Ok"
debug_retcode PddbRetcode.basis_lost = "BasisLost"
debug_retcode PddbRetcode.access_denied = "AccessDenied"
debug_retcode PddbRetcode.unexpected_eof = "UnexpectedEof"
debug_retcode PddbRetcode.internal_error = "InternalError"
debug_retcode PddbRetcode.disk_full = "DiskFull"

abbrev pub message : Message → String
message (Message.text said) = said
message (Message.with_code said code) = said ++ debug_code code
message (Message.with_retcode said code) = said ++ debug_retcode code

abbrev pub io_message : IoError → String
io_message e = elim e.code [ none ↦ e.msg | some code ↦ e.msg ++ debug_retcode code ]

unfoldable pub map_ipc_err : Pddb.Error → String → Error
map_ipc_err e ctx = elim e.kind [
  | ErrorKind.not_mounted ↦ Error.backend (ctx ++ ": PDDB not mounted")
  | ErrorKind.access_denied ↦ Error.backend (ctx ++ ": access denied")
  | ErrorKind.no_free_space ↦ Error.backend (ctx ++ ": out of space")
  | ErrorKind.invalid_input ↦ Error.backend (ctx ++ ": invalid input (" ++ message e.msg ++ ")")
  | ErrorKind.not_found ↦ Error.backend (ctx ++ ": not found")
  | ErrorKind.internal ↦ Error.backend (ctx ++ ": " ++ message e.msg)
  | ErrorKind.ipc ↦ Error.backend (ctx ++ ": " ++ message e.msg)
]

abbrev pub is_not_found : ErrorKind → Bool
is_not_found ErrorKind.not_found = true
is_not_found _ = false

abbrev pub poison : {A : Type 0} → Result A Error
poison = err (Error.backend "PDDB client mutex poisoned")

-- `NotFound` is no error to a delete.
abbrev pub deleted : String → Result (Unit {0}) Pddb.Error → Result (Unit {0}) Error
deleted ctx (ok _) = ok tt
deleted ctx (err e) = if is_not_found e.kind then ok tt else err (map_ipc_err e ctx)

module _ {S : Type 0} (transport : Transport S) where
  unfoldable pub get : Bool → ℕ → S → Text → Text → Option (S × Result (Option Bytes) Error)
  get true chunks s dict key = some (s, poison)
  get false chunks s dict key =
      let (s', r) = Requests.open_key transport s dict key read_only in
      elim r [
        | err e ↦
            some (s', if is_not_found e.kind then ok none else err (map_ipc_err e "open for read"))
        | ok handle ↦ and_then (read_all transport chunks s' handle []) (λ ((s'', h), r). some (
          transport.key_drop s'' h.token,
          elim r [
            | err e ↦ err (Error.backend ("read: " ++ io_message e))
            | ok bytes ↦ ok (some bytes)
          ],
        ))
      ]

  unfoldable pub put : Bool → S → Text → Text → Bytes → Option (S × Result (Unit {0}) Error)
  put true s dict key value = some (s, poison)
  put false s dict key value =
      let (s1, r1) = Requests.delete_key transport s dict key in
      elim (deleted "put: pre-delete" r1) [
        | err e ↦ some (s1, err e)
        | ok _ ↦
            let (s2, r2) = Requests.open_key transport s1 dict key create_all in
            elim r2 [
              | err e ↦ some (s2, err (map_ipc_err e "open for write"))
              | ok handle ↦
                  and_then (write_all transport (suc (length value)) s2 handle value)
                    (λ ((s3, h), r). some (
                      transport.key_drop s3 h.token,
                      elim r [
                        | err e ↦ err (Error.backend ("write: " ++ io_message e))
                        | ok _ ↦ ok tt
                      ],
                    ))
            ]
      ]

  unfoldable pub put_batch : Bool → S → List Entry → Option (S × Result (Unit {0}) Error)
  put_batch poisoned s [] = some (s, ok tt)
  put_batch true s (entry ∷ entries) = some (s, poison)
  put_batch false s (entry ∷ entries) =
      and_then (Requests.write_batch transport s (entry ∷ entries))
        (λ (s', r). some (s', elim r [ err e ↦ err (map_ipc_err e "write_batch") | ok _ ↦ ok tt ]))

  unfoldable pub delete : Bool → S → Text → Text → S × Result (Unit {0}) Error
  delete true s dict key = (s, poison)
  delete false s dict key =
      let (s', r) = Requests.delete_key transport s dict key in (s', deleted "delete_key" r)

  unfoldable pub delete_dict : Bool → S → Text → S × Result (Unit {0}) Error
  delete_dict true s dict = (s, poison)
  delete_dict false s dict =
      let (s', r) = Requests.delete_dict transport s dict in
      (s', elim r [ err e ↦ err (map_ipc_err e "delete_dict") | ok _ ↦ ok tt ])

  unfoldable pub list_keys :
      (Text → Bool) → Bool → ℕ → S → Text → Option (S × Result (List Text) Error)
  list_keys is_utf8 true pages s dict = some (s, poison)
  list_keys is_utf8 false pages s dict =
      and_then (Listing.list_keys is_utf8 transport pages s dict) (λ (s', r). some (
        s',
        elim r [
          | ok keys ↦ ok keys
          | err e ↦ if is_not_found e.kind then ok [] else err (map_ipc_err e "list_keys")
        ],
      ))
