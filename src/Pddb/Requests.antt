-- ===== src/Pddb/Requests.antt =====
-- The requests of `impl PddbClient` in crates/xous-pddb-ipc/src/client.rs: what is sent, the
-- guards before it and what each reply code becomes. The client's two connections are constants.
use xous_app_signal.Prelude.{
  ℕ, ◌-◌, Bool, true, false, Option, none, some, String, Text, List, [], ◌∷◌, length, ltb,
  if◌then◌else◌, Result, ok, err, ◌>>=◌,
}
use xous_app_signal.Backend.{Entry}
use xous_app_signal.Pddb
use xous_app_signal.Pddb.{
  dict_name_len, key_name_len, PddbRequestCode, PddbRetcode, Opcode, ApiToken, PddbKeyRequest,
  PddbWriteBatch, PddbBuf, ErrorKind, Message, Fault, Transport,
}
use xous_app_signal.Pddb.Client.{fail, pack_batch, batch_reply}

-- The `map_err` of the three steps of a lend.
abbrev pub lent {ℓ} : {A : Type ℓ} → String → String → String → Result A Fault → Result A Pddb.Error
lent a b c (ok r) = ok r
lent a b c (err Fault.into_buf) = fail ErrorKind.ipc a
lent a b c (err Fault.lend_mut) = fail ErrorKind.ipc b
lent a b c (err Fault.to_original) = fail ErrorKind.ipc c

pub record OpenOptions : Type 0 where
  pub create_dict : Bool
  pub create_key : Bool
  pub alloc_hint : Option ℕ

-- `#[derive(Default)]`: a read-only open.
abbrev pub read_only : OpenOptions
read_only = record { create_dict = false; create_key = false; alloc_hint = none }

abbrev pub create_all : OpenOptions
create_all = record { create_dict = true; create_key = true; alloc_hint = none }

pub record KeyHandle : Type 0 where
  pub token : ApiToken
  pub pos : ℕ
  pub buf : PddbBuf

abbrev pub key_request_of : Text → Text → OpenOptions → PddbKeyRequest
key_request_of dict key opts = record {
  basis_specified = false;
  basis = [];
  dict = dict;
  key = key;
  token = none;
  create_dict = opts.create_dict;
  create_key = opts.create_key;
  alloc_hint = opts.alloc_hint;
  cb_sid = none;
  result = PddbRequestCode.uninit;
}

abbrev pub fail_code {ℓ} : {A : Type ℓ} → String → PddbRequestCode → Result A Pddb.Error
fail_code said code = err (record { kind = ErrorKind.internal; msg = Message.with_code said code })

-- The last `match` of `open`, `delete_key` and `delete_dict`.
abbrev pub opened : PddbBuf → PddbKeyRequest → Result KeyHandle Pddb.Error
opened page response = elim response.result [
  | PddbRequestCode.no_err ↦ elim response.token [
    | some token ↦ ok (record { token = token; pos = 0; buf = page })
    | none ↦ fail ErrorKind.internal "server returned no token"
  ]
  | PddbRequestCode.access_denied ↦ fail ErrorKind.access_denied "dict/key access denied"
  | PddbRequestCode.not_mounted ↦ fail ErrorKind.not_mounted "PDDB not mounted"
  | PddbRequestCode.no_free_space ↦ fail ErrorKind.no_free_space "out of space"
  | PddbRequestCode.not_found ↦ fail ErrorKind.not_found "dict/key not found"
  | other ↦ fail_code "KeyRequest: " other
]

abbrev pub deleted_key : PddbKeyRequest → Result (Unit {0}) Pddb.Error
deleted_key response = elim response.result [
  | PddbRequestCode.no_err ↦ ok tt
  | PddbRequestCode.not_found ↦ fail ErrorKind.not_found "key not found"
  | PddbRequestCode.not_mounted ↦ fail ErrorKind.not_mounted "PDDB not mounted"
  | other ↦ fail_code "DeleteKey: " other
]

abbrev pub deleted_dict : PddbKeyRequest → Result (Unit {0}) Pddb.Error
deleted_dict response = elim response.result [
  | PddbRequestCode.no_err ↦ ok tt
  | PddbRequestCode.not_found ↦ ok tt
  | PddbRequestCode.not_mounted ↦ fail ErrorKind.not_mounted "PDDB not mounted"
  | other ↦ fail_code "DeleteDict: " other
]

module _ {S : Type 0} (transport : Transport S) where
  unfoldable pub open_key : S → Text → Text → OpenOptions → S × Result KeyHandle Pddb.Error
  open_key s dict key opts =
      if ltb (dict_name_len - 1) (length dict)
      then (s, fail ErrorKind.invalid_input "dictionary name too long")
      else if ltb (key_name_len - 1) (length key)
      then (s, fail ErrorKind.invalid_input "key name too long")
      else (let (s', r) = transport.key s Opcode.key_request (key_request_of dict key opts) in
          (
            s',
            lent "Buffer::into_buf" "lend_mut KeyRequest" "to_original KeyRequest" r
                >>= opened transport.new_page,
          ))

  unfoldable pub delete_key : S → Text → Text → S × Result (Unit {0}) Pddb.Error
  delete_key s dict key =
      let (s', r) = transport.key s Opcode.delete_key (key_request_of dict key read_only) in
      (s', lent "Buffer::into_buf" "lend_mut DeleteKey" "to_original DeleteKey" r >>= deleted_key)

  unfoldable pub delete_dict : S → Text → S × Result (Unit {0}) Pddb.Error
  delete_dict s dict =
      let (s', r) = transport.key s Opcode.delete_dict (key_request_of dict [] read_only) in
      (
        s',
        lent "Buffer::into_buf" "lend_mut DeleteDict" "to_original DeleteDict" r >>= deleted_dict,
      )

  -- `none` is the panic of a slice index out of range.
  unfoldable pub write_batch : S → List Entry → Option (S × Result (Unit {0}) Pddb.Error)
  write_batch s [] = some (s, ok tt)
  write_batch s (entry ∷ entries) = elim (pack_batch (entry ∷ entries)) [
    | none ↦ none
    | some (err e) ↦ some (s, err e)
    | some (ok page) ↦
        let (s', r) = transport.batch s (record {
          basis_specified = false;
          basis = [];
          data_bytes = page;
          retcode = PddbRetcode.uninit;
        }) in
        some (
          s',
          lent "Buffer::into_buf WriteKeyBatch" "lend_mut WriteKeyBatch" "to_original WriteKeyBatch"
                r
              >>= (λ response. batch_reply response.retcode),
        )
  ]
