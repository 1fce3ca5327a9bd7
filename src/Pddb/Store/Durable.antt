-- ===== src/Pddb/Store/Durable.antt =====
-- `PddbBackend::put` and `get` of crates/presage-store-pddb/src/backend_pddb.rs end to end, for a
-- server that keeps what it is sent.
use xous_app_signal.Prelude.{
  ℕ, suc, ◌*◌, ◌^◌, ◌-◌, ◌≤◌, ◌<◌, ◌≡◌, ◌⊎◌, inl, inr, refl, sym, subst, false, Option, none, some,
  Text, [], length, ltb, Result, ok, arith,
}
use xous_app_signal.Backend.{Bytes}
use xous_app_signal.Pddb
use xous_app_signal.Pddb.{
  dict_name_len, key_name_len, ErrorKind, PddbRequestCode, Opcode, ApiToken, PddbKeyRequest,
  Transport,
}
use xous_app_signal.Pddb.Client.{fail}
use xous_app_signal.Pddb.Requests.{
  OpenOptions, KeyHandle, read_only, create_all, key_request_of, open_key, delete_key, opened,
}
use xous_app_signal.Pddb.Handle.{read_all, write_all}
use xous_app_signal.Pddb.Handle.Streaming.{Serves, read_all_lem}
use xous_app_signal.Pddb.Handle.Writing.{Stores, write_all_lem}
use xous_app_signal.Pddb.Store.{get, put, deleted}

-- A server's reply to a key request: the next state, a result code and a token.
abbrev pub Replies :
    {S : Type 0}
    → Transport S
    → S
    → Opcode
    → PddbKeyRequest
    → S
    → PddbRequestCode
    → Option ApiToken
    → Type 0
Replies transport s op request s' code token =
    (response : PddbKeyRequest) × (transport.key s op request ≡ (s', ok response))
    × (response.result ≡ code)
    × (response.token ≡ token)

-- What the documentation of the PDDB's opcodes and of `PddbBuf` says of one key, as laws over what
-- the server holds under it at rest and behind an open token. A write may be taken in part, and a
-- read answered in part, by `least` bytes at least where there are as many.
pub record Keeps {S : Type 0} (transport : Transport S) (least : ℕ) (dict key : Text)
    (Holds : Option Bytes → S → Type 0) (Open : ApiToken → Bytes → S → Type 0) : Type 0 where
  pub deletes :
      (o : Option Bytes) (s : S)
      → Holds o s
      → (s' : S) × (code : PddbRequestCode) × Replies transport s Opcode.delete_key
          (key_request_of dict key read_only)
          s'
          code
          none
        × ((code ≡ PddbRequestCode.no_err) ⊎ (code ≡ PddbRequestCode.not_found))
        × Holds none s'
  pub creates :
      (s : S)
      → Holds none s
      → (s' : S) × (token : ApiToken) × Replies transport s Opcode.key_request
          (key_request_of dict key create_all)
          s'
          PddbRequestCode.no_err
          (some token)
        × Open token [] s'
  pub opens :
      (v : Bytes) (s : S)
      → Holds (some v) s
      → (s' : S) × (token : ApiToken) × Replies transport s Opcode.key_request
          (key_request_of dict key read_only)
          s'
          PddbRequestCode.no_err
          (some token)
        × Open token v s'
  pub stores : (token : ApiToken) → Stores transport token (Open token)
  pub serves : (token : ApiToken) (v : Bytes) → Serves transport least token v (Open token v)
  pub drops :
      (token : ApiToken) (v : Bytes) (s : S)
      → Open token v s
      → Holds (some v) (transport.key_drop s token)

long_dict : {n : ℕ} → n ≤ 110 → ltb (dict_name_len - 1) n ≡ false
long_dict h = ground (arith, h)

long_key : {n : ℕ} → n ≤ 94 → ltb (key_name_len - 1) n ≡ false
long_key h = ground (arith, h)

module _ {S : Type 0} (transport : Transport S) (dict key : Text) (dict_fits : length dict ≤ 110)
    (key_fits : length key ≤ 94) where
  open_key-granted :
      (s s' : S) (opts : OpenOptions) (token : ApiToken)
      → Replies transport s Opcode.key_request
          (key_request_of dict key opts)
          s'
          PddbRequestCode.no_err
          (some token)
      → open_key transport s dict key opts
        ≡ (s', ok (record { token = token; pos = 0; buf = transport.new_page }))
  unfolding open_key
  open_key-granted s s' opts token (response, answered, code, given) =
      rw (open_key, long_dict dict_fits, long_key key_fits, answered, code, given) refl

  delete_key-done :
      (s s' : S) (code : PddbRequestCode)
      → Replies transport s Opcode.delete_key (key_request_of dict key read_only) s' code none
      → (code ≡ PddbRequestCode.no_err) ⊎ (code ≡ PddbRequestCode.not_found)
      → (r : Result (Unit {0}) Pddb.Error) × (delete_key transport s dict key ≡ (s', r))
        × (deleted "put: pre-delete" r ≡ ok tt)
  unfolding delete_key
  delete_key-done s s' code (response, answered, is, _) which = elim which [
    | inl fine ↦ (ok tt, rw (delete_key, answered, is, fine) refl, refl)
    | inr gone ↦
        (fail ErrorKind.not_found "key not found", rw (delete_key, answered, is, gone) refl, refl)
  ]

  put-chain :
      (s s1 s2 s3 : S) (r : Result (Unit {0}) Pddb.Error) (handle h : KeyHandle) (value : Bytes)
      → delete_key transport s dict key ≡ (s1, r)
      → deleted "put: pre-delete" r ≡ ok tt
      → open_key transport s1 dict key create_all ≡ (s2, ok handle)
      → write_all transport (suc (length value)) s2 handle value ≡ some ((s3, h), ok tt)
      → put transport false s dict key value ≡ some (transport.key_drop s3 h.token, ok tt)
  unfolding put
  put-chain s s1 s2 s3 r handle h value e1 e2 e3 e4 = ground (arith, e1, e2, e3, e4)

  get-chain :
      (s s1 s2 : S) (handle h : KeyHandle) (value : Bytes) (chunks : ℕ)
      → open_key transport s dict key read_only ≡ (s1, ok handle)
      → read_all transport chunks s1 handle [] ≡ some ((s2, h), ok value)
      → get transport false chunks s dict key
        ≡ some (transport.key_drop s2 h.token, ok (some value))
  unfolding get
  get-chain s s1 s2 handle h value chunks e1 e2 = ground (arith, e1, e2)

  module _ (Holds : Option Bytes → S → Type 0) (Open : ApiToken → Bytes → S → Type 0) (least : ℕ)
      (some_least : 1 ≤ least) (least_fits : least ≤ 4072)
      (keeps : Keeps transport least dict key Holds Open) where
    -- A put over whatever was there succeeds and leaves exactly the value, however many pages it
    -- takes and however long the old value was.
    pub put_stores :
        (o : Option Bytes) (s : S) (value : Bytes)
        → Holds o s
        → length value < 2 ^ 64
        → (s' : S) × (put transport false s dict key value ≡ some (s', ok tt))
          × Holds (some value) s'
    put_stores o s value held small =
        let (s1, code, replies, which, gone) = keeps.deletes o s held in
        let (r, deleted_ok, fine) = delete_key-done s s1 code replies which in
        let (s2, token, granted, fresh) = keeps.creates s1 gone in
        let handle : KeyHandle = record { token = token; pos = 0; buf = transport.new_page } in
        let (s3, h, wrote, kept, same) =
          write_all_lem transport token (Open token) (keeps.stores token) (suc (length value)) [] s2
            handle value fresh refl refl (omega (arith, small)) (omega arith) in
        (
          transport.key_drop s3 h.token,
          put-chain s s1 s2 s3 r handle h value deleted_ok fine
              (open_key-granted s1 s2 create_all token granted) wrote,
          subst (λ (t : ApiToken). Holds (some value) (transport.key_drop s3 t)) (sym same)
              (keeps.drops token value s3 kept),
        )

    -- A get reads back the whole value and leaves it there.
    pub get_reads :
        (s : S) (value : Bytes) (chunks : ℕ)
        → Holds (some value) s
        → length value < 2 ^ 64
        → length value ≤ chunks * least
        → (s' : S) × (get transport false (suc chunks) s dict key ≡ some (s', ok (some value)))
          × Holds (some value) s'
    get_reads s value chunks held small enough =
        let (s1, token, granted, opened) = keeps.opens value s held in
        let handle : KeyHandle = record { token = token; pos = 0; buf = transport.new_page } in
        let (s2, h, all, kept, same) =
          read_all_lem transport least some_least least_fits token value (Open token value)
            (keeps.serves token value) small chunks s1 handle [] opened refl (omega arith)
            (omega (arith, enough)) in
        (
          transport.key_drop s2 h.token,
          get-chain s s1 s2 handle h value (suc chunks)
              (open_key-granted s s1 read_only token granted) all,
          subst (λ (t : ApiToken). Holds (some value) (transport.key_drop s2 t)) (sym same)
              (keeps.drops token value s2 kept),
        )

    -- For names of at most 110 and 94 bytes, and a server that keeps what it is sent, takes one byte
    -- or more of each page and serves `least` bytes or more of what is left of a value, with `least`
    -- from 1 to 4072: a put of a value of any size below 2^64, over whatever the key held, succeeds,
    -- and a get with a read per `least` bytes and one for the end of file then yields exactly that
    -- value and leaves it there.
    pub put-get :
        (o : Option Bytes) (s : S) (value : Bytes) (chunks : ℕ)
        → Holds o s
        → length value < 2 ^ 64
        → length value ≤ chunks * least
        → (s1 s2 : S) × (put transport false s dict key value ≡ some (s1, ok tt))
          × (get transport false (suc chunks) s1 dict key ≡ some (s2, ok (some value)))
          × Holds (some value) s2
    put-get o s value chunks held small enough =
        let (s1, wrote, kept) = put_stores o s value held small in
        let (s2, got, still) = get_reads s1 value chunks kept small enough in
        (s1, s2, wrote, got, still)
