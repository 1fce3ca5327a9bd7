-- ===== src/Pddb/Listing.antt =====
-- `PddbClient::list_keys` of crates/xous-pddb-ipc/src/client.rs: the count request, the loop over
-- the server's pages and the parser of one page. `str::from_utf8` is the parameter `is_utf8`.
pub mod Parsing
pub mod Draining
use xous_app_signal.Prelude.{
  ℕ, zero, suc, ◌+◌, ◌-◌, Bool, true, false, Option, none, some, Text, List, [], ◌∷◌, ◌++◌, length,
  take, drop, leb, ltb, if◌then◌else◌, Result, ok, err, ◌>>=◌,
}
use xous_app_signal.Pddb
use xous_app_signal.Pddb.{
  dict_name_len, max_pddbklistlen, PddbRequestCode, PddbRetcode, Opcode, ListToken, PddbDictRequest,
  PddbKeyList, ErrorKind, Message, Fault, Transport, zeros,
}
use xous_app_signal.Pddb.Client.{fail, and_then}
use xous_app_signal.Pddb.Requests.{lent, fail_code}

-- `data[idx]`; `none` is the panic of an index out of range.
unfoldable pub byte_at : Text → ℕ → Option ℕ
byte_at [] idx = none
byte_at (b ∷ data_bytes) zero = some b
byte_at (b ∷ data_bytes) (suc idx) = byte_at data_bytes idx

-- `&data[idx..idx + len]`
unfoldable pub slice_at : Text → ℕ → ℕ → Option Text
slice_at data_bytes idx len =
    if leb (idx + len) (length data_bytes) then some (take len (drop idx data_bytes)) else none

abbrev pub page_reply : PddbRetcode → Result (Unit {0}) Pddb.Error
page_reply PddbRetcode.ok = ok tt
page_reply PddbRetcode.access_denied =
    fail ErrorKind.access_denied "key list locked by another process"
page_reply other =
    err (record { kind = ErrorKind.internal; msg = Message.with_retcode "ListKeyV2: " other })

abbrev pub count_reply : PddbRequestCode → Result (Unit {0}) Pddb.Error
count_reply PddbRequestCode.no_err = ok tt
count_reply PddbRequestCode.not_found = fail ErrorKind.not_found "dictionary not found"
count_reply PddbRequestCode.not_mounted = fail ErrorKind.not_mounted "PDDB not mounted"
count_reply other = fail_code "KeyCountInDict: " other

abbrev pub list_request : ListToken → PddbKeyList
list_request token = record {
  token = token;
  data_bytes = zeros max_pddbklistlen;
  retcode = PddbRetcode.uninit;
  end = false;
}

module _ (is_utf8 : Text → Bool) where
  -- The name of `strlen` bytes at the index `idx`.
  unfoldable pub read_name : Text → ℕ → ℕ → Option (Result Text Pddb.Error)
  read_name data_bytes idx strlen =
      if ltb max_pddbklistlen (idx + strlen)
      then some (fail ErrorKind.internal "key list overran buffer")
      else (and_then (slice_at data_bytes idx strlen) (λ name.
          some (if is_utf8 name then ok name else fail ErrorKind.internal "key name not utf-8")))

  -- The `while` loop of one page from the index `idx`; the outer `none` is a panic or no fuel.
  unfoldable pub parse_page : ℕ → Text → ℕ → Option (Result (List Text) Pddb.Error)
  parse_page zero data_bytes idx = none
  parse_page (suc fuel) data_bytes idx =
      let rest = λ (idx' : ℕ). parse_page fuel data_bytes idx' in
      if ltb idx max_pddbklistlen
      then (and_then (byte_at data_bytes idx) (λ strlen. elim strlen [
        | zero ↦ some (ok [])
        | suc n ↦ and_then (read_name data_bytes (idx + 1) (suc n)) (λ r. elim r [
          | err e ↦ some (err e)
          | ok name ↦
              and_then (rest (idx + 1 + suc n)) (λ r. some (r >>= (λ names. ok (name ∷ names))))
        ])
      ]))
      else some (ok [])

  -- One round of the `loop`, from the reply on: `rest` is the next round.
  unfoldable pub drain_round :
      {S : Type 0}
      → S × Result PddbKeyList Fault
      → List Text
      → (S → List Text → Option (S × Result (List Text) Pddb.Error))
      → Option (S × Result (List Text) Pddb.Error)
  drain_round (s', r) keys rest =
      elim (lent "Buffer::into_buf KeyList" "lend_mut ListKeyV2" "to_original KeyList" r) [
        | err e ↦ some (s', err e)
        | ok response ↦ elim (page_reply response.retcode) [
          | err e ↦ some (s', err e)
          | ok _ ↦ elim (parse_page (suc max_pddbklistlen) response.data_bytes 0) [
            | none ↦ none
            | some (err e) ↦ some (s', err e)
            | some (ok names) ↦ elim response.end [
              | true ↦ some (s', ok (keys ++ names))
              | false ↦ rest s' (keys ++ names)
            ]
          ]
        ]
      ]

  module _ {S : Type 0} (transport : Transport S) where
    -- The `loop` that drains the pages; `none` is a panic, or that `pages` pages had no end.
    unfoldable pub drain :
        ℕ → S → ListToken → List Text → Option (S × Result (List Text) Pddb.Error)
    drain zero s token keys = none
    drain (suc pages) s token keys =
        drain_round (transport.keys s (list_request token)) keys
          (λ s' keys'. drain pages s' token keys')

    unfoldable pub list_keys : ℕ → S → Text → Option (S × Result (List Text) Pddb.Error)
    list_keys pages s dict =
        if ltb (dict_name_len - 1) (length dict)
        then some (s, fail ErrorKind.invalid_input "dict name too long")
        else (let token = transport.create_server_id s in
            let (s', r) = transport.dict s Opcode.key_count_in_dict (record {
              basis_specified = false;
              basis = [];
              dict = dict;
              key = [];
              index = 0;
              token = token;
              code = PddbRequestCode.uninit;
              bulk_limit = none;
              key_count = 0;
              found_key_count = 0;
            }) in
            elim (lent "Buffer::into_buf" "lend_mut KeyCountInDict" "to_original DictRequest" r
              >>= (λ response. count_reply response.code)) [
                | err e ↦ some (s', err e)
                | ok _ ↦ drain pages s' token []
              ])
