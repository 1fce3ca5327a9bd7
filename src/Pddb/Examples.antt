-- ===== src/Pddb/Examples.antt =====
-- Tests and examples for the client of crates/xous-pddb-ipc and the backend over it: a server of
-- one key that keeps what it is sent.
use xous_app_signal.Prelude.{
  ℕ, zero, suc, ◌+◌, ◌-◌, ◌≤◌, ◌<◌, ◌≡◌, refl, sym, ap, ◌⊎◌, inl, inr, min, Bool, true, false,
  Option, none, some, Text, codes, List, [], ◌∷◌, ◌++◌, length, length-append, take, drop, ltb,
  if◌then◌else◌, Result, ok, err, arith, subst,
}
use xous_app_signal.Backend.{Bytes, Entry}
use xous_app_signal.Pddb
use xous_app_signal.Pddb.{
  PddbRequestCode, PddbRetcode, Opcode, ApiToken, ListToken, PddbKeyRequest, PddbKeyList, PddbBuf,
  PddbWriteBatch, Fault, Transport, zeros, max_pddb_write_batch_len, ErrorKind,
}
use xous_app_signal.Pddb.Requests.{OpenOptions, key_request_of, read_only, create_all}
use xous_app_signal.Pddb.Store.Durable.{Keeps, Replies, put-get}
use xous_app_signal.Pddb.Store.{put, get}
use xous_app_signal.Pddb.Batching.{Outcome, write_batch_lem}
use xous_app_signal.Pddb.Client.Copies.{length-zeros}
use xous_app_signal.Pddb.Listing.{drain, list_request}
use xous_app_signal.Pddb.Listing.Parsing.{packed_names}
use xous_app_signal.Pddb.Listing.Draining.{Lists, Ends, joined, drain_lem, drain_total}
use xous_app_signal.Pddb.Handle.Streaming.{Serves}
use xous_app_signal.Pddb.Handle.Writing.{Stores}

abbrev blank : PddbBuf
blank = record {
  token = (0, 0, 0);
  retcode = PddbRetcode.uninit;
  reserved = 0;
  len = 0;
  position = 0;
  data_bytes = [];
}

abbrev replied : PddbKeyRequest → PddbRequestCode → Option ApiToken → PddbKeyRequest
replied request code token = record request { result = code; token = token }

abbrev keep_key :
    Option Bytes → Opcode → PddbKeyRequest → Option Bytes × Result PddbKeyRequest Fault
keep_key none Opcode.delete_key request =
    (none, ok (replied request PddbRequestCode.not_found none))
keep_key (some v) Opcode.delete_key request =
    (none, ok (replied request PddbRequestCode.no_err none))
keep_key (some v) op request =
    (some v, ok (replied request PddbRequestCode.no_err (some (7, 7, 7))))
keep_key none op request =
    if request.create_key
    then (some [], ok (replied request PddbRequestCode.no_err (some (7, 7, 7))))
    else (none, ok (replied request PddbRequestCode.not_found none))

-- A page is written two bytes at a time, and read three at a time.
unfoldable keep_page : Option Bytes → Opcode → PddbBuf → Option Bytes × Option PddbBuf
keep_page none op page = (none, none)
keep_page (some v) Opcode.write_key page =
    let taken = min page.len 2 in
    (
      some (v ++ take taken page.data_bytes),
      some (record page { retcode = PddbRetcode.ok; len = taken }),
    )
keep_page (some v) op page = (
  some v,
  some (
      if ltb page.position (length v)
      then record page {
        retcode = PddbRetcode.ok;
        len = min 3 (min page.len (length v - page.position));
        data_bytes = drop page.position v;
      }
      else record page { retcode = PddbRetcode.unexpected_eof }),
)

abbrev keeper : Transport (Option Bytes)
keeper = record {
  key = keep_key;
  dict = λ s op request. (s, err Fault.lend_mut);
  keys = λ s request. (s, err Fault.lend_mut);
  batch = λ s request. (s, ok (record request { retcode = PddbRetcode.ok }));
  page = keep_page;
  create_server_id = λ s. (1, 2, 3, 4);
  new_page = blank;
  key_drop = λ s token. s;
}

abbrev Holds : Option Bytes → Option Bytes → Type 0
Holds o s = s ≡ o

abbrev Open : ApiToken → Bytes → Option Bytes → Type 0
Open token v s = s ≡ some v

abbrev Deletes : Text → Text → Option Bytes → Type 0
Deletes dict key s =
    (s' : Option Bytes) × (code : PddbRequestCode) × Replies keeper s Opcode.delete_key
      (key_request_of dict key read_only) s' code none
    × ((code ≡ PddbRequestCode.no_err) ⊎ (code ≡ PddbRequestCode.not_found))
    × (s' ≡ none)

delete_replies : (dict key : Text) (s : Option Bytes) → Deletes dict key s
delete_replies dict key none =
    (none, PddbRequestCode.not_found, (_, refl, refl, refl), inr refl, refl)
delete_replies dict key (some v) =
    (none, PddbRequestCode.no_err, (_, refl, refl, refl), inl refl, refl)

abbrev Grants : Text → Text → OpenOptions → Bytes → Option Bytes → Type 0
Grants dict key opts v s =
    (s' : Option Bytes) × (token : ApiToken) × Replies keeper s Opcode.key_request
      (key_request_of dict key opts) s' PddbRequestCode.no_err (some token)
    × (s' ≡ some v)

keeper-stores : (token : ApiToken) → Stores keeper token (Open token)
unfolding keep_page
keeper-stores token held s page e t at pos cap =
    rw e (_, refl, refl, omega (arith, pos), omega arith, refl)

position_inside : (m n : ℕ) → m < n → ltb m n ≡ true
position_inside m n h = ground (arith, h)

position_past : (m n : ℕ) → n ≤ m → ltb m n ≡ false
position_past m n h = ground (arith, h)

keeper-serves : (token : ApiToken) (v : Bytes) → Serves keeper 3 token v (Open token v)
unfolding keep_page
keeper-serves token v s page e t = rw e (
    (
      refl,
      (
        _,
        refl,
        (
          (λ below.
              rw (position_inside page.position (length v) below)
                (refl, omega arith, omega arith, refl)),
          (λ past. rw (position_past page.position (length v) past) refl),
        ),
      ),
    ))

keeper-Keeps : (dict key : Text) → Keeps keeper 3 dict key Holds Open
keeper-Keeps dict key = record {
  deletes = λ o s e. delete_replies dict key s;
  creates = λ s e.
      subst (Grants dict key create_all []) (sym e) (_, (7, 7, 7), (_, refl, refl, refl), refl);
  opens = λ v s e.
      subst (Grants dict key read_only v) (sym e) (_, (7, 7, 7), (_, refl, refl, refl), refl);
  stores = keeper-stores;
  serves = keeper-serves;
  drops = λ token v s e. e;
}

put-get_example :
    (s1 : Option Bytes) × (s2 : Option Bytes) × (put keeper false
        (some (codes "an older, longer value"))
        (codes "xas")
        (codes "k")
        (codes "a new value")
      ≡ some (s1, ok tt))
    × (get keeper false 5 s1 (codes "xas") (codes "k") ≡ some (s2, ok (some (codes "a new value"))))
    × (s2 ≡ some (codes "a new value"))
put-get_example =
    put-get keeper (codes "xas") (codes "k") (omega arith) (omega arith) Holds Open 3 (omega arith)
      (omega arith) (keeper-Keeps (codes "xas") (codes "k")) (some (codes "an older, longer value"))
      (some (codes "an older, longer value")) (codes "a new value") 4 refl (omega arith)
      (omega arith)

abbrev one_entry : Entry
one_entry = (codes "xas", codes "k", codes "new")

write_batch_lem_example : Outcome keeper none (one_entry ∷ [])
write_batch_lem_example = write_batch_lem keeper none one_entry []

-- A server with a listing of two pages; its state is the number of pages sent.
abbrev any_bytes : Text → Bool
any_bytes name = true

unfoldable page_of : List Text → ℕ → Bool → PddbKeyList
page_of names k last = record {
  token = (1, 2, 3, 4);
  data_bytes = packed_names any_bytes names ++ zeros k;
  retcode = PddbRetcode.ok;
  end = last;
}

abbrev two_pages : ℕ → PddbKeyList → ℕ × Result PddbKeyList Fault
two_pages zero request = (1, ok (page_of (codes "a" ∷ codes "bc" ∷ []) 4059 false))
two_pages (suc n) request = (2, ok (page_of (codes "d" ∷ []) 4062 true))

abbrev lister : Transport ℕ
lister = record {
  key = λ s op request. (s, err Fault.lend_mut);
  dict = λ s op request. (s, ok (record request { code = PddbRequestCode.no_err }));
  keys = two_pages;
  batch = λ s request. (s, err Fault.lend_mut);
  page = λ s op page. (s, none);
  create_server_id = λ s. (1, 2, 3, 4);
  new_page = blank;
  key_drop = λ s token. s;
}

lister-Lists :
    Lists any_bytes lister (1, 2, 3, 4) ((codes "a" ∷ codes "bc" ∷ []) ∷ (codes "d" ∷ []) ∷ []) 0
unfolding Lists page_of packed_names
lister-Lists = (
  1,
  _,
  4059,
  refl,
  refl,
  refl,
  refl,
  refl,
  ((omega arith, refl), ((omega arith, refl), tt)),
  λ _.
      (2, _, 4062, refl, refl, refl, refl, refl, ((omega arith, refl), tt), λ h. ground (arith, h)),
)

drain_lem_example :
    (s : ℕ) × (drain any_bytes lister 2 0 (1, 2, 3, 4) []
      ≡ some (
        s,
        ok (
            joined any_bytes lister
              (1, 2, 3, 4)
              ((codes "a" ∷ codes "bc" ∷ []) ∷ (codes "d" ∷ []) ∷ [])),
      ))
drain_lem_example =
    drain_lem any_bytes lister (1, 2, 3, 4) ((codes "a" ∷ codes "bc" ∷ []) ∷ (codes "d" ∷ []) ∷ [])
      0 [] lister-Lists

abbrev reply_of : ℕ × Result PddbKeyList Fault → PddbKeyList
reply_of (n, ok response) = response
reply_of (n, err fault) = page_of [] 0 true

page_of-size :
    (names : List Text) (k : ℕ) (last : Bool)
    → length (packed_names any_bytes names) + k ≡ 4064
    → length (page_of names k last).data_bytes ≡ 4064
unfolding page_of
page_of-size names k last h =
    omega (arith, h, length-append (packed_names any_bytes names) (zeros k), length-zeros k)

lister-Ends : Ends any_bytes lister (1, 2, 3, 4) 2 0
unfolding Ends page_of packed_names
lister-Ends s' response e =
    let first = page_of-size (codes "a" ∷ codes "bc" ∷ []) 4059 false refl in
    let second = page_of-size (codes "d" ∷ []) 4062 true refl in
    (
      subst (λ (r : PddbKeyList). length r.data_bytes ≡ 4064) (ap reply_of e) first,
      λ unended s'' response' e'.
          let e'' =
            subst
              (λ (n : ℕ).
                Path (ℕ × Result PddbKeyList Fault) (two_pages n (list_request (1, 2, 3, 4)))
                  (s'', ok response'))
              (sym (ap (λ (x : ℕ × Result PddbKeyList Fault). x.0) e)) e' in
          (
            subst (λ (r : PddbKeyList). length r.data_bytes ≡ 4064) (ap reply_of e'') second,
            λ still.
                ground
                  (arith, still, ap (λ (x : ℕ × Result PddbKeyList Fault). (reply_of x).end) e''),
          ),
    )

drain_total_example :
    (s : ℕ) × (r : Result (List Text) Pddb.Error) × (drain any_bytes lister 2 0 (1, 2, 3, 4) []
      ≡ some (s, r))
drain_total_example = drain_total any_bytes lister (1, 2, 3, 4) 2 0 [] lister-Ends
