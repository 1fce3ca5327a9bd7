-- ===== src/Pddb/Listing/Draining.antt =====
-- The loop over the pages of a listing in `PddbClient::list_keys` (crates/xous-pddb-ipc/src/client.rs).
use xous_app_signal.Prelude.{
  ℕ, zero, suc, ◌+◌, ◌≡◌, refl, ◌∙◌, ap, Bool, true, false, Option, some, Text, All, List, [], ◌∷◌,
  ◌++◌, append-nil, append_assoc, length, if◌then◌else◌, Result, ok, err, Result-cases, inl, inr,
  Bool-cases, arith,
}
use xous_app_signal.Pddb
use xous_app_signal.Pddb.{
  max_pddbklistlen, ListToken, PddbKeyList, PddbRetcode, Transport, Fault, zeros,
}
use xous_app_signal.Pddb.Listing.{parse_page, drain, drain_round, list_request, page_reply}
use xous_app_signal.Pddb.Listing.Parsing.{
  parse_page_total, parse_page-packed, packed_names, IsKeyName,
}

abbrev pub is_last {ℓ} : {A : Type ℓ} → List A → Bool
is_last [] = true
is_last (_ ∷ _) = false

module _ (is_utf8 : Text → Bool) {S : Type 0} (transport : Transport S) (token : ListToken) where
  -- A server that ends the listing within `n` pages, each of the size its type has.
  unfoldable pub Ends : ℕ → S → Type 0
  Ends zero s = ⊥
  Ends (suc n) s =
      (s' : S) (response : PddbKeyList)
      → transport.keys s (list_request token) ≡ (s', ok response)
      → (length response.data_bytes ≡ max_pddbklistlen) × (response.end ≡ false → Ends n s')

  round-parsed :
      (s' : S) (response : PddbKeyList) (keys : List Text)
      (rest : S → List Text → Option (S × Result (List Text) Pddb.Error))
      (r : Result (List Text) Pddb.Error)
      → page_reply response.retcode ≡ ok tt
      → parse_page is_utf8 (suc max_pddbklistlen) response.data_bytes 0 ≡ some r
      → (response.end ≡ false
          → (keys' : List Text)
          → (s'' : S) × (r' : Result (List Text) Pddb.Error) × (rest s' keys' ≡ some (s'', r')))
      → (s'' : S) × (r' : Result (List Text) Pddb.Error) × (drain_round is_utf8
            (s', ok response)
            keys
            rest
          ≡ some (s'', r'))
  unfolding drain_round
  round-parsed s' response keys rest (err e) fine parsed more =
      (s', err e, rw (drain_round, fine, parsed) refl)
  round-parsed s' response keys rest (ok names) fine parsed more = elim (Bool-cases response.end) [
    | inl last ↦ (s', ok (keys ++ names), rw (drain_round, fine, parsed, last) refl)
    | inr unended ↦
        let (s'', r', done) = more unended (keys ++ names) in
        (s'', r', rw (drain_round, fine, parsed, unended) done)
  ]

  round_total :
      (x : S × Result PddbKeyList Fault) (keys : List Text)
      (rest : S → List Text → Option (S × Result (List Text) Pddb.Error))
      → ((s' : S) (response : PddbKeyList)
          → x ≡ (s', ok response)
          → (length response.data_bytes ≡ max_pddbklistlen)
            × (response.end ≡ false
                → (keys' : List Text)
                → (s'' : S) × (r : Result (List Text) Pddb.Error) × (rest s' keys'
                    ≡ some (s'', r))))
      → (s'' : S) × (r : Result (List Text) Pddb.Error) × (drain_round is_utf8 x keys rest
          ≡ some (s'', r))
  unfolding drain_round
  round_total (s', err Fault.into_buf) keys rest next = (s', _, refl)
  round_total (s', err Fault.lend_mut) keys rest next = (s', _, refl)
  round_total (s', err Fault.to_original) keys rest next = (s', _, refl)
  round_total (s', ok response) keys rest next =
      let (size, more) = next s' response refl in
      let (r, parsed) =
        parse_page_total is_utf8 (suc max_pddbklistlen) response.data_bytes 0 size (omega arith)
          (omega arith) in
      elim (Result-cases (page_reply response.retcode)) [
        | inr (e, refused) ↦ (s', err e, rw (drain_round, refused) refl)
        | inl (_, fine) ↦ round-parsed s' response keys rest r fine parsed more
      ]

  -- With a server that ends the listing within `n` pages of the right size, whatever their bytes
  -- are, the loop returns: a list or an error, without a panic.
  pub drain_total :
      (n : ℕ) (s : S) (keys : List Text)
      → Ends n s
      → (s' : S) × (r : Result (List Text) Pddb.Error) × (drain is_utf8 transport n s token keys
          ≡ some (s', r))
  unfolding Ends drain
  drain_total zero s keys ends = absurd ends
  drain_total (suc n) s keys ends =
      round_total (transport.keys s (list_request token)) keys _ (λ s' response e.
        let (size, more) = ends s' response e in
        (size, λ unended keys'. drain_total n s' keys' (more unended)))

  -- A server whose pages hold these names, the last of them marked.
  unfoldable pub Lists : List (List Text) → S → Type 0
  Lists [] s = ⊥
  Lists (names ∷ pages) s =
      (s' : S) × (response : PddbKeyList) × (k : ℕ) × (transport.keys s (list_request token)
        ≡ (s', ok response))
      × (response.retcode ≡ PddbRetcode.ok)
      × (response.end ≡ is_last pages)
      × (response.data_bytes ≡ packed_names is_utf8 names ++ zeros k)
      × (length (packed_names is_utf8 names) + k ≡ max_pddbklistlen)
      × All (IsKeyName is_utf8) names
      × (is_last pages ≡ false → Lists pages s')

  unfoldable pub joined : List (List Text) → List Text
  joined [] = []
  joined (names ∷ pages) = names ++ joined pages

  page-names :
      (names : List Text) (response : PddbKeyList) (k : ℕ)
      → response.data_bytes ≡ packed_names is_utf8 names ++ zeros k
      → length (packed_names is_utf8 names) + k ≡ max_pddbklistlen
      → All (IsKeyName is_utf8) names
      → parse_page is_utf8 (suc max_pddbklistlen) response.data_bytes 0 ≡ some (ok names)
  page-names names response k bytes size good = rw bytes (
      parse_page-packed is_utf8 (suc max_pddbklistlen) [] names k good (omega (arith, size))
        (omega arith))

  round-names :
      (s' : S) (response : PddbKeyList) (keys names : List Text)
      (rest : S → List Text → Option (S × Result (List Text) Pddb.Error))
      → parse_page is_utf8 (suc max_pddbklistlen) response.data_bytes 0 ≡ some (ok names)
      → response.retcode ≡ PddbRetcode.ok
      → drain_round is_utf8 (s', ok response) keys rest
        ≡ (if response.end then some (s', ok (keys ++ names)) else rest s' (keys ++ names))
  unfolding drain_round
  round-names s' response keys names rest parsed fine = ground (arith, parsed, fine)

  -- If the server's pages hold these names, the last page marked as the end, the loop yields
  -- exactly the names of all the pages in their order, after those it has.
  pub drain_lem :
      (pages : List (List Text)) (s : S) (keys : List Text)
      → Lists pages s
      → (s' : S) × (drain is_utf8 transport (length pages) s token keys
          ≡ some (s', ok (keys ++ joined pages)))
  unfolding Lists drain joined
  drain_lem [] s keys lists = absurd lists
  drain_lem (names ∷ []) s keys (s', response, k, answered, fine, last, bytes, size, good, more) = (
    s',
    ap (λ x. drain_round is_utf8 x keys (λ s' keys'. drain is_utf8 transport 0 s' token keys'))
          answered
        ∙ round-names s' response keys names _ (page-names names response k bytes size good) fine
        ∙ rw (last, append-nil names) refl,
  )
  drain_lem (names ∷ (page ∷ pages)) s keys
        (s', response, k, answered, fine, last, bytes, size, good, more) =
      let (s'', done) = drain_lem (page ∷ pages) s' (keys ++ names) (more refl) in
      (
        s'',
        ap
              (λ x.
                drain_round is_utf8 x keys
                  (λ s' keys'. drain is_utf8 transport (length (page ∷ pages)) s' token keys'))
              answered
            ∙ round-names s' response keys names _ (page-names names response k bytes size good)
                fine
            ∙ rw last (
                done
                ∙ ap (λ (all : List Text). some (s'', ok all))
                    (append_assoc keys names (joined (page ∷ pages)))),
      )
