-- ===== src/Pddb/Handle/Streaming.antt =====
-- Values of any size through the pages of a `KeyHandle`: the loops of `read_all`
-- (crates/presage-store-pddb/src/backend_pddb.rs) and of `write_all` over
-- crates/xous-pddb-ipc/src/client.rs, with a server that serves and stores the pages it is asked to.
use xous_app_signal.Prelude.{
  ℕ, zero, suc, ◌+◌, ◌*◌, ◌-◌, ◌^◌, ◌≤◌, ◌<◌, ◌≡◌, refl, ap, sym, ◌∙◌, min, some, [], ◌∷◌, ◌++◌,
  append-nil, append_assoc, length, length-take, length-drop, drop-plus, take-drop, nil_of_length,
  ◌⊎◌, inl, inr, take, drop, ok, arith,
}
use xous_app_signal.Backend.{Bytes}
use xous_app_signal.Pddb.{PddbRetcode, Opcode, ApiToken, PddbBuf, Transport}
use xous_app_signal.Pddb.Requests.{KeyHandle}
use xous_app_signal.Pddb.Handle.{read, read_reply, read_round, read_all, primed, advance, with_page}

chunk-then-rest :
    (out value : Bytes) (p p' k : ℕ)
    → p' ≡ p + k
    → (out ++ take k (drop p value)) ++ drop p' value ≡ out ++ drop p value
chunk-then-rest out value p p' k moved =
    rw
      (
        append_assoc out (take k (drop p value)) (drop p' value),
        moved,
        sym (drop-plus p k value),
        take-drop k (drop p value),
      )
      refl

one_more : (n k : ℕ) → suc n * k ≡ n * k + k
one_more n k = omega arith

lt-cases : (m n : ℕ) → (m < n) ⊎ (n ≤ m)
lt-cases m n = ground arith

read_reply-ok :
    (h : KeyHandle) (n : ℕ) (page : PddbBuf)
    → page.retcode ≡ PddbRetcode.ok
    → page.len ≤ n
    → read_reply h n page ≡ (advance h page.len page, ok (take page.len page.data_bytes))
unfolding read_reply
read_reply-ok h n page fine len = ground (arith, fine, len)

read_reply-eof :
    (h : KeyHandle) (n : ℕ) (page : PddbBuf)
    → page.retcode ≡ PddbRetcode.unexpected_eof
    → read_reply h n page ≡ (with_page h page, ok [])
unfolding read_reply
read_reply-eof h n page fine = ground (arith, fine)

module _ {S : Type 0} (transport : Transport S) where
  -- What the server answers to a read of the value behind a token: bytes at the position, no more
  -- than are asked for and there, and no fewer than `least` of them; behind them the end of file.
  abbrev pub Served : ℕ → Bytes → PddbBuf → PddbBuf → Type 0
  Served least value page page' =
      (page.position < length value
        → (page'.retcode ≡ PddbRetcode.ok)
          × (page'.len ≤ min page.len (length value - page.position))
          × (min least (min page.len (length value - page.position)) ≤ page'.len)
          × (take page'.len page'.data_bytes ≡ take page'.len (drop page.position value)))
      × (length value ≤ page.position → page'.retcode ≡ PddbRetcode.unexpected_eof)

  abbrev pub Serves : ℕ → ApiToken → Bytes → (S → Type 0) → Type 0
  Serves least token value P =
      (s : S) (page : PddbBuf)
      → P s
      → page.token ≡ token
      → P (transport.page s Opcode.read_key page).0
        × ((page' : PddbBuf) × ((transport.page s Opcode.read_key page).1 ≡ some page')
            × Served least value page page')

  module _ (least : ℕ) (some_least : 1 ≤ least) (least_fits : least ≤ 4072) (token : ApiToken)
      (value : Bytes) (P : S → Type 0) (serves : Serves least token value P)
      (small : length value < 2 ^ 64) where
    -- One `read` of the loop, before the end of the value and at it.
    read_chunk :
        (s : S) (h : KeyHandle)
        → P s
        → h.token ≡ token
        → h.pos < length value
        → (s' : S) × (h' : KeyHandle) × (k : ℕ) × (read transport s h 4096
            ≡ ((s', h'), ok (take k (drop h.pos value))))
          × (k ≤ length value - h.pos)
          × (min least (length value - h.pos) ≤ k)
          × P s'
          × (h'.token ≡ token)
          × (h'.pos ≡ h.pos + k)
    unfolding read
    read_chunk s h p t below =
        let page = primed h 4072 h.buf.data_bytes in
        let (kept, (page', answered, (early, late))) = serves s page p t in
        let (fine, most, at_least, bytes) = early below in
        (
          (transport.page s Opcode.read_key page).0,
          advance h page'.len page',
          page'.len,
          rw (read, answered, read_reply-ok h 4072 page' fine (omega (arith, most)), bytes) refl,
          omega (arith, most),
          omega (arith, at_least, least_fits),
          kept,
          t,
          omega (arith, most, below, small),
        )

    read_end :
        (s : S) (h : KeyHandle)
        → P s
        → h.token ≡ token
        → length value ≤ h.pos
        → (s' : S) × (h' : KeyHandle) × (read transport s h 4096 ≡ ((s', h'), ok []))
          × P s'
          × (h'.token ≡ token)
    unfolding read
    read_end s h p t past =
        let page = primed h 4072 h.buf.data_bytes in
        let (kept, (page', answered, (early, late))) = serves s page p t in
        (
          (transport.page s Opcode.read_key page).0,
          with_page h page',
          rw (read, answered, read_reply-eof h 4072 page' (late past)) refl,
          kept,
          t,
        )

    read_all-more :
        (n : ℕ) (s s' : S) (h h' : KeyHandle) (out bytes : Bytes)
        → read transport s h 4096 ≡ ((s', h'), ok bytes)
        → 1 ≤ length bytes
        → read_all transport (suc n) s h out ≡ read_all transport n s' h' (out ++ bytes)
    unfolding read_all read_round
    read_all-more n s s' h h' out [] e some_bytes = absurd (omega (arith, some_bytes))
    read_all-more n s s' h h' out (b ∷ bytes) e some_bytes =
        ap (λ x. read_round x out (λ s h o. read_all transport n s h o)) e

    read_all-last :
        (n : ℕ) (s s' : S) (h h' : KeyHandle) (out : Bytes)
        → read transport s h 4096 ≡ ((s', h'), ok [])
        → read_all transport (suc n) s h out ≡ some ((s', h'), ok out)
    unfolding read_all read_round
    read_all-last n s s' h h' out e =
        ap (λ x. read_round x out (λ s h o. read_all transport n s h o)) e

    read_all-rest :
        (chunks : ℕ) (s : S) (h : KeyHandle) (out : Bytes)
        → P s
        → h.token ≡ token
        → length value ≤ h.pos
        → (s' : S) × (h' : KeyHandle) × (read_all transport (suc chunks) s h out
            ≡ some ((s', h'), ok (out ++ drop h.pos value)))
          × P s'
          × (h'.token ≡ token)
    read_all-rest chunks s h out p t past =
        let (s', h', got, p', t') = read_end s h p t past in
        (
          s',
          h',
          rw
              (
                read_all-last chunks s s' h h' out got,
                nil_of_length (drop h.pos value) (omega (arith, length-drop h.pos value, past)),
                append-nil out,
              )
              refl,
          p',
          t',
        )

    -- Any handle inside the value reads the rest of it, with a read per `least` bytes and one for
    -- the end of file.
    pub read_all_lem :
        (chunks : ℕ) (s : S) (h : KeyHandle) (out : Bytes)
        → P s
        → h.token ≡ token
        → h.pos ≤ length value
        → length value ≤ chunks * least + h.pos
        → (s' : S) × (h' : KeyHandle) × (read_all transport (suc chunks) s h out
            ≡ some ((s', h'), ok (out ++ drop h.pos value)))
          × P s'
          × (h'.token ≡ token)
    read_all_lem zero s h out p t within enough =
        read_all-rest zero s h out p t (omega (arith, enough))
    read_all_lem (suc chunks) s h out p t within enough = elim (lt-cases h.pos (length value)) [
      | inl below ↦
          let (s', h', k, got, most, at_least, p', t', moved) = read_chunk s h p t below in
          let size = length-take k (drop h.pos value) in
          let left = length-drop h.pos value in
          let (s'', h'', done, p'', t'') =
            read_all_lem chunks s' h' (out ++ take k (drop h.pos value)) p' t'
              (omega (arith, moved, below, most))
              (omega (arith, moved, enough, below, at_least, one_more chunks least)) in
          (
            s'',
            h'',
            read_all-more (suc chunks) s s' h h' out _ got
                  (omega (arith, size, left, below, at_least, some_least))
                ∙ done
                ∙ ap (λ (o : Bytes). some ((s'', h''), ok o))
                    (chunk-then-rest out value h.pos h'.pos k moved),
            p'',
            t'',
          )
      | inr past ↦ read_all-rest (suc chunks) s h out p t past
    ]
