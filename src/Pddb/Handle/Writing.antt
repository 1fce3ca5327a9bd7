-- ===== src/Pddb/Handle/Writing.antt =====
-- `write_all` through the pages of a `KeyHandle` (crates/xous-pddb-ipc/src/client.rs), with a
-- server that stores the pages it is sent.
use xous_app_signal.Prelude.{
  ℕ, zero, suc, ◌+◌, ◌%◌, ◌^◌, ◌≤◌, ◌<◌, ◌≡◌, refl, ap, subst, sym, ◌∙◌, some, [], ◌∷◌, ◌++◌,
  append-nil, append_assoc, length, length-append, length-take, length-drop, take-drop, take, drop,
  ok, arith,
}
use xous_app_signal.Backend.{Bytes}
use xous_app_signal.Pddb.{pddb_buf_data_len, PddbRetcode, Opcode, ApiToken, PddbBuf, Transport}
use xous_app_signal.Pddb.Requests.{KeyHandle}
use xous_app_signal.Pddb.Handle.{
  write, write_reply, write_round, write_all, chunk_len, primed, advance,
}

write_reply-ok :
    (h : KeyHandle) (n : ℕ) (page : PddbBuf)
    → page.retcode ≡ PddbRetcode.ok
    → page.len ≤ n
    → write_reply h n page ≡ (advance h page.len page, ok page.len)
unfolding write_reply
write_reply-ok h n page fine len = ground (arith, fine, len)

-- The page holds the chunk, whatever was behind it: so does each start of it.
take-chunk :
    (m n : ℕ) (bytes rest : Bytes)
    → m ≤ n
    → n ≤ length bytes
    → take m (take n bytes ++ rest) ≡ take m bytes
take-chunk zero n bytes rest h fits = refl
take-chunk (suc m) zero bytes rest h fits = absurd (omega (arith, h))
take-chunk (suc m) (suc n) [] rest h fits = absurd (omega (arith, fits))
take-chunk (suc m) (suc n) (b ∷ bytes) rest h fits =
    ap (b ∷◌) (take-chunk m n bytes rest (omega (arith, h)) (omega (arith, fits)))

chunk_len-fits : (n : ℕ) → 1 ≤ n → (1 ≤ chunk_len n) × (chunk_len n ≤ n) × (chunk_len n ≤ 4072)
chunk_len-fits n h = ground arith

u16_chunk : (n : ℕ) → n ≤ 4072 → n % 2 ^ 16 ≡ n
u16_chunk n h = omega arith

module _ {S : Type 0} (transport : Transport S) where
  -- A server that appends bytes of the page to what it holds under the token, at its end: the first
  -- `len` of its answer, at least one and at most those of the page. It may take fewer than it is
  -- sent, as the documentation of `PddbBuf` says.
  abbrev pub Stores : ApiToken → (Bytes → S → Type 0) → Type 0
  Stores token P =
      (held : Bytes) (s : S) (page : PddbBuf)
      → P held s
      → page.token ≡ token
      → page.position ≡ length held
      → 1 ≤ page.len
      → page.len ≤ pddb_buf_data_len
      → (page' : PddbBuf) × ((transport.page s Opcode.write_key page).1 ≡ some page')
        × (page'.retcode ≡ PddbRetcode.ok)
        × (1 ≤ page'.len)
        × (page'.len ≤ page.len)
        × P (held ++ take page'.len page.data_bytes) (transport.page s Opcode.write_key page).0

  module _ (token : ApiToken) (P : Bytes → S → Type 0) (stores : Stores token P) where
    -- One `write` takes some bytes, and reports how many.
    write_chunk :
        (held : Bytes) (s : S) (h : KeyHandle) (bytes : Bytes)
        → P held s
        → h.token ≡ token
        → h.pos ≡ length held
        → 1 ≤ length bytes
        → length held + length bytes < 2 ^ 64
        → (s' : S) × (h' : KeyHandle) × (m : ℕ) × (write transport s h bytes ≡ ((s', h'), ok m))
          × (1 ≤ m)
          × (m ≤ length bytes)
          × P (held ++ take m bytes) s'
          × (h'.token ≡ token)
          × (h'.pos ≡ length held + m)
    unfolding write
    write_chunk held s h [] p t pos some_bytes small = absurd (omega (arith, some_bytes))
    write_chunk held s h (b ∷ bytes) p t pos some_bytes small =
        let n = chunk_len (length (b ∷ bytes)) in
        let (pos_n, fits, cap) = chunk_len-fits (length (b ∷ bytes)) some_bytes in
        let same = u16_chunk n cap in
        let page = primed h n (take n (b ∷ bytes) ++ drop n h.buf.data_bytes) in
        let (page', answered, fine, some_taken, taken, kept) =
          stores held s page p t pos (omega (arith, same, pos_n)) (omega (arith, same, cap)) in
        let below : page'.len ≤ n = omega (arith, taken, same) in
        (
          (transport.page s Opcode.write_key page).0,
          advance h page'.len page',
          page'.len,
          rw (write, answered, write_reply-ok h n page' fine below) refl,
          some_taken,
          omega (arith, below, fits),
          subst (λ bs. P (held ++ bs) (transport.page s Opcode.write_key page).0)
              (take-chunk page'.len n (b ∷ bytes) (drop n h.buf.data_bytes) below fits) kept,
          t,
          omega (arith, pos, below, fits, small),
        )

    write_all-more :
        (fuel n : ℕ) (s s' : S) (h h' : KeyHandle) (bytes : Bytes)
        → write transport s h bytes ≡ ((s', h'), ok n)
        → 1 ≤ n
        → 1 ≤ length bytes
        → write_all transport (suc fuel) s h bytes ≡ write_all transport fuel s' h' (drop n bytes)
    unfolding write_all write_round
    write_all-more fuel n s s' h h' [] e pos some_bytes = absurd (omega (arith, some_bytes))
    write_all-more fuel zero s s' h h' (b ∷ bytes) e pos some_bytes = absurd (omega (arith, pos))
    write_all-more fuel (suc n) s s' h h' (b ∷ bytes) e pos some_bytes =
        ap (λ x. write_round x (b ∷ bytes) (λ s h o. write_all transport fuel s h o)) e

    -- Writing through a handle at the end of what the server holds ends, and appends the bytes.
    pub write_all_lem :
        (fuel : ℕ) (held : Bytes) (s : S) (h : KeyHandle) (bytes : Bytes)
        → P held s
        → h.token ≡ token
        → h.pos ≡ length held
        → length held + length bytes < 2 ^ 64
        → length bytes < fuel
        → (s' : S) × (h' : KeyHandle) × (write_all transport fuel s h bytes
            ≡ some ((s', h'), ok tt))
          × P (held ++ bytes) s'
          × (h'.token ≡ token)
    unfolding write_all
    write_all_lem zero held s h bytes p t pos small enough = absurd (omega (arith, enough))
    write_all_lem (suc fuel) held s h [] p t pos small enough =
        (s, h, refl, subst (λ (bs : Bytes). P bs s) (sym (append-nil held)) p, t)
    write_all_lem (suc fuel) held s h (b ∷ bytes) p t pos small enough =
        let all = b ∷ bytes in
        let (s', h', n, wrote, pos_n, fits, p', t', moved) =
          write_chunk held s h all p t pos (omega arith) small in
        let sum = length-append held (take n all) in
        let (s'', h'', done, p'', t'') =
          write_all_lem fuel (held ++ take n all) s' h' (drop n all) p' t'
            (omega (arith, moved, sum, length-take n all, fits))
            (omega (arith, sum, length-take n all, length-drop n all, small, fits))
            (omega (arith, length-drop n all, pos_n, enough)) in
        (
          s'',
          h'',
          write_all-more fuel n s s' h h' all wrote pos_n (omega arith) ∙ done,
          subst (λ (bs : Bytes). P bs s'')
              (append_assoc held (take n all) (drop n all)
                ∙ ap (λ (bs : Bytes). held ++ bs) (take-drop n all))
              p'',
          t'',
        )
