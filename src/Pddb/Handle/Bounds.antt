-- ===== src/Pddb/Handle/Bounds.antt =====
-- The trust boundary of `KeyHandle::read` and `write` (crates/xous-pddb-ipc/src/client.rs): what any
-- server at all can make them return.
use xous_app_signal.Prelude.{
  ℕ, zero, suc, ◌≤◌, ◌≡◌, [], ◌∷◌, Option-cases, length, length-take, take, drop, ◌++◌, ok, arith,
  inl, inr,
}
use xous_app_signal.Backend.{Bytes}
use xous_app_signal.Pddb.{Opcode, PddbBuf, Transport}
use xous_app_signal.Pddb.Requests.{KeyHandle}
use xous_app_signal.Pddb.Handle.{read, write, read_reply, write_reply, chunk_len, primed}

reply_bound :
    (h : KeyHandle) (n : ℕ) (page : PddbBuf) (bytes : Bytes)
    → (read_reply h n page).1 ≡ ok bytes
    → length bytes ≤ n
unfolding read_reply
reply_bound h n page bytes e = ground (arith, e, length-take page.len page.data_bytes)

wrote_bound :
    (h : KeyHandle) (n : ℕ) (page : PddbBuf) (m : ℕ) → (write_reply h n page).1 ≡ ok m → m ≤ n
unfolding write_reply
wrote_bound h n page m e = ground (arith, e)

chunk_bound : (n : ℕ) → (chunk_len n ≤ n) × (chunk_len n ≤ 4072)
chunk_bound n = ground arith

module _ {S : Type 0} (transport : Transport S) where
  -- Whatever the server answers, a read yields no more bytes than the caller's buffer has and than
  -- a page holds.
  pub read_bound :
      (s : S) (h : KeyHandle) (size : ℕ) (bytes : Bytes)
      → (read transport s h size).1 ≡ ok bytes
      → (length bytes ≤ size) × (length bytes ≤ 4072)
  unfolding read
  read_bound s h zero bytes e = ground (arith, e)
  read_bound s h (suc size) bytes e =
      let page = primed h (chunk_len (suc size)) h.buf.data_bytes in
      let (low, cap) = chunk_bound (suc size) in
      elim (Option-cases (transport.page s Opcode.read_key page).1) [
        | inl lost ↦ ground (arith, e, lost)
        | inr (page', answered) ↦
            ground (arith, e, answered, reply_bound h (chunk_len (suc size)) page' bytes, low, cap)
      ]

  -- Whatever the server answers, a write reports no more bytes than it was given and than a page
  -- holds.
  pub write_bound :
      (s : S) (h : KeyHandle) (bytes : Bytes) (m : ℕ)
      → (write transport s h bytes).1 ≡ ok m
      → (m ≤ length bytes) × (m ≤ 4072)
  unfolding write
  write_bound s h [] m e = ground (arith, e)
  write_bound s h (b ∷ bytes) m e =
      let n = chunk_len (length (b ∷ bytes)) in
      let page = primed h n (take n (b ∷ bytes) ++ drop n h.buf.data_bytes) in
      let (low, cap) = chunk_bound (length (b ∷ bytes)) in
      elim (Option-cases (transport.page s Opcode.write_key page).1) [
        | inl lost ↦ ground (arith, e, lost)
        | inr (page', answered) ↦ ground (arith, e, answered, wrote_bound h n page' m, low, cap)
      ]
