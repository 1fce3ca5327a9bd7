-- ===== src/Pddb/Handle.antt =====
-- `impl Read` and `impl Write for KeyHandle` of crates/xous-pddb-ipc/src/client.rs, the standard
-- library's `write_all` over it, and `read_all` of crates/presage-store-pddb/src/backend_pddb.rs.
pub mod Streaming
pub mod Writing
pub mod Bounds
mod Examples
use xous_app_signal.Prelude.{
  ℕ, zero, suc, ◌+◌, ◌-◌, ◌%◌, ◌^◌, Bool, true, false, Option, none, some, String, Text, List, [],
  ◌∷◌, ◌++◌, length, take, drop, leb, ltb, if◌then◌else◌, Result, ok, err, ◌>>=◌,
}
use xous_app_signal.Backend.{Bytes}
use xous_app_signal.Pddb.{pddb_buf_data_len, PddbRetcode, Opcode, PddbBuf, Transport}
use xous_app_signal.Pddb.Requests.{KeyHandle}

-- The `io::ErrorKind`s of this code; `write_zero` is `write_all`'s own.
pub data IoKind : Type 0 where
  other broken_pipe permission_denied out_of_memory write_zero : IoKind

-- `code`: the `Debug` form that ends the message, where there is one.
pub record IoError : Type 0 where
  pub kind : IoKind
  pub msg : String
  pub code : Option PddbRetcode

abbrev pub io_fail {ℓ} : {A : Type ℓ} → IoKind → String → Result A IoError
io_fail kind msg = err (record { kind = kind; msg = msg; code = none })

abbrev pub advance : KeyHandle → ℕ → PddbBuf → KeyHandle
advance h n page = record { token = h.token; pos = (h.pos + n) % 2 ^ 64; buf = page }

abbrev pub with_page : KeyHandle → PddbBuf → KeyHandle
with_page h page = record { token = h.token; pos = h.pos; buf = page }

abbrev pub chunk_len : ℕ → ℕ
chunk_len n = if leb n pddb_buf_data_len then n else pddb_buf_data_len

-- The fields both requests set before the page is lent.
abbrev pub primed : KeyHandle → ℕ → Text → PddbBuf
primed h n data_bytes = record {
  token = h.token;
  retcode = PddbRetcode.uninit;
  reserved = h.buf.reserved;
  len = n % 2 ^ 16;
  position = h.pos;
  data_bytes = data_bytes;
}

-- The bytes `read` copies into the caller's buffer, and what it returns.
unfoldable pub read_reply : KeyHandle → ℕ → PddbBuf → KeyHandle × Result Bytes IoError
read_reply h readlen page = elim page.retcode [
  | PddbRetcode.ok ↦
      if ltb readlen page.len
      then (with_page h page, io_fail IoKind.other "server returned more data than requested")
      else (advance h page.len page, ok (take page.len page.data_bytes))
  | PddbRetcode.unexpected_eof ↦ (with_page h page, ok [])
  | PddbRetcode.basis_lost ↦ (with_page h page, io_fail IoKind.broken_pipe "basis lost")
  | PddbRetcode.access_denied ↦ (with_page h page, io_fail IoKind.permission_denied "access denied")
  | code ↦ (
    with_page h page,
    err (record { kind = IoKind.other; msg = "ReadKey retcode "; code = some code }),
  )
]

unfoldable pub write_reply : KeyHandle → ℕ → PddbBuf → KeyHandle × Result ℕ IoError
write_reply h writelen page = elim page.retcode [
  | PddbRetcode.ok ↦
      if ltb writelen page.len
      then (with_page h page, io_fail IoKind.other "server reported writing more than supplied")
      else (advance h page.len page, ok page.len)
  | PddbRetcode.disk_full ↦ (with_page h page, io_fail IoKind.out_of_memory "disk full")
  | PddbRetcode.basis_lost ↦ (with_page h page, io_fail IoKind.broken_pipe "basis lost")
  | PddbRetcode.access_denied ↦ (with_page h page, io_fail IoKind.permission_denied "access denied")
  | code ↦ (
    with_page h page,
    err (record { kind = IoKind.other; msg = "WriteKey retcode "; code = some code }),
  )
]

module _ {S : Type 0} where
  -- What `read_all` does with the outcome of one `read`.
  unfoldable pub read_round :
      (S × KeyHandle) × Result Bytes IoError
      → Bytes
      → (S → KeyHandle → Bytes → Option ((S × KeyHandle) × Result Bytes IoError))
      → Option ((S × KeyHandle) × Result Bytes IoError)
  read_round (at, err e) out rest = some (at, err e)
  read_round (at, ok []) out rest = some (at, ok out)
  read_round ((s', h'), ok (b ∷ bytes)) out rest = rest s' h' (out ++ (b ∷ bytes))

  -- What `Write::write_all` does with the outcome of one `write`.
  unfoldable pub write_round :
      (S × KeyHandle) × Result ℕ IoError
      → Bytes
      → (S → KeyHandle → Bytes → Option ((S × KeyHandle) × Result (Unit {0}) IoError))
      → Option ((S × KeyHandle) × Result (Unit {0}) IoError)
  write_round (at, err e) bytes rest = some (at, err e)
  write_round (at, ok zero) bytes rest =
      some (at, io_fail IoKind.write_zero "failed to write whole buffer")
  write_round ((s', h'), ok (suc n)) bytes rest = rest s' h' (drop (suc n) bytes)

module _ {S : Type 0} (transport : Transport S) where
  -- `read` into a buffer of `size` bytes: the bytes it fills it with, or the error.
  unfoldable pub read : S → KeyHandle → ℕ → (S × KeyHandle) × Result Bytes IoError
  read s h zero = ((s, h), ok [])
  read s h (suc size) =
      let readlen = chunk_len (suc size) in
      let page = primed h readlen h.buf.data_bytes in
      let (s', r) = transport.page s Opcode.read_key page in
      elim r [
        | none ↦ ((s', with_page h page), io_fail IoKind.other "lend_mut ReadKey")
        | some page' ↦ let (h', out) = read_reply h readlen page' in ((s', h'), out)
      ]

  -- `write` of a buffer: how many of its bytes were taken.
  unfoldable pub write : S → KeyHandle → Bytes → (S × KeyHandle) × Result ℕ IoError
  write s h [] = ((s, h), ok 0)
  write s h (b ∷ bytes) =
      let writelen = chunk_len (length (b ∷ bytes)) in
      let page = primed h writelen (take writelen (b ∷ bytes) ++ drop writelen h.buf.data_bytes) in
      let (s', r) = transport.page s Opcode.write_key page in
      elim r [
        | none ↦ ((s', with_page h page), io_fail IoKind.other "lend_mut WriteKey")
        | some page' ↦ let (h', out) = write_reply h writelen page' in ((s', h'), out)
      ]

  -- The loop of `read_all`; `none` is that `chunks` reads did not reach the end.
  unfoldable pub read_all :
      ℕ → S → KeyHandle → Bytes → Option ((S × KeyHandle) × Result Bytes IoError)
  read_all zero s h out = none
  read_all (suc chunks) s h out =
      read_round (read s h 4096) out (λ s' h' out'. read_all chunks s' h' out')

  -- `Write::write_all`: every round writes a byte at least, so the length is fuel enough.
  unfoldable pub write_all :
      ℕ → S → KeyHandle → Bytes → Option ((S × KeyHandle) × Result (Unit {0}) IoError)
  write_all zero s h bytes = none
  write_all (suc fuel) s h [] = some ((s, h), ok tt)
  write_all (suc fuel) s h (b ∷ bytes) =
      write_round (write s h (b ∷ bytes)) (b ∷ bytes) (λ s' h' bytes'. write_all fuel s' h' bytes')
