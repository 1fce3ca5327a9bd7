-- ===== src/Pddb/Client/Copies.antt =====
-- One entry of a batch: the guards and the six copies of `PddbClient::write_batch`
-- (crates/xous-pddb-ipc/src/client.rs) into a page of zeros.
use xous_app_signal.Prelude.{
  take-append, ℕ, zero, suc, ◌+◌, ◌-◌, ◌%◌, ◌≤◌, ◌≡◌, refl, ap, some, subst, [], ◌∷◌, ◌++◌,
  append_assoc, length, length-append, drop, ok, err, arith,
}
use xous_app_signal.Backend.{Bytes, Entry}
use xous_app_signal.Pddb
use xous_app_signal.Pddb.{ErrorKind, zeros, max_pddb_write_batch_len}
use xous_app_signal.Pddb.Client.Format.{encoded, Caps, length-encoded}
use xous_app_signal.Pddb.Client.{copy_at, u16_le, pack_entry, check_entry}

pub length-zeros : (n : ℕ) → length (zeros n) ≡ n
length-zeros zero = refl
length-zeros (suc n) = ap suc (length-zeros n)

pub zero_plus : (k : ℕ) → 0 + k ≡ k
zero_plus k = omega arith

pub suc_add : (n k : ℕ) → suc n + k ≡ suc (n + k)
suc_add n k = omega arith

drop-zeros : (n k : ℕ) → drop n (zeros (n + k)) ≡ zeros k
drop-zeros zero k = ground arith
drop-zeros (suc n) k = rw (suc_add n k) (drop-zeros n k)

drop-past : (xs : Bytes) (n : ℕ) (ys : Bytes) → drop (length xs + n) (xs ++ ys) ≡ drop n ys
drop-past [] n ys = ground arith
drop-past (x ∷ xs) n ys = rw (suc_add (length xs) n) (drop-past xs n ys)

-- A copy right after what is written, into the zeros that are left.
pub copy_at_lem :
    (w bytes : Bytes) (k : ℕ)
    → copy_at (w ++ zeros (length bytes + k), length w) bytes
      ≡ some ((w ++ bytes) ++ zeros k, length (w ++ bytes))
unfolding copy_at
copy_at_lem w bytes k = ground (
  arith,
  take-append w (zeros (length bytes + k)),
  drop-past w (length bytes) (zeros (length bytes + k)),
  drop-zeros (length bytes) k,
  length-append w bytes,
  length-append w (zeros (length bytes + k)),
  length-zeros (length bytes + k),
  append_assoc w bytes (zeros k),
)

-- The six copies of an entry, one after another.
packed : Bytes → Entry → Bytes
packed w (dict, key, value) =
    (((((w ++ (length dict % 256 ∷ [])) ++ dict) ++ (length key % 256 ∷ [])) ++ key)
      ++ u16_le (length value))
    ++ value

left_of : Entry → ℕ → ℕ
left_of (dict, key, value) k = 1 + (length dict + (1 + (length key + (2 + (length value + k)))))

pack_entry_copies :
    (w : Bytes) (entry : Entry) (k : ℕ)
    → pack_entry (w ++ zeros (left_of entry k), length w) entry
      ≡ some (packed w entry ++ zeros k, length (packed w entry))
unfolding pack_entry packed left_of
pack_entry_copies w (dict, key, value) k =
    let a = w ++ (length dict % 256 ∷ []) in
    let b = a ++ dict in
    let c = b ++ (length key % 256 ∷ []) in
    let d = c ++ key in
    let e = d ++ u16_le (length value) in
    rw
      (
        copy_at_lem w (length dict % 256 ∷ [])
            (length dict + (1 + (length key + (2 + (length value + k))))),
        copy_at_lem a dict (1 + (length key + (2 + (length value + k)))),
        copy_at_lem b (length key % 256 ∷ []) (length key + (2 + (length value + k))),
        copy_at_lem c key (2 + (length value + k)),
        copy_at_lem d (u16_le (length value)) (length value + k),
        copy_at_lem e value k,
      )
      refl

byte_lem : (n : ℕ) → n ≤ 255 → n % 256 ≡ n
byte_lem n h = omega arith

packed-encoded : (w : Bytes) (entry : Entry) → Caps entry → packed w entry ≡ w ++ encoded entry
unfolding packed encoded
packed-encoded w (dict, key, value) (_, d, k, _) =
    let a = length dict % 256 ∷ [] in
    let b = length key % 256 ∷ [] in
    let u = u16_le (length value) in
    rw
      (
        append_assoc ((((w ++ a) ++ dict) ++ b) ++ key) u value,
        append_assoc (((w ++ a) ++ dict) ++ b) key (u ++ value),
        append_assoc ((w ++ a) ++ dict) b (key ++ (u ++ value)),
        append_assoc (w ++ a) dict (b ++ (key ++ (u ++ value))),
        append_assoc w a (dict ++ (b ++ (key ++ (u ++ value)))),
      )
      (rw (byte_lem (length dict) (omega (arith, d)), byte_lem (length key) (omega (arith, k)))
        refl)

abbrev pub Fits : ℕ → Entry → Type 0
Fits index entry = Caps entry × (index + length (encoded entry) + 1 ≤ max_pddb_write_batch_len)

pub check_entry-ok :
    (index : ℕ) (entry : Entry) → Fits index entry → check_entry index entry ≡ ok tt
unfolding check_entry
check_entry-ok index (dict, key, value) ((a, b, c, d), e) =
    ground (arith, a, b, c, d, e, length-encoded dict key value)

pub check_entry-Fits :
    (index : ℕ) (entry : Entry) → check_entry index entry ≡ ok tt → Fits index entry
unfolding check_entry
check_entry-Fits index (dict, key, value) h = (
  (ground (arith, h), ground (arith, h), ground (arith, h), ground (arith, h)),
  ground (arith, h, length-encoded dict key value),
)

pub check_entry-kind :
    (index : ℕ) (entry : Entry) (e : Pddb.Error)
    → check_entry index entry ≡ err e
    → e.kind ≡ ErrorKind.invalid_input
unfolding check_entry
check_entry-kind index (dict, key, value) e h = ground (arith, h)

pub pack_entry_lem :
    (w : Bytes) (entry : Entry) (k : ℕ)
    → Caps entry
    → length (encoded entry) ≤ k
    → pack_entry (w ++ zeros k, length w) entry
      ≡ some
          ((w ++ encoded entry) ++ zeros (k - length (encoded entry)), length (w ++ encoded entry))
unfolding left_of
pack_entry_lem w (dict, key, value) k caps fits =
    let size = length (encoded (dict, key, value)) in
    let room = length-encoded dict key value in
    subst
      (λ n.
        pack_entry (w ++ zeros n, length w) (dict, key, value)
        ≡ some (
          (w ++ encoded (dict, key, value)) ++ zeros (k - size),
          length (w ++ encoded (dict, key, value)),
        ))
      (omega (arith, room, fits))
      (subst
        (λ p.
          pack_entry (w ++ zeros (left_of (dict, key, value) (k - size)), length w)
            (dict, key, value)
          ≡ some (p ++ zeros (k - size), length p))
        (packed-encoded w (dict, key, value) caps)
        (pack_entry_copies w (dict, key, value) (k - size)))
