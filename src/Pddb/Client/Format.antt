-- ===== src/Pddb/Client/Format.antt =====
-- The wire format that `PddbWriteBatch` documents (crates/xous-pddb-ipc/src/api.rs): what an entry
-- looks like, and the reader of a page that it tells of.
use xous_app_signal.Prelude.{
  take-append, drop-append, ℕ, zero, suc, ◌+◌, ◌%◌, ◌/◌, ◌^◌, ◌*◌, ◌≤◌, ◌≡◌, refl, Option, none,
  some, Text, All, List, [], ◌∷◌, ◌++◌, append_assoc, length, length-append, take, drop, leb,
  if◌then◌else◌, arith,
}
use xous_app_signal.Backend.{Bytes, Entry}
use xous_app_signal.Pddb.Client.{u16_le, and_then}

-- The documented layout of one entry, and the reader of a page that it tells of.
unfoldable pub encoded : Entry → Bytes
encoded (dict, key, value) =
    (length dict ∷ dict) ++ ((length key ∷ key) ++ (u16_le (length value) ++ value))

unfoldable pub encoded_all : List Entry → Bytes
encoded_all [] = []
encoded_all (entry ∷ entries) = encoded entry ++ encoded_all entries

-- `n` bytes off the front of what is left of the page.
unfoldable pub take_bytes : ℕ → Bytes → Option (Bytes × Bytes)
take_bytes n page = if leb n (length page) then some (take n page, drop n page) else none

abbrev take_byte : Bytes → Option (ℕ × Bytes)
take_byte [] = none
take_byte (b ∷ page) = some (b, page)

unfoldable pub decode_entry : ℕ → Bytes → Option (Entry × Bytes)
decode_entry dict_len page = and_then (take_bytes dict_len page) (λ (dict, page).
    and_then (take_byte page) (λ (key_len, page). and_then (take_bytes key_len page) (λ (key, page).
      and_then (take_byte page) (λ (low, page). and_then (take_byte page) (λ (high, page).
        and_then (take_bytes (low + 256 * high) page)
          (λ (value, page). some ((dict, key, value), page)))))))

-- Entries up to a dictionary name of length 0; every entry takes a byte of the page at least.
unfoldable pub decode : ℕ → Bytes → Option (List Entry)
decode zero page = none
decode (suc fuel) [] = none
decode (suc fuel) (zero ∷ page) = some []
decode (suc fuel) (suc n ∷ page) =
    and_then (decode_entry (suc n) page)
      (λ (entry, page). and_then (decode fuel page) (λ entries. some (entry ∷ entries)))

abbrev pub Caps : Entry → Type 0
Caps (dict, key, value) =
    (1 ≤ length dict) × (length dict ≤ 110) × (length key ≤ 94) × (length value ≤ 65535)

pub take_bytes-append : (xs ys : Bytes) → take_bytes (length xs) (xs ++ ys) ≡ some (xs, ys)
unfolding take_bytes
take_bytes-append xs ys = ground (arith, take-append xs ys, drop-append xs ys, length-append xs ys)

pub length-encoded :
    (dict key : Text) (value : Bytes)
    → length (encoded (dict, key, value)) ≡ 1 + length dict + 1 + length key + 2 + length value
unfolding encoded
length-encoded dict key value = ground (
  arith,
  length-append dict ((length key ∷ key) ++ (u16_le (length value) ++ value)),
  length-append key (u16_le (length value) ++ value),
)

u16_lem : (n : ℕ) → n ≤ 65535 → n % 2 ^ 16 % 256 + 256 * (n % 2 ^ 16 / 256) ≡ n
u16_lem n h = omega arith

decode_entry-encoded :
    (dict key : Text) (value rest : Bytes)
    → length value ≤ 65535
    → decode_entry
        (length dict)
        (dict ++ (length key ∷ (key ++ (u16_le (length value) ++ (value ++ rest)))))
      ≡ some ((dict, key, value), rest)
unfolding decode_entry
decode_entry-encoded dict key value rest h =
    rw
      (
        take_bytes-append dict (length key ∷ (key ++ (u16_le (length value) ++ (value ++ rest)))),
        take_bytes-append key (u16_le (length value) ++ (value ++ rest)),
        u16_lem (length value) h,
        take_bytes-append value rest,
      )
      refl

encoded-append :
    (dict key : Text) (value rest : Bytes)
    → encoded (dict, key, value) ++ rest
      ≡ length dict ∷ (dict ++ (length key ∷ (key ++ (u16_le (length value) ++ (value ++ rest)))))
unfolding encoded
encoded-append dict key value rest =
    rw
      (
        append_assoc dict ((length key ∷ key) ++ (u16_le (length value) ++ value)) rest,
        append_assoc key (u16_le (length value) ++ value) rest,
      )
      refl

pub decode-encoded :
    (entries : List Entry) (rest : Bytes) (fuel : ℕ)
    → All Caps entries
    → length (encoded_all entries) + 1 ≤ fuel
    → decode fuel (encoded_all entries ++ (0 ∷ rest)) ≡ some entries
unfolding decode encoded_all
decode-encoded entries rest zero all h = absurd (omega (arith, h))
decode-encoded [] rest (suc fuel) all h = refl
decode-encoded (([], key, value) ∷ entries) rest (suc fuel) ((a, b, d, e), all) h =
    absurd (omega (arith, a))
decode-encoded ((c ∷ dict, key, value) ∷ entries) rest (suc fuel) ((a, b, d, e), all) h =
    rw
      (
        append_assoc (encoded (c ∷ dict, key, value)) (encoded_all entries) (0 ∷ rest),
        encoded-append (c ∷ dict) key value (encoded_all entries ++ (0 ∷ rest)),
        decode_entry-encoded (c ∷ dict) key value (encoded_all entries ++ (0 ∷ rest)) e,
        decode-encoded entries rest fuel all (
            omega (
              arith,
              h,
              length-append (encoded (c ∷ dict, key, value)) (encoded_all entries),
              length-encoded (c ∷ dict) key value,
            )),
      )
      refl
