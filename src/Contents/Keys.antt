-- ===== src/Contents/Keys.antt =====
-- The keys of messages: `message_key` of crates/presage-store-pddb/src/content.rs, and the parser
-- that `messages` reads them back with.
use native.Mathlib.Nat.{pow-suc}
use Prim.Native.Nat.{compare, Ordering}
use Prim.Native.Nat.Ordering.{lt, eq, gt}
use xous_app_signal.Prelude.{
  ℕ, zero, suc, ◌+◌, ◌*◌, ◌/◌, ◌%◌, ◌^◌, ◌<◌, ◌≡◌, refl, sym, ap, ◌∙◌, false, some, Text, [], ◌∷◌,
  ◌++◌, length, length-append, nat_beq, arith, Option-cases, inl, inr,
}
use xous_app_signal.Collections.BTreeSet.{text_cmp}
use xous_app_signal.Contents.{
  hex_digit, hex_digits, message_key, digit_value, read_hex, from_str_radix_16,
}

abbrev then_by : Ordering → Ordering → Ordering
then_by eq o = o
then_by lt o = lt
then_by gt o = gt

pub length-hex_digits : (n v : ℕ) → length (hex_digits n v) ≡ n
unfolding hex_digits
length-hex_digits zero v = refl
length-hex_digits (suc n) v = omega (
  arith,
  length-append (hex_digits n (v / 16)) (hex_digit (v % 16) ∷ []),
  length-hex_digits n (v / 16),
)

text_cmp-last :
    (xs ys : Text) (c d : ℕ)
    → length xs ≡ length ys
    → text_cmp (xs ++ (c ∷ [])) (ys ++ (d ∷ [])) ≡ then_by (text_cmp xs ys) (compare c d)
unfolding text_cmp
text_cmp-last [] [] c d h = ground arith
text_cmp-last [] (y ∷ ys) c d h = absurd (omega (arith, h))
text_cmp-last (x ∷ xs) [] c d h = absurd (omega (arith, h))
text_cmp-last (x ∷ xs) (y ∷ ys) c d h = ground (arith, h, text_cmp-last xs ys c d)

compare-digits :
    (a b : ℕ)
    → then_by (compare (a / 16) (b / 16)) (compare (hex_digit (a % 16)) (hex_digit (b % 16)))
      ≡ compare a b
compare-digits a b = ground arith

pow_suc : (n : ℕ) → 16 ^ suc n ≡ 16 ^ n * 16
pow_suc n = pow-suc 16 n

div_bound : (n v : ℕ) → v < 16 ^ suc n → v / 16 < 16 ^ n
div_bound n v h = omega (arith, h, pow_suc n)

text_cmp-hex_digits :
    (n a b : ℕ) → a < 16 ^ n → b < 16 ^ n → text_cmp (hex_digits n a) (hex_digits n b) ≡ compare a b
unfolding hex_digits text_cmp
text_cmp-hex_digits zero a b ha hb = ground (arith, ha, hb)
text_cmp-hex_digits (suc n) a b ha hb =
    text_cmp-last (hex_digits n (a / 16)) (hex_digits n (b / 16)) (hex_digit (a % 16))
      (hex_digit (b % 16)) (length-hex_digits n (a / 16) ∙ sym (length-hex_digits n (b / 16)))
    ∙ ap (λ o. then_by o (compare (hex_digit (a % 16)) (hex_digit (b % 16))))
        (text_cmp-hex_digits n (a / 16) (b / 16) (div_bound n a ha) (div_bound n b hb))
    ∙ compare-digits a b

-- The keys of messages sort as their timestamps: on the timestamps of 64 bits, the order of the keys'
-- texts is the order of the numbers, so that distinct timestamps have distinct keys.
pub text_cmp-message_key :
    (a b : ℕ) → a < 2 ^ 64 → b < 2 ^ 64 → text_cmp (message_key a) (message_key b) ≡ compare a b
unfolding message_key
text_cmp-message_key a b ha hb = text_cmp-hex_digits 16 a b (omega (arith, ha)) (omega (arith, hb))

read_hex-append :
    (xs ys : Text) (acc v : ℕ) → read_hex acc xs ≡ some v → read_hex acc (xs ++ ys) ≡ read_hex v ys
unfolding read_hex
read_hex-append [] ys acc v h = ground (arith, h)
read_hex-append (x ∷ xs) ys acc v h = elim (Option-cases (digit_value x)) [
  | inl bad ↦ ground (arith, h, bad)
  | inr (d, good) ↦
      rw (read_hex, good) (read_hex-append xs ys (acc * 16 + d) v (ground (arith, h, good)))
]

digit_value-hex_digit : (d : ℕ) → d < 16 → digit_value (hex_digit d) ≡ some d
unfolding digit_value
digit_value-hex_digit d h = ground (arith, h)

pub read_hex-hex_digits : (n v : ℕ) → v < 16 ^ n → read_hex 0 (hex_digits n v) ≡ some v
unfolding hex_digits read_hex
read_hex-hex_digits zero v h = ground (arith, h)
read_hex-hex_digits (suc n) v h =
    read_hex-append (hex_digits n (v / 16)) (hex_digit (v % 16) ∷ []) 0 (v / 16)
      (read_hex-hex_digits n (v / 16) (div_bound n v h))
    ∙ rw (read_hex, digit_value-hex_digit (v % 16) (omega arith)) (ap some (omega arith))

pub hex_digits-cons :
    (n v : ℕ) → (c : ℕ) × (s : Text) × (hex_digits (suc n) v ≡ c ∷ s) × (nat_beq c b'+' ≡ false)
unfolding hex_digits
hex_digits-cons zero v = (hex_digit (v % 16), [], refl, ground arith)
hex_digits-cons (suc n) v =
    let (c, s, shape, plain) = hex_digits-cons n (v / 16) in
    (c, s ++ (hex_digit (v % 16) ∷ []), ap (λ t. t ++ (hex_digit (v % 16) ∷ [])) shape, plain)

pub parse-digits :
    (limit c v : ℕ) (s : Text)
    → nat_beq c b'+' ≡ false
    → read_hex 0 (c ∷ s) ≡ some v
    → v < limit
    → from_str_radix_16 limit (c ∷ s) ≡ some v
unfolding from_str_radix_16
parse-digits limit c v s plain value small = rw (plain, value) (ground (arith, small))

-- The key of a timestamp of 64 bits is read back as that timestamp.
pub from_str_radix-message_key :
    (ts : ℕ) → ts < 2 ^ 64 → from_str_radix_16 (2 ^ 64) (message_key ts) ≡ some ts
unfolding message_key
from_str_radix-message_key ts h =
    let (c, s, shape, plain) = hex_digits-cons 15 ts in
    let value = ap (read_hex 0) (sym shape) ∙ read_hex-hex_digits 16 ts (omega (arith, h)) in
    ap (from_str_radix_16 (2 ^ 64)) shape ∙ parse-digits (2 ^ 64) c ts s plain value h
