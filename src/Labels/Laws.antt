-- ===== src/Labels/Laws.antt =====
-- What the text helpers promise: bounded length, exact decimal digits, and the shape of the text
-- that counts as a raw UUID.
use xous_app_signal.Prelude.{
  ℕ, zero, suc, ◌+◌, ◌-◌, ◌*◌, ◌/◌, ◌%◌, ◌≤◌, ◌<◌, ◌≡◌, refl, ap, ltb→lt, ◌∙◌, ◌⊎◌, inl, inr, min,
  true, [], ◌∷◌, arith, Text, ltb, length, take, length-append, length-take, Bool-cases,
}
use xous_app_signal.Labels.{
  ellipsis, ellipsize, decimal_from, decimal, utf8_len, is_ascii_hexdigit, dashed_from, all_hex,
  looks_like_raw_uuid,
}

-- The result has at most `max` characters, as many as fit, and a text that fits is unchanged.
pub length-ellipsize :
    (s : Text) (max : ℕ)
    → (length (ellipsize s max) ≡ min (length s) max) × (length s ≤ max → ellipsize s max ≡ s)
unfolding ellipsize
length-ellipsize [] max = ground arith
length-ellipsize (c ∷ s) max =
    ground
      (arith, length-append (take (max - 1) (c ∷ s)) (ellipsis ∷ []), length-take (max - 1) (c ∷ s))

-- The number that a text of decimal digits reads as, from left to right.
unfoldable pub read : ℕ → Text → ℕ
read acc [] = acc
read acc (c ∷ s) = read (acc * 10 + (c - b'0')) s

read-decimal_from :
    (fuel n : ℕ) (acc : Text) → n < fuel → read 0 (decimal_from fuel n acc) ≡ read n acc
unfolding decimal_from read
read-decimal_from zero n acc h = absurd (omega arith)
read-decimal_from (suc fuel) n acc h = elim (Bool-cases (ltb n 10)) [
  | inl small ↦ rw small (ap (λ t. read t acc) (omega (arith, ltb→lt n 10 small)))
  | inr large ↦
      let some_left : 10 ≤ n = ground arith in
      rw large (
        read-decimal_from fuel (n / 10) ((n % 10 + b'0') ∷ acc) (omega arith)
        ∙ ap (λ t. read t acc) (omega arith))
]

-- The decimal digits of a number read back as that number: the fuel is enough for every number.
pub read-decimal : (n : ℕ) → read 0 (decimal n) ≡ n
unfolding decimal read
read-decimal n = read-decimal_from (suc n) n [] (omega arith)

hex_is_one_byte : (c : ℕ) → is_ascii_hexdigit c ≡ true → c < 0x80
unfolding is_ascii_hexdigit
hex_is_one_byte c h = ground arith

all_hex-utf8_len : (s : Text) → all_hex s ≡ true → utf8_len s ≡ length s
unfolding all_hex utf8_len
all_hex-utf8_len [] h = refl
all_hex-utf8_len (c ∷ s) h = ground (arith, hex_is_one_byte c, all_hex-utf8_len s)

dashed_from-utf8_len : (i : ℕ) (s : Text) → dashed_from i s ≡ true → utf8_len s ≡ length s
unfolding dashed_from utf8_len
dashed_from-utf8_len i [] h = refl
dashed_from-utf8_len i (c ∷ s) h = ground (arith, hex_is_one_byte c, dashed_from-utf8_len (suc i) s)

-- Only a text of 32 or 36 characters passes for a raw UUID, and each of its characters is one
-- byte long: a hexadecimal digit or a dash.
pub looks_like_raw_uuid-length :
    (s : Text)
    → looks_like_raw_uuid s ≡ true
    → (utf8_len s ≡ length s) × ((length s ≡ 32) ⊎ (length s ≡ 36))
unfolding looks_like_raw_uuid
looks_like_raw_uuid-length s h = ground (arith, all_hex-utf8_len s, dashed_from-utf8_len 0 s)
