-- ===== src/Contents/GroupKeys.antt =====
-- The names of groups read back: `group_key` and `parse_hex_master_key` of
-- crates/presage-store-pddb/src/content.rs.
use xous_app_signal.Prelude.{
  ℕ, ◌<◌, ◌*◌, ◌≡◌, refl, sym, ap, ◌∙◌, some, [], ◌∷◌, length, length-append, All, ok, arith,
}
use xous_app_signal.Backend.{Bytes}
use xous_app_signal.Contents.{read_hex, hex_digits, hex_encode, from_str_radix_16}
use xous_app_signal.Contents.Keys.{
  hex_digits-cons, read_hex-hex_digits, parse-digits, length-hex_digits,
}
use xous_app_signal.Contents.Records.{group_key, parse_pairs, parse_hex_master_key}

from_str_radix-byte : (b : ℕ) → b < 256 → from_str_radix_16 256 (hex_digits 2 b) ≡ some b
from_str_radix-byte b h =
    let (c, s, shape, plain) = hex_digits-cons 1 b in
    let value = ap (read_hex 0) (sym shape) ∙ read_hex-hex_digits 2 b (omega (arith, h)) in
    ap (from_str_radix_16 256) shape ∙ parse-digits 256 c b s plain value h

parse_pairs-hex_encode : (bs : Bytes) → All (λ b. b < 256) bs → parse_pairs (hex_encode bs) ≡ ok bs
unfolding parse_pairs hex_encode hex_digits
parse_pairs-hex_encode [] h = refl
parse_pairs-hex_encode (b ∷ bs) (small, h) =
    rw (parse_pairs, from_str_radix-byte b small) (rw (parse_pairs-hex_encode bs h) refl)

length-hex_encode : (bs : Bytes) → length (hex_encode bs) ≡ 2 * length bs
unfolding hex_encode
length-hex_encode [] = refl
length-hex_encode (b ∷ bs) = omega (
  arith,
  length-append (hex_digits 2 b) (hex_encode bs),
  length-hex_digits 2 b,
  length-hex_encode bs,
)

-- The name under which a group is stored reads back as the group's master key, whichever 32 bytes
-- that is.
pub parse_hex_master_key-group_key :
    (master_key : Bytes)
    → length master_key ≡ 32
    → All (λ b. b < 256) master_key
    → parse_hex_master_key (group_key master_key) ≡ ok master_key
unfolding parse_hex_master_key group_key
parse_hex_master_key-group_key master_key size small =
    rw (parse_hex_master_key, length-hex_encode master_key)
      (rw (parse_hex_master_key, size) (parse_pairs-hex_encode master_key small))
