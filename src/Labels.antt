-- ===== src/Labels.antt =====
-- The text helpers of crates/xous-app-signal/src/dialogue.rs: `ellipsize`, `brief_relative`,
-- `short_uuid_label` and `looks_like_raw_uuid`. A `String` is the list of its `chars()`; the
-- hexadecimal form of a `Uuid` is the `uuid` crate's, so it is a parameter.
pub mod Laws
mod Examples
use xous_app_signal.Prelude.{
  ℕ, zero, suc, ◌+◌, ◌-◌, ◌*◌, ◌/◌, ◌%◌, Bool, true, false, ◌&&◌, ◌||◌, List, [], ◌∷◌, ◌++◌, Text,
  codes, nat_beq, leb, ltb, if◌then◌else◌, length, take,
}

-- `'…'`, U+2026
abbrev pub ellipsis : ℕ
ellipsis = 0x2026

unfoldable pub ellipsize : Text → ℕ → Text
ellipsize s max =
    if nat_beq max 0
    then []
    else if leb (length s) max
    then s
    else take (max - 1) s ++ ellipsis ∷ []

-- `Display` for an unsigned number: decimal digits, the most significant first. The fuel is the
-- number itself, since each round divides by 10.
unfoldable pub decimal_from : ℕ → ℕ → Text → Text
decimal_from zero n acc = acc
decimal_from (suc fuel) n acc =
    let digit = n % 10 + b'0' in
    let rest = decimal_from fuel (n / 10) (digit ∷ acc) in if ltb n 10 then digit ∷ acc else rest

unfoldable pub decimal : ℕ → Text
unfolding decimal_from
decimal n = decimal_from (suc n) n []

-- `saturating_sub` is subtraction on the natural numbers.
unfoldable pub brief_relative : ℕ → ℕ → Text
brief_relative ts_ms now_ms =
    let dt_s = (now_ms - ts_ms) / 1_000 in
    if ltb dt_s 60
    then decimal dt_s ++ codes "s"
    else if ltb dt_s (60 * 60)
    then decimal (dt_s / 60) ++ codes "m"
    else if ltb dt_s (24 * 60 * 60)
    then decimal (dt_s / 3_600) ++ codes "h"
    else if ltb dt_s (48 * 60 * 60)
    then codes "Yest"
    else decimal (dt_s / (24 * 60 * 60)) ++ codes "d"

unfoldable pub short_uuid_label : (ℕ → Text) → ℕ → Text
short_uuid_label simple uuid = codes "uuid:" ++ take 8 (simple uuid)

-- `str::len` counts bytes of UTF-8.
unfoldable pub utf8_len : Text → ℕ
utf8_len [] = 0
utf8_len (c ∷ s) =
    (if ltb c 0x80 then 1 else if ltb c 0x800 then 2 else if ltb c 0x1_0000 then 3 else 4)
    + utf8_len s

unfoldable pub is_ascii_hexdigit : ℕ → Bool
is_ascii_hexdigit c =
    (leb b'0' c && leb c b'9') || (leb b'a' c && leb c b'f') || (leb b'A' c && leb c b'F')

unfoldable pub is_dash_place : ℕ → Bool
is_dash_place i = nat_beq i 8 || nat_beq i 13 || nat_beq i 18 || nat_beq i 23

abbrev pub same_bool : Bool → Bool → Bool
same_bool true b = b
same_bool false true = false
same_bool false false = true

-- The closure of `all`, at the character `c` with index `i`, and the loop over the rest.
unfoldable pub dashed_from : ℕ → Text → Bool
unfolding is_ascii_hexdigit is_dash_place
dashed_from i [] = true
dashed_from i (c ∷ s) =
    let rest = dashed_from (suc i) s in
    (same_bool (is_dash_place i) (nat_beq c b'-') && (nat_beq c b'-' || is_ascii_hexdigit c))
    && rest

unfoldable pub all_hex : Text → Bool
unfolding is_ascii_hexdigit
all_hex [] = true
all_hex (c ∷ s) = is_ascii_hexdigit c && all_hex s

unfoldable pub looks_like_raw_uuid : Text → Bool
unfolding utf8_len dashed_from all_hex
looks_like_raw_uuid s =
    let len = utf8_len s in
    if nat_beq len 36 then dashed_from 0 s else if nat_beq len 32 then all_hex s else false
