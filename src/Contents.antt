-- ===== src/Contents.antt =====
-- The contents of presage-store-pddb: crates/presage-store-pddb/src/content.rs. SHA-256, base64, the
-- codecs and the types of presage are parameters; bytes of a key are its list of numbers.
pub mod Keys
pub mod Threads
pub mod Records
pub mod GroupKeys
mod Examples
use xous_app_signal.Prelude.{
  ℕ, zero, suc, ◌+◌, ◌-◌, ◌*◌, ◌/◌, ◌%◌, ◌^◌, Bool, true, false, ◌&&◌, ◌||◌, Option, none, some,
  String, Text, codes, List, [], ◌∷◌, ◌++◌, length, leb, ltb, nat_beq, if◌then◌else◌, Result, ok,
  err, ◌>>=◌,
}
use xous_app_signal.Backend.{Error, Bytes, KvBackend}
use xous_app_signal.Sessions.{map_err}
use xous_app_signal.KeyStores.{Json, backend_get_json, backend_put_json, backend_get_json_required}

abbrev pub dict_sticker_packs : Text
dict_sticker_packs = codes "signal.sticker_packs"

abbrev pub thread_dict_prefix : Text
thread_dict_prefix = codes "signal.threads."

-- `{:x}` of one digit
abbrev pub hex_digit : ℕ → ℕ
hex_digit d = if ltb d 10 then d + b'0' else d + 87

-- The last `n` hexadecimal digits of a number, the most significant first.
unfoldable pub hex_digits : ℕ → ℕ → Text
hex_digits zero value = []
hex_digits (suc n) value = hex_digits n (value / 16) ++ (hex_digit (value % 16) ∷ [])

-- `{b:02x}` of each byte
unfoldable pub hex_encode : Bytes → Text
unfolding hex_digits
hex_encode [] = []
hex_encode (b ∷ bytes) = hex_digits 2 b ++ hex_encode bytes

-- `format!("{timestamp:016x}")`, of a `u64`
unfoldable pub message_key : ℕ → Text
unfolding hex_digits
message_key timestamp = hex_digits 16 timestamp

-- The value of one digit, of either case.
unfoldable pub digit_value : ℕ → Option ℕ
digit_value c =
    if leb b'0' c && leb c b'9'
    then some (c - b'0')
    else if leb b'a' c && leb c b'f'
    then some (c - 87)
    else if leb b'A' c && leb c b'F'
    then some (c - 55)
    else none

unfoldable pub read_hex : ℕ → Text → Option ℕ
read_hex acc [] = some acc
read_hex acc (c ∷ s) = elim (digit_value c) [ none ↦ none | some d ↦ read_hex (acc * 16 + d) s ]

abbrev pub below : ℕ → Option ℕ → Option ℕ
below limit none = none
below limit (some n) = if ltb n limit then some n else none

abbrev pub hex_below : ℕ → Text → Option ℕ
hex_below limit [] = none
hex_below limit (c ∷ s) = below limit (read_hex 0 (c ∷ s))

-- `from_str_radix(.., 16)` for an unsigned type of `limit` values: an optional `+`, then digits.
unfoldable pub from_str_radix_16 : ℕ → Text → Option ℕ
unfolding read_hex
from_str_radix_16 limit [] = none
from_str_radix_16 limit (c ∷ s) =
    if nat_beq c b'+' then hex_below limit s else hex_below limit (c ∷ s)

-- `std::ops::Bound`
pub data Bound : Type 0 where
  included excluded : ℕ → Bound
  unbounded : Bound

abbrev pub after_start : Bound → ℕ → Bool
after_start (included s) value = leb s value
after_start (excluded s) value = ltb s value
after_start unbounded value = true

abbrev pub before_end : Bound → ℕ → Bool
before_end (included e) value = leb value e
before_end (excluded e) value = ltb value e
before_end unbounded value = true

unfoldable pub range_contains_u64 : Bound → Bound → ℕ → Bool
range_contains_u64 start end value = after_start start value && before_end end value

-- `Thread`: a contact by the text of its service id, a group by its master key.
pub data Thread : Type 0 where
  contact group : Text → Thread

-- `filter_map` of the parser, then `filter` of the range.
unfoldable pub in_range : Bound → Bound → List Text → List ℕ
unfolding range_contains_u64
in_range start end [] = []
in_range start end (k ∷ keys) =
    let rest = in_range start end keys in
    elim (from_str_radix_16 (2 ^ 64) k) [
      | none ↦ rest
      | some ts ↦ if range_contains_u64 start end ts then ts ∷ rest else rest
    ]

-- `sort_unstable`
unfoldable pub sort_in : ℕ → List ℕ → List ℕ
sort_in x [] = x ∷ []
sort_in x (y ∷ ys) = let rest = sort_in x ys in if leb x y then x ∷ y ∷ ys else y ∷ rest

unfoldable pub sort_unstable : List ℕ → List ℕ
unfolding sort_in
sort_unstable [] = []
sort_unstable (x ∷ xs) = sort_in x (sort_unstable xs)

module _ (sha256_hex : Text → Text) (base64 : Text → Text) where
  unfoldable pub thread_dict_name : Thread → Text
  thread_dict_name (contact id) = thread_dict_prefix ++ sha256_hex (codes "contact:" ++ id)
  thread_dict_name (group key) = thread_dict_prefix ++ sha256_hex (codes "group:" ++ base64 key)

  -- A stored message is what its JSON holds; a content and its timestamp are the caller's.
  module _ {B S C : Type 0} (kv : KvBackend B) (json : Json S) (from_content : C → S)
      (into_content : S → Result C Error) (timestamp_of : C → ℕ) where
    unfoldable pub save_message : B → Thread → C → B × Result (Unit {0}) Error
    unfolding thread_dict_name message_key
    save_message b thread message =
        backend_put_json kv json b (thread_dict_name thread) (message_key (timestamp_of message))
          (from_content message)

    unfoldable pub delete_message : B → Thread → ℕ → B × Result Bool Error
    unfolding thread_dict_name message_key
    delete_message b thread timestamp =
        elim (kv.get b (thread_dict_name thread) (message_key timestamp)) [
          | err e ↦ (b, err e)
          | ok existed ↦
              let (b', r) = kv.delete b (thread_dict_name thread) (message_key timestamp) in
              (b', r >>= (λ _. ok (elim existed [ none ↦ false | some _ ↦ true ])))
        ]

    unfoldable pub message : B → Thread → ℕ → Result (Option C) Error
    unfolding thread_dict_name message_key
    message b thread timestamp =
        backend_get_json kv json b (thread_dict_name thread) (message_key timestamp) >>= (λ found.
          elim found [
            | none ↦ ok none
            | some stored ↦ into_content stored >>= (λ content. ok (some content))
          ])

    unfoldable pub load_each : B → Text → List ℕ → List (Result C Error)
    load_each b dict [] = []
    load_each b dict (ts ∷ rest) =
        (backend_get_json_required kv json b dict (message_key ts) "message disappeared"
          >>= into_content)
        ∷ load_each b dict rest

    unfoldable pub messages : B → Thread → Bound → Bound → Result (List (Result C Error)) Error
    unfolding thread_dict_name in_range sort_unstable load_each
    messages b thread start end = kv.list_keys b (thread_dict_name thread) >>= (λ keys.
        ok (load_each b (thread_dict_name thread) (sort_unstable (in_range start end keys))))

    unfoldable pub clear_thread : B → Thread → B × Result (Unit {0}) Error
    unfolding thread_dict_name
    clear_thread b thread = kv.delete_dict b (thread_dict_name thread)

  -- Threads are not indexed, so there is nothing to walk.
  unfoldable pub clear_messages : {B : Type 0} → B → B × Result (Unit {0}) Error
  clear_messages b = (b, ok tt)
