-- ===== src/KeyStores.antt =====
-- The helpers of the key stores of presage-store-pddb: the names of the protocol dictionaries
-- (crates/presage-store-pddb/src/protocol/mod.rs) and the JSON and listing helpers (lib.rs, mod.rs).
-- serde_json on one type is a `Json`; the codec of one of libsignal's record types is a `Coding`.
pub mod Laws
pub mod Identity
pub mod Trust
pub mod Kyber
pub mod Replay
pub mod PreKeys
pub mod Packed
pub mod RecordKeys
pub mod Numerals
pub mod Fresh
mod Examples
use xous_app_signal.Prelude.{
  ℕ, ◌+◌, ◌-◌, ◌*◌, ◌^◌, Bool, true, false, ◌&&◌, Option, none, some, String, Text, codes, List, [],
  ◌∷◌, ◌++◌, leb, ltb, nat_beq, if◌then◌else◌, Result, ok, err, ◌>>=◌,
}
use xous_app_signal.Backend.{Error, Bytes, KvBackend}
use xous_app_signal.Sessions.{
  IdentityType, as_str, SignalError, invalid_state, protocol_backend_err, map_err,
}

abbrev pub dict_identity : IdentityType → Text
dict_identity identity = codes "signal.protocol." ++ as_str identity ++ codes ".identity"

abbrev pub dict_prekey_bundle : IdentityType → Text
dict_prekey_bundle identity = codes "signal.protocol." ++ as_str identity ++ codes ".prekey_bundle"

abbrev pub dict_signed_prekey : IdentityType → Text
dict_signed_prekey identity = codes "signal.protocol." ++ as_str identity ++ codes ".signed_prekey"

abbrev pub dict_kyber_prekey : IdentityType → Text
dict_kyber_prekey identity = codes "signal.protocol." ++ as_str identity ++ codes ".kyber_prekey"

abbrev pub dict_kyber_meta : IdentityType → Text
dict_kyber_meta identity = codes "signal.protocol." ++ as_str identity ++ codes ".kyber_meta"

abbrev pub dict_sender_key : IdentityType → Text
dict_sender_key identity = codes "signal.protocol." ++ as_str identity ++ codes ".sender_key"

abbrev pub prekey_bundle_key : Text
prekey_bundle_key = codes "all"

-- `serde_json::to_vec` and `from_slice` at one type; an error is its `to_string()`.
pub record Json (T : Type 0) : Type 0 where
  pub to_vec : T → Result Bytes String
  pub from_slice : Bytes → Result T String

-- `serialize()` and `deserialize()` of one of libsignal's record types.
pub record Coding (K : Type 0) : Type 0 where
  pub serialize : K → Result Bytes SignalError
  pub deserialize : Bytes → Result K SignalError

-- `str::parse::<u32>`: an optional `+`, then digits, of a value that fits.
unfoldable pub read_digits : ℕ → Text → Option ℕ
read_digits acc [] = some acc
read_digits acc (c ∷ s) =
    let rest = read_digits (acc * 10 + (c - b'0')) s in
    if leb b'0' c && leb c b'9' then rest else none

abbrev pub below_u32 : Option ℕ → Option ℕ
below_u32 none = none
below_u32 (some n) = if ltb n (2 ^ 32) then some n else none

abbrev pub digits_of_u32 : Text → Option ℕ
digits_of_u32 [] = none
digits_of_u32 (c ∷ s) = below_u32 (read_digits 0 (c ∷ s))

unfoldable pub parse_u32 : Text → Option ℕ
unfolding read_digits
parse_u32 [] = none
parse_u32 (c ∷ s) = if nat_beq c b'+' then digits_of_u32 s else digits_of_u32 (c ∷ s)

unfoldable pub filter_map_u32 : List Text → List ℕ
unfolding parse_u32
filter_map_u32 [] = []
filter_map_u32 (k ∷ keys) =
    let rest = filter_map_u32 keys in elim (parse_u32 k) [ none ↦ rest | some id ↦ id ∷ rest ]

module _ {B : Type 0} (kv : KvBackend B) where
  module _ {T : Type 0} (json : Json T) where
    unfoldable pub backend_get_json : B → Text → Text → Result (Option T) Error
    backend_get_json b dict key = kv.get b dict key >>= (λ found. elim found [
      | none ↦ ok none
      | some bytes ↦ map_err Error.decode (json.from_slice bytes) >>= (λ value. ok (some value))
    ])

    unfoldable pub backend_put_json : B → Text → Text → T → B × Result (Unit {0}) Error
    backend_put_json b dict key value = elim (json.to_vec value) [
      | err e ↦ (b, err (Error.encode e))
      | ok bytes ↦ kv.put b dict key bytes
    ]

    unfoldable pub backend_get_json_required : B → Text → Text → String → Result T Error
    backend_get_json_required b dict key missing_msg = kv.get b dict key >>= (λ found. elim found [
      | some bytes ↦ map_err Error.decode (json.from_slice bytes)
      | none ↦ err (Error.backend missing_msg)
    ])

    unfoldable pub backend_get_json_protocol :
        B → Text → Text → String → Result (Option T) SignalError
    backend_get_json_protocol b dict key decode_context =
        map_err protocol_backend_err (kv.get b dict key) >>= (λ found. elim found [
          | some bytes ↦
              map_err (invalid_state decode_context) (json.from_slice bytes)
              >>= (λ value. ok (some value))
          | none ↦ ok none
        ])

    unfoldable pub backend_put_json_protocol :
        B → Text → Text → T → String → B × Result (Unit {0}) SignalError
    backend_put_json_protocol b dict key value encode_context = elim (json.to_vec value) [
      | err e ↦ (b, err (invalid_state encode_context e))
      | ok bytes ↦ let (b', r) = kv.put b dict key bytes in (b', map_err protocol_backend_err r)
    ]

  unfoldable pub list_keys_as_u32s : B → Text → Result (List ℕ) Error
  unfolding filter_map_u32
  list_keys_as_u32s b dict = kv.list_keys b dict >>= (λ keys. ok (filter_map_u32 keys))
