-- ===== src/Sessions.antt =====
-- The session cache of presage-store-pddb: crates/presage-store-pddb/src/protocol/session_store.rs,
-- session_store_ext.rs beside it, and `PddbStore::flush_sessions` of lib.rs, over any backend. The
-- codecs (bincode, serde_json, libsignal's records) are a `Codec`; a poisoned lock is a flag.
pub mod Cache
pub mod Flush
pub mod Loading
pub mod Deleting
mod Devices
mod Examples
use Prim.Native.String
use xous_app_signal.Prelude.{
  ℕ, ◌+◌, Bool, true, false, not, ◌&&◌, ◌||◌, Option, none, some, String, Text, codes, List, [],
  ◌∷◌, ◌++◌, length, leb, if◌then◌else◌, HasEq, nat_beq, nat_eq, text_eq, text_beq, Result, ok, err,
  ◌>>=◌, ◌≡◌, refl, ◌↔◌, arith,
}
use xous_app_signal.Collections.HashMap
use xous_app_signal.Collections.HashMap.{
  HashMap, Iteration, pair_eq, lookup, insert, retain, remove,
}
use xous_app_signal.Backend.{Error, Bytes, KvBackend}

pub data IdentityType : Type 0 where
  aci pni : IdentityType

abbrev pub same_identity : IdentityType → IdentityType → Bool
same_identity IdentityType.aci IdentityType.aci = true
same_identity IdentityType.pni IdentityType.pni = true
same_identity _ _ = false

pub same_identity_iff : (a b : IdentityType) → (same_identity a b ≡ true) ↔ (a ≡ b)
same_identity_iff a b = ground arith

instance abbrev pub identity_eq : HasEq IdentityType
identity_eq = record { same = same_identity; same_iff = same_identity_iff }

abbrev pub as_str : IdentityType → Text
as_str IdentityType.aci = codes "aci"
as_str IdentityType.pni = codes "pni"

abbrev pub dict_session : IdentityType → Text
dict_session identity = codes "signal.protocol." ++ as_str identity ++ codes ".session"

-- The identity, the address's name and its device.
abbrev pub SessionKey : Type 0
SessionKey = IdentityType × (Text × ℕ)

-- The serialized record of each device of one address.
abbrev pub SessionBundle : Type 0
SessionBundle = HashMap ℕ Bytes

-- `SignalProtocolError`: the variants this crate makes, and libsignal's own.
pub data SignalError : Type 0 where
  invalid_state : String → String → SignalError
  invalid_message : String → SignalError
  invalid_pre_key_id invalid_signed_pre_key_id invalid_kyber_pre_key_id : SignalError
  libsignal : String → SignalError

-- `Display` of the crate's error.
abbrev pub error_text : Error → String
error_text (Error.backend m) = String.◌++◌ "kv backend: " m
error_text (Error.encode m) = String.◌++◌ "encode: " m
error_text (Error.decode m) = String.◌++◌ "decode: " m
error_text (Error.protocol m) = String.◌++◌ "protocol: " m

abbrev pub protocol_backend_err : Error → SignalError
protocol_backend_err e = invalid_state "kv backend" (error_text e)

abbrev pub map_err {ℓ} : {A : Type ℓ} {E F : Type 0} → (E → F) → Result A E → Result A F
map_err f (ok a) = ok a
map_err f (err e) = err (f e)

-- The codecs of the crates, on the records `R`.
pub record Codec (R : Type 0) : Type 0 where
  pub bincode_serialize : SessionBundle → Result Bytes String
  pub bincode_deserialize : Bytes → Result SessionBundle String
  pub json_from_slice : Bytes → Result SessionBundle String
  pub serialize : R → Result Bytes String
  pub deserialize : Bytes → Result R SignalError

pub record PddbStore (B R : Type 0) : Type 0 where
  pub backend : B
  pub session_cache : HashMap SessionKey R
  pub session_dirty : HashMap SessionKey (Unit {0})
  pub cache_poisoned : Bool
  pub dirty_poisoned : Bool

abbrev pub cache_poison {ℓ} : {A : Type ℓ} → Result A SignalError
cache_poison = err (invalid_state "session cache" "poisoned")

abbrev pub dirty_poison {ℓ} : {A : Type ℓ} → Result A SignalError
dirty_poison = err (invalid_state "session dirty" "poisoned")

module _ {R : Type 0} (codec : Codec R) where
  unfoldable pub serialize_session_bundle : SessionBundle → Result Bytes Error
  serialize_session_bundle bundle =
      map_err Error.encode (codec.bincode_serialize bundle) >>= (λ body. ok (1 ∷ body))

  unfoldable pub deserialize_session_bundle : Bytes → Result SessionBundle Error
  deserialize_session_bundle [] = map_err Error.decode (codec.json_from_slice [])
  deserialize_session_bundle (version ∷ body) =
      if nat_beq version 1
      then map_err Error.decode (codec.bincode_deserialize body)
      else map_err Error.decode (codec.json_from_slice (version ∷ body))

  module _ {B : Type 0} (kv : KvBackend B) where
    unfoldable pub get_bundle : B → Text → Text → Result (Option SessionBundle) Error
    get_bundle b dict key = kv.get b dict key >>= (λ found. elim found [
      | none ↦ ok none
      | some bytes ↦ deserialize_session_bundle bytes >>= (λ bundle. ok (some bundle))
    ])

    unfoldable pub put_bundle : B → Text → Text → SessionBundle → B × Result (Unit {0}) Error
    put_bundle b dict key bundle = elim (serialize_session_bundle bundle) [
      | err e ↦ (b, err e)
      | ok bytes ↦ kv.put b dict key bytes
    ]

    unfoldable pub get_bundle_protocol : B → Text → Text → Result (Option SessionBundle) SignalError
    get_bundle_protocol b dict key = map_err protocol_backend_err (kv.get b dict key) >>= (λ found.
        elim found [
          | none ↦ ok none
          | some bytes ↦
              map_err (λ e. invalid_state "decode session bundle" (error_text e))
                (deserialize_session_bundle bytes)
              >>= (λ bundle. ok (some bundle))
        ])

    unfoldable pub put_bundle_protocol :
        B → Text → Text → SessionBundle → B × Result (Unit {0}) SignalError
    put_bundle_protocol b dict key bundle = elim (serialize_session_bundle bundle) [
      | err e ↦ (b, err (invalid_state "encode session bundle" (error_text e)))
      | ok bytes ↦ let (b', r) = kv.put b dict key bytes in (b', map_err protocol_backend_err r)
    ]
