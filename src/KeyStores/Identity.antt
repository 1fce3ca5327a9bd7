-- ===== src/KeyStores/Identity.antt =====
-- `IdentityKeyStore` for `PddbProtocolStore`:
-- crates/presage-store-pddb/src/protocol/identity_key_store.rs. An address is its name and device;
-- the keys of libsignal are parameters with their codecs.
use Prim.Native.String
use xous_app_signal.Prelude.{
  ℕ, Bool, true, false, not, Option, none, some, Text, codes, ◌∷◌, ◌++◌, String, HasEq, ◌==◌,
  text_beq, if◌then◌else◌, Result, ok, err, ◌>>=◌,
}
use xous_app_signal.Backend.{Bytes, KvBackend}
use xous_app_signal.Labels.{decimal}
use xous_app_signal.Sessions.{
  IdentityType, SignalError, invalid_state, protocol_backend_err, map_err, error_text,
}
use xous_app_signal.KeyStores.{dict_identity, Json, backend_get_json}

abbrev pub state_dict : Text
state_dict = codes "signal.state"

-- `presage::model::identity::OnNewIdentity`.
pub data OnNewIdentity : Type 0 where
  reject trust : OnNewIdentity

-- libsignal's `IdentityChange`.
pub data IdentityChange : Type 0 where
  new_or_unchanged replaced_existing : IdentityChange

abbrev pub from_changed : Bool → IdentityChange
from_changed false = new_or_unchanged
from_changed true = replaced_existing

-- The codec of a peer's identity key.
pub record IdentityCoding (K : Type 0) : Type 0 where
  pub serialize : K → Bytes
  pub decode : Bytes → Result K SignalError

-- The text of a name, a dot and a device.
unfoldable pub identity_key : Text → ℕ → Text
identity_key name device = name ++ (b'.' ∷ decimal device)

abbrev pub state_key_name : IdentityType → String
state_key_name IdentityType.aci = "aci_identity_key_pair"
state_key_name IdentityType.pni = "pni_identity_key_pair"

unfoldable pub state_key_identity_key_pair : IdentityType → Text
state_key_identity_key_pair identity = codes (state_key_name identity)

abbrev pub changes : Option Bytes → Bytes → Bool
changes none new_bytes = false
changes (some old) new_bytes = not (text_beq old new_bytes)

abbrev pub trusts : OnNewIdentity → Bool
trusts OnNewIdentity.trust = true
trusts OnNewIdentity.reject = false

module _ {B : Type 0} (kv : KvBackend B) (identity : IdentityType) where
  unfoldable pub get_identity_key_pair :
      {P : Type 0} → (Bytes → Result P SignalError) → B → Result P SignalError
  unfolding state_key_identity_key_pair
  get_identity_key_pair try_from b =
      map_err protocol_backend_err (kv.get b state_dict (state_key_identity_key_pair identity))
      >>= (λ found. elim found [
        | none ↦ err (
            invalid_state "get_identity_key_pair"
              (String.◌++◌ "no " (String.◌++◌ (state_key_name identity) " stored")))
        | some bytes ↦ try_from bytes
      ])

  unfoldable pub get_local_registration_id :
      {D : Type 0} → Json D → (D → ℕ) → B → Result ℕ SignalError
  unfolding backend_get_json
  get_local_registration_id json registration_id b =
      map_err (λ e. invalid_state "get_local_registration_id" (error_text e))
        (backend_get_json kv json b state_dict (codes "registration"))
      >>= (λ found. elim found [
        | none ↦ err (invalid_state "get_local_registration_id" "no registration data")
        | some held ↦ ok (registration_id held)
      ])

  module _ {K : Type 0} (coding : IdentityCoding K) where
    unfoldable pub get_identity : B → Text → ℕ → Result (Option K) SignalError
    unfolding identity_key
    get_identity b name device =
        map_err protocol_backend_err (kv.get b (dict_identity identity) (identity_key name device))
        >>= (λ found. elim found [
          | none ↦ ok none
          | some bytes ↦ coding.decode bytes >>= (λ key. ok (some key))
        ])

    unfoldable pub save_identity : B → Text → ℕ → K → B × Result IdentityChange SignalError
    unfolding identity_key
    save_identity b name device key =
        elim (kv.get b (dict_identity identity) (identity_key name device)) [
          | err e ↦ (b, err (protocol_backend_err e))
          | ok prior ↦
              let (b', r) =
                kv.put b (dict_identity identity) (identity_key name device)
                  (coding.serialize key) in
              (
                b',
                map_err protocol_backend_err r
                    >>= (λ _. ok (from_changed (changes prior (coding.serialize key)))),
              )
        ]

    unfoldable pub is_trusted_identity :
        ⦃eq : HasEq K⦄ → OnNewIdentity → B → Text → ℕ → K → Result Bool SignalError
    unfolding get_identity
    is_trusted_identity trust_new_identities b name device key =
        get_identity b name device >>= (λ found. elim found [
          | none ↦ ok true
          | some stored ↦ if stored == key then ok true else ok (trusts trust_new_identities)
        ])
