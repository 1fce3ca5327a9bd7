-- ===== src/AccountStore.antt =====
-- The account state of presage-store-pddb: `StateStore` (crates/presage-store-pddb/src/state.rs),
-- `Store::clear` (store.rs) with the clearing methods of content.rs, and
-- `PddbStore::has_account_state` (lib.rs). The codecs of libsignal's types are parameters.
pub mod Clearing
pub mod Registration
mod Examples
use xous_app_signal.Prelude.{
  Bool, true, false, Option, none, some, Text, codes, List, [], ◌∷◌, ◌++◌, if◌then◌else◌, Result,
  ok, err, ◌>>=◌,
}
use xous_app_signal.Backend.{Error, Bytes, KvBackend}
use xous_app_signal.Sessions.{IdentityType, dict_session, PddbStore, SignalError, map_err}
use xous_app_signal.KeyStores.{
  Json, backend_get_json, backend_put_json, dict_identity, dict_prekey_bundle, dict_signed_prekey,
  dict_kyber_prekey, dict_kyber_meta, dict_sender_key,
}
use xous_app_signal.KeyStores.Identity.{state_dict}

abbrev pub key_registration : Text
key_registration = codes "registration"

abbrev pub key_aci_identity_key_pair : Text
key_aci_identity_key_pair = codes "aci_identity_key_pair"

abbrev pub key_pni_identity_key_pair : Text
key_pni_identity_key_pair = codes "pni_identity_key_pair"

abbrev pub key_sender_certificate : Text
key_sender_certificate = codes "sender_certificate"

abbrev pub key_master_key : Text
key_master_key = codes "master_key"

abbrev pub dict_contacts : Text
dict_contacts = codes "signal.contacts"

abbrev pub dict_groups : Text
dict_groups = codes "signal.groups"

abbrev pub dict_group_avatars : Text
dict_group_avatars = codes "signal.group_avatars"

abbrev pub dict_profiles : Text
dict_profiles = codes "signal.profiles"

abbrev pub dict_profile_keys : Text
dict_profile_keys = codes "signal.profile_keys"

abbrev pub dict_profile_avatars : Text
dict_profile_avatars = codes "signal.profile_avatars"

-- The dictionaries of one identity, in the order in which they are wiped.
abbrev pub protocol_dicts : IdentityType → List Text
protocol_dicts identity =
    dict_session identity
    ∷ dict_identity identity
    ∷ dict_prekey_bundle identity
    ∷ dict_signed_prekey identity
    ∷ dict_kyber_prekey identity
    ∷ dict_kyber_meta identity
    ∷ dict_sender_key identity
    ∷ []

-- The dictionaries of one identity, in the order in which they are probed.
abbrev pub probed_dicts : IdentityType → List Text
probed_dicts identity =
    dict_session identity
    ∷ dict_identity identity
    ∷ dict_prekey_bundle identity
    ∷ dict_signed_prekey identity
    ∷ dict_kyber_prekey identity
    ∷ dict_kyber_meta identity
    ∷ dict_sender_key identity
    ∷ []

abbrev pub account_dicts : List Text
account_dicts = state_dict ∷ (probed_dicts IdentityType.aci ++ probed_dicts IdentityType.pni)

-- `?` after an effect: the next runs on the state that it left.
infixl 5 ◌and_then◌
abbrev pub ◌and_then◌ {ℓ} :
    {B : Type 0} {A : Type ℓ}
    → B × Result (Unit {0}) Error
    → (B → B × Result A Error)
    → B × Result A Error
x and_then f = elim x.1 [ err e ↦ (x.0, err e) | ok _ ↦ f x.0 ]

module _ {B : Type 0} (kv : KvBackend B) where
  module _ {D : Type 0} (json : Json D) where
    unfoldable pub load_registration_data : B → Result (Option D) Error
    load_registration_data b = backend_get_json kv json b state_dict key_registration

    unfoldable pub save_registration_data : B → D → B × Result (Unit {0}) Error
    save_registration_data b state = backend_put_json kv json b state_dict key_registration state

    unfoldable pub is_registered : B → Bool
    is_registered b = elim (load_registration_data b) [
      | ok (some _) ↦ true
      | ok none ↦ false
      | err _ ↦ false
    ]

  -- The two setters, on `key_pair.serialize()`.
  unfoldable pub set_aci_identity_key_pair : B → Bytes → B × Result (Unit {0}) Error
  set_aci_identity_key_pair b bytes = kv.put b state_dict key_aci_identity_key_pair bytes

  unfoldable pub set_pni_identity_key_pair : B → Bytes → B × Result (Unit {0}) Error
  set_pni_identity_key_pair b bytes = kv.put b state_dict key_pni_identity_key_pair bytes

  -- Reading a key with a decoder whose error is the crate's.
  abbrev pub get_decoded :
      {K : Type 0} → (Bytes → Result K Error) → B → Text → Result (Option K) Error
  get_decoded decode b key = kv.get b state_dict key >>= (λ found. elim found [
    | none ↦ ok none
    | some bytes ↦ decode bytes >>= (λ k. ok (some k))
  ])

  unfoldable pub sender_certificate :
      {C : Type 0} → (Bytes → Result C Error) → B → Result (Option C) Error
  sender_certificate deserialize b = get_decoded deserialize b key_sender_certificate

  unfoldable pub save_sender_certificate :
      {C : Type 0} → (C → Result Bytes Error) → B → C → B × Result (Unit {0}) Error
  save_sender_certificate serialized b certificate = elim (serialized certificate) [
    | err e ↦ (b, err e)
    | ok bytes ↦ kv.put b state_dict key_sender_certificate bytes
  ]

  unfoldable pub fetch_master_key :
      {M : Type 0} → (Bytes → Result M Error) → B → Result (Option M) Error
  fetch_master_key from_slice b = get_decoded from_slice b key_master_key

  unfoldable pub store_master_key :
      {M : Type 0} → (M → Bytes) → B → Option M → B × Result (Unit {0}) Error
  store_master_key inner b (some k) = kv.put b state_dict key_master_key (inner k)
  store_master_key inner b none = kv.delete b state_dict key_master_key

  -- One `delete_dict(..)?` after another.
  unfoldable pub delete_dicts : B → List Text → B × Result (Unit {0}) Error
  delete_dicts b [] = (b, ok tt)
  delete_dicts b (dict ∷ dicts) =
      let (b', r) = kv.delete_dict b dict in
      let rest = delete_dicts b' dicts in elim r [ err e ↦ (b', err e) | ok _ ↦ rest ]

  unfoldable pub clear_registration : B → B × Result (Unit {0}) Error
  unfolding delete_dicts
  clear_registration b = delete_dicts b (state_dict ∷ [])

  unfoldable pub clear_profiles : B → B × Result (Unit {0}) Error
  unfolding delete_dicts
  clear_profiles b = delete_dicts b (dict_profiles ∷ dict_profile_keys ∷ dict_profile_avatars ∷ [])

  unfoldable pub clear_contents : B → B × Result (Unit {0}) Error
  unfolding delete_dicts clear_profiles
  clear_contents b =
      delete_dicts b (dict_contacts ∷ dict_groups ∷ dict_group_avatars ∷ []) and_then clear_profiles

  -- What `clear` deletes in the backend.
  unfoldable pub clear_backend : B → B × Result (Unit {0}) Error
  unfolding delete_dicts clear_registration clear_contents
  clear_backend b =
      clear_registration b
      and_then clear_contents
      and_then (λ b. delete_dicts b (protocol_dicts IdentityType.aci))
      and_then (λ b. delete_dicts b (protocol_dicts IdentityType.pni))

  unfoldable pub clear : {R : Type 0} → PddbStore B R → PddbStore B R × Result (Unit {0}) Error
  unfolding clear_backend
  clear s =
      let (b, r) = clear_backend s.backend in
      elim r [
        | err e ↦ (record s { backend = b }, err e)
        | ok _ ↦ (
          record s {
            backend = b;
            session_cache = if s.cache_poisoned then s.session_cache else [];
            session_dirty = if s.dirty_poisoned then s.session_dirty else [];
          },
          ok tt,
        )
      ]

  abbrev pub has_keys : Result (List Text) Error → Bool
  has_keys (ok []) = false
  has_keys (ok (_ ∷ _)) = true
  has_keys (err _) = false

  unfoldable pub any_keys : B → List Text → Bool
  any_keys b [] = false
  any_keys b (dict ∷ dicts) =
      let rest = any_keys b dicts in if has_keys (kv.list_keys b dict) then true else rest

  unfoldable pub has_account_state : B → Bool
  unfolding any_keys
  has_account_state b = any_keys b account_dicts
