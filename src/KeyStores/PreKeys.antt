-- ===== src/KeyStores/PreKeys.antt =====
-- The one-time pre-keys of presage-store-pddb, packed under one key, and the ids that come next:
-- crates/presage-store-pddb/src/protocol/pre_key_store.rs and pre_keys_store.rs.
use xous_app_signal.Prelude.{
  ℕ, ◌+◌, ◌%◌, ◌^◌, Option, none, some, List, [], ◌∷◌, nat_beq, if◌then◌else◌, Result, ok, err,
  ◌>>=◌,
}
use xous_app_signal.Backend.{Bytes, KvBackend}
use xous_app_signal.Sessions.{IdentityType, SignalError, invalid_pre_key_id}
use xous_app_signal.KeyStores.{
  Json, Coding, dict_prekey_bundle, prekey_bundle_key, backend_get_json_protocol,
  backend_put_json_protocol,
}
use xous_app_signal.KeyStores.Kyber.{KyberStored, max_id, max_kyber_pre_key_id}
use xous_app_signal.KeyStores.RecordKeys.{max_signed_pre_key_id}

-- `Vec<(u32, Vec<u8>)>`
abbrev pub Bundle : Type 0
Bundle = List (ℕ × Bytes)

abbrev pub bundle_or_default : Option Bundle → Bundle
bundle_or_default none = []
bundle_or_default (some bundle) = bundle

-- `find` by id.
unfoldable pub find_id : ℕ → Bundle → Option Bytes
find_id id [] = none
find_id id ((rid, bytes) ∷ bundle) = if nat_beq rid id then some bytes else find_id id bundle

-- The first entry of the id takes the bytes, or a new entry is pushed.
unfoldable pub upsert : ℕ → Bytes → Bundle → Bundle
upsert id bytes [] = (id, bytes) ∷ []
upsert id bytes ((rid, old) ∷ bundle) =
    let rest = upsert id bytes bundle in
    if nat_beq rid id then (rid, bytes) ∷ bundle else (rid, old) ∷ rest

unfoldable pub retain_other : ℕ → Bundle → Bundle
retain_other id [] = []
retain_other id ((rid, bytes) ∷ bundle) =
    let rest = retain_other id bundle in if nat_beq rid id then rest else (rid, bytes) ∷ rest

unfoldable pub bundle_ids : Bundle → List ℕ
bundle_ids [] = []
bundle_ids ((id, bytes) ∷ bundle) = id ∷ bundle_ids bundle

-- `map(|id| id + 1).unwrap_or(1)` on `u32`, as it wraps in a release build.
unfoldable pub next_id : Option ℕ → ℕ
next_id none = 1
next_id (some id) = (id + 1) % 2 ^ 32

module _ {B : Type 0} (kv : KvBackend B) (json : Json Bundle) (identity : IdentityType) where
  unfoldable pub load_bundle : B → Result Bundle SignalError
  load_bundle b =
      backend_get_json_protocol kv json b (dict_prekey_bundle identity) prekey_bundle_key
        "decode prekey bundle"
      >>= (λ found. ok (bundle_or_default found))

  unfoldable pub save_bundle : B → Bundle → B × Result (Unit {0}) SignalError
  save_bundle b bundle =
      backend_put_json_protocol kv json b (dict_prekey_bundle identity) prekey_bundle_key bundle
        "encode prekey bundle"

  unfoldable pub remove_pre_key : B → ℕ → B × Result (Unit {0}) SignalError
  remove_pre_key b id = elim (load_bundle b) [
    | err e ↦ (b, err e)
    | ok bundle ↦ save_bundle b (retain_other id bundle)
  ]

  unfoldable pub max_pre_key_id : B → Result (Option ℕ) SignalError
  max_pre_key_id b = load_bundle b >>= (λ bundle. ok (max_id (bundle_ids bundle)))

  unfoldable pub next_pre_key_id : B → Result ℕ SignalError
  next_pre_key_id b = max_pre_key_id b >>= (λ best. ok (next_id best))

  module _ {K : Type 0} (coding : Coding K) where
    unfoldable pub get_pre_key : B → ℕ → Result K SignalError
    get_pre_key b id = load_bundle b >>= (λ bundle. elim (find_id id bundle) [
      | none ↦ err invalid_pre_key_id
      | some bytes ↦ coding.deserialize bytes
    ])

    unfoldable pub save_pre_key : B → ℕ → K → B × Result (Unit {0}) SignalError
    save_pre_key b id rec = elim (coding.serialize rec) [
      | err e ↦ (b, err e)
      | ok bytes ↦ elim (load_bundle b) [
        | err e ↦ (b, err e)
        | ok bundle ↦ save_bundle b (upsert id bytes bundle)
      ]
    ]

module _ {B : Type 0} (kv : KvBackend B) (identity : IdentityType) where
  unfoldable pub next_signed_pre_key_id : B → Result ℕ SignalError
  next_signed_pre_key_id b = max_signed_pre_key_id kv identity b >>= (λ best. ok (next_id best))

  unfoldable pub next_pq_pre_key_id : Json KyberStored → B → Result ℕ SignalError
  next_pq_pre_key_id json b =
      max_kyber_pre_key_id kv json identity b >>= (λ best. ok (next_id best))
