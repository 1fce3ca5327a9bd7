-- ===== src/KeyStores/Kyber.antt =====
-- The post-quantum pre-keys of presage-store-pddb:
-- crates/presage-store-pddb/src/protocol/kyber_pre_key_store.rs and kyber_pre_key_store_ext.rs.
-- A record is its codec's; a base key is the bytes that `serialize()` gives.
use xous_app_signal.Prelude.{
  ℕ, suc, max, Bool, true, false, Option, none, some, Text, List, [], ◌∷◌, ◌++◌, length, text_beq,
  if◌then◌else◌, Result, ok, err, ◌>>=◌,
}
use xous_app_signal.Backend.{Bytes, KvBackend}
use xous_app_signal.Labels.{decimal}
use xous_app_signal.Sessions.{
  IdentityType, SignalError, invalid_message, invalid_kyber_pre_key_id, protocol_backend_err,
  map_err,
}
use xous_app_signal.KeyStores.{
  Json, Coding, dict_kyber_prekey, dict_kyber_meta, backend_get_json_protocol,
  backend_put_json_protocol, list_keys_as_u32s,
}

pub record KyberStored : Type 0 where
  pub record_bytes : Bytes
  pub is_last_resort : Bool

-- The key of the table of used base keys.
unfoldable pub meta_key : ℕ → ℕ → Text
meta_key kyber_prekey_id ec_prekey_id = decimal kyber_prekey_id ++ (b'.' ∷ decimal ec_prekey_id)

abbrev pub reused_base_key {ℓ} : {A : Type ℓ} → Result A SignalError
reused_base_key = err (invalid_message "reused base key")

-- Whether a base key is the one that the table holds.
abbrev pub is_reused : Option Bytes → Bytes → Bool
is_reused none new_base_bytes = false
is_reused (some prior) new_base_bytes = text_beq prior new_base_bytes

-- `ids.into_iter().max()`
unfoldable pub max_id : List ℕ → Option ℕ
max_id [] = none
max_id (id ∷ ids) =
    let rest = max_id ids in elim rest [ none ↦ some id | some best ↦ some (max id best) ]

module _ {B : Type 0} (kv : KvBackend B) (json : Json KyberStored) (identity : IdentityType) where
  unfoldable pub load_envelope : B → ℕ → Result (Option KyberStored) SignalError
  load_envelope b id =
      backend_get_json_protocol kv json b (dict_kyber_prekey identity) (decimal id)
        "decode kyber envelope"

  -- `load_envelope(..)?.ok_or(InvalidKyberPreKeyId)`
  unfoldable pub require_envelope : B → ℕ → Result KyberStored SignalError
  require_envelope b id = load_envelope b id >>= (λ found. elim found [
    | none ↦ err invalid_kyber_pre_key_id
    | some envelope ↦ ok envelope
  ])

  unfoldable pub mark_kyber_pre_key_used : B → ℕ → ℕ → Bytes → B × Result (Unit {0}) SignalError
  mark_kyber_pre_key_used b kyber_prekey_id ec_prekey_id base_key =
      elim (require_envelope b kyber_prekey_id) [
        | err e ↦ (b, err e)
        | ok envelope ↦
            if envelope.is_last_resort
            then (elim (kv.get b (dict_kyber_meta identity)
                (meta_key kyber_prekey_id ec_prekey_id)) [
                  | err e ↦ (b, err (protocol_backend_err e))
                  | ok prior ↦
                      if is_reused prior base_key
                      then (b, reused_base_key)
                      else (let (b', r) =
                            kv.put b (dict_kyber_meta identity)
                              (meta_key kyber_prekey_id ec_prekey_id) base_key in
                          (b', map_err protocol_backend_err r))
                ])
            else (let (b', r) =
                  kv.delete b (dict_kyber_prekey identity) (decimal kyber_prekey_id) in
                (b', map_err protocol_backend_err r))
      ]

  unfoldable pub remove_kyber_pre_key : B → ℕ → B × Result (Unit {0}) SignalError
  remove_kyber_pre_key b kyber_prekey_id =
      let (b', r) = kv.delete b (dict_kyber_prekey identity) (decimal kyber_prekey_id) in
      (b', map_err protocol_backend_err r)

  -- The loop that counts the last-resort keys.
  unfoldable pub count_last_resort : B → List ℕ → ℕ → Result ℕ SignalError
  count_last_resort b [] count = ok count
  count_last_resort b (id ∷ ids) count = load_envelope b id >>= (λ found. elim found [
    | none ↦ count_last_resort b ids count
    | some env ↦ count_last_resort b ids (if env.is_last_resort then suc count else count)
  ])

  unfoldable pub count_kyber_pre_keys : B → Bool → Result ℕ SignalError
  count_kyber_pre_keys b last_resort_only =
      map_err protocol_backend_err (list_keys_as_u32s kv b (dict_kyber_prekey identity))
      >>= (λ ids. if last_resort_only then count_last_resort b ids 0 else ok (length ids))

  unfoldable pub max_kyber_pre_key_id : B → Result (Option ℕ) SignalError
  max_kyber_pre_key_id b =
      map_err protocol_backend_err (list_keys_as_u32s kv b (dict_kyber_prekey identity))
      >>= (λ ids. ok (max_id ids))

  abbrev best_of : Option ℕ → ℕ → Option ℕ
  best_of none id = some id
  best_of (some b) id = some (max b id)

  -- The loop that keeps the greatest id of a last-resort key.
  unfoldable pub max_last_resort : B → List ℕ → Option ℕ → Result (Option ℕ) SignalError
  max_last_resort b [] best = ok best
  max_last_resort b (id ∷ ids) best = load_envelope b id >>= (λ found. elim found [
    | none ↦ max_last_resort b ids best
    | some env ↦ max_last_resort b ids (if env.is_last_resort then best_of best id else best)
  ])

  unfoldable pub max_last_resort_kyber_pre_key_id : B → Result (Option ℕ) SignalError
  max_last_resort_kyber_pre_key_id b =
      map_err protocol_backend_err (list_keys_as_u32s kv b (dict_kyber_prekey identity))
      >>= (λ ids. max_last_resort b ids none)

  module _ {K : Type 0} (coding : Coding K) where
    unfoldable pub store_envelope : B → ℕ → K → Bool → B × Result (Unit {0}) SignalError
    store_envelope b id rec is_last_resort = elim (coding.serialize rec) [
      | err e ↦ (b, err e)
      | ok bytes ↦
          backend_put_json_protocol kv json b (dict_kyber_prekey identity) (decimal id)
            (record { record_bytes = bytes; is_last_resort = is_last_resort })
            "encode kyber envelope"
    ]

    unfoldable pub get_kyber_pre_key : B → ℕ → Result K SignalError
    get_kyber_pre_key b kyber_prekey_id =
        require_envelope b kyber_prekey_id
        >>= (λ envelope. coding.deserialize envelope.record_bytes)

    unfoldable pub save_kyber_pre_key : B → ℕ → K → B × Result (Unit {0}) SignalError
    save_kyber_pre_key b kyber_prekey_id rec = store_envelope b kyber_prekey_id rec false

    unfoldable pub store_last_resort_kyber_pre_key : B → ℕ → K → B × Result (Unit {0}) SignalError
    store_last_resort_kyber_pre_key b kyber_prekey_id rec =
        store_envelope b kyber_prekey_id rec true

    unfoldable pub load_last_resort : B → List ℕ → Result (List K) SignalError
    load_last_resort b [] = ok []
    load_last_resort b (id ∷ ids) = load_envelope b id >>= (λ found. elim found [
      | none ↦ load_last_resort b ids
      | some env ↦
          if env.is_last_resort
          then (coding.deserialize env.record_bytes
              >>= (λ rec. load_last_resort b ids >>= (λ recs. ok (rec ∷ recs))))
          else load_last_resort b ids
    ])

    unfoldable pub load_last_resort_kyber_pre_keys : B → Result (List K) SignalError
    load_last_resort_kyber_pre_keys b =
        map_err protocol_backend_err (list_keys_as_u32s kv b (dict_kyber_prekey identity))
        >>= (λ ids. load_last_resort b ids)
