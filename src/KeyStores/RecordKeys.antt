-- ===== src/KeyStores/RecordKeys.antt =====
-- The stores with one record under each key of presage-store-pddb:
-- crates/presage-store-pddb/src/protocol/signed_pre_key_store.rs and sender_key_store.rs. A
-- distribution id is the text of `simple()`.
use xous_app_signal.Prelude.{ℕ, Option, none, some, Text, ◌∷◌, ◌++◌, length, Result, ok, err, ◌>>=◌}
use xous_app_signal.Backend.{KvBackend}
use xous_app_signal.Labels.{decimal}
use xous_app_signal.Sessions.{
  IdentityType, SignalError, invalid_signed_pre_key_id, protocol_backend_err, map_err,
}
use xous_app_signal.KeyStores.{Coding, dict_signed_prekey, dict_sender_key, list_keys_as_u32s}
use xous_app_signal.KeyStores.Kyber.{max_id}

unfoldable pub sender_key_key : Text → ℕ → Text → Text
sender_key_key name device distribution_id =
    name ++ (b'.' ∷ decimal device) ++ (b'.' ∷ distribution_id)

module _ {B : Type 0} (kv : KvBackend B) (identity : IdentityType) where
  unfoldable pub count_signed_pre_keys : B → Result ℕ SignalError
  count_signed_pre_keys b =
      map_err protocol_backend_err (kv.list_keys b (dict_signed_prekey identity))
      >>= (λ keys. ok (length keys))

  unfoldable pub max_signed_pre_key_id : B → Result (Option ℕ) SignalError
  max_signed_pre_key_id b =
      map_err protocol_backend_err (list_keys_as_u32s kv b (dict_signed_prekey identity))
      >>= (λ ids. ok (max_id ids))

  module _ {K : Type 0} (coding : Coding K) where
    -- `put` of a record, with the error mapped.
    unfoldable pub put_record : B → Text → Text → K → B × Result (Unit {0}) SignalError
    put_record b dict key rec = elim (coding.serialize rec) [
      | err e ↦ (b, err e)
      | ok bytes ↦ let (b', r) = kv.put b dict key bytes in (b', map_err protocol_backend_err r)
    ]

    unfoldable pub get_signed_pre_key : B → ℕ → Result K SignalError
    get_signed_pre_key b id =
        map_err protocol_backend_err (kv.get b (dict_signed_prekey identity) (decimal id))
        >>= (λ found. elim found [
          | none ↦ err invalid_signed_pre_key_id
          | some bytes ↦ coding.deserialize bytes
        ])

    unfoldable pub save_signed_pre_key : B → ℕ → K → B × Result (Unit {0}) SignalError
    unfolding put_record
    save_signed_pre_key b id rec = put_record b (dict_signed_prekey identity) (decimal id) rec

    unfoldable pub store_sender_key : B → Text → ℕ → Text → K → B × Result (Unit {0}) SignalError
    unfolding put_record sender_key_key
    store_sender_key b name device distribution_id rec =
        put_record b (dict_sender_key identity) (sender_key_key name device distribution_id) rec

    unfoldable pub load_sender_key : B → Text → ℕ → Text → Result (Option K) SignalError
    unfolding sender_key_key
    load_sender_key b name device distribution_id =
        map_err protocol_backend_err
          (kv.get b (dict_sender_key identity) (sender_key_key name device distribution_id))
        >>= (λ found. elim found [
          | none ↦ ok none
          | some bytes ↦ coding.deserialize bytes >>= (λ rec. ok (some rec))
        ])
