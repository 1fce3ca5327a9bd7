-- ===== src/KeyStores/Examples.antt =====
-- Runs of the key stores over the mock backend, and the theorems at concrete states.
use xous_app_signal.Prelude.{
  ℕ, zero, suc, ◌^◌, ◌-◌, ◌<◌, ◌≡◌, ◌≢◌, refl, subst, true, false, Option, some, String, Text,
  codes, [], ◌∷◌, nat_eq, text_eq, text_beq, Result, ok, err, arith,
}
use xous_app_signal.Collections.HashMap.{insertion_order, lookup, insert, pair_eq}
use xous_app_signal.Backend.{Bytes, KvBackend}
use xous_app_signal.Backend.Mock.{
  MockBackend, mock, mock_laws, IsSound, view, get, put, delete, lock, list_keys, keys_in,
}
use xous_app_signal.Labels.{decimal, decimal_from}
use xous_app_signal.Sessions.{IdentityType, SignalError}
use xous_app_signal.KeyStores.{
  Json, Coding, dict_kyber_prekey, dict_prekey_bundle, prekey_bundle_key, backend_get_json_protocol,
  backend_put_json_protocol, list_keys_as_u32s, filter_map_u32, parse_u32, read_digits,
}
use xous_app_signal.KeyStores.Laws.{JsonReads, Decodes}
use xous_app_signal.KeyStores.Identity.{IdentityCoding, IdentityChange, identity_key, save_identity}
use xous_app_signal.KeyStores.Trust.{Saved, save-trusted}
use xous_app_signal.KeyStores.Kyber.{
  KyberStored, meta_key, load_envelope, require_envelope, mark_kyber_pre_key_used, reused_base_key,
  max_id, max_kyber_pre_key_id,
}
use xous_app_signal.KeyStores.Replay.{mark-once, mark-forgets}
use xous_app_signal.KeyStores.PreKeys.{
  Bundle, find_id, upsert, retain_other, load_bundle, save_bundle, get_pre_key, save_pre_key,
  remove_pre_key, next_id, next_pq_pre_key_id,
}
use xous_app_signal.KeyStores.Packed.{save_pre_key-get, remove_pre_key-get}
use xous_app_signal.KeyStores.Fresh.{next_pq_pre_key_id-fresh}

abbrev kv : KvBackend MockBackend
kv = mock insertion_order

abbrev empty : MockBackend
empty = record { poisoned = false; entries = [] }

abbrev alice : Text
alice = codes "alice"

-- An identity key is its bytes.
abbrev plain : IdentityCoding Bytes
plain = record { serialize = λ k. k; decode = λ bytes. ok bytes }

save-trusted_example :
    Saved kv view IsSound
      (mock_laws insertion_order)
      IdentityType.aci
      plain
      (λ key. refl)
      empty
      alice
      1
      (7 ∷ [])
      IdentityChange.new_or_unchanged
unfolding save_identity mock get put lock lookup insert text_beq identity_key decimal decimal_from
save-trusted_example =
    save-trusted kv view IsSound (mock_laws insertion_order) IdentityType.aci plain (λ key. refl)
      empty alice 1 (7 ∷ []) IdentityChange.new_or_unchanged refl

-- An envelope is its flag and its bytes.
abbrev read_envelope : Bytes → Result KyberStored String
read_envelope [] = err "empty"
read_envelope (zero ∷ bytes) = ok (record { record_bytes = bytes; is_last_resort = false })
read_envelope (suc _ ∷ bytes) = ok (record { record_bytes = bytes; is_last_resort = true })

abbrev write_envelope : KyberStored → Result Bytes String
write_envelope e =
    ok (elim e.is_last_resort [ true ↦ 1 ∷ e.record_bytes | false ↦ 0 ∷ e.record_bytes ])

abbrev envelopes : Json KyberStored
envelopes = record { to_vec = write_envelope; from_slice = read_envelope }

-- A last-resort key with the id 4.
abbrev last_resort : MockBackend
last_resort = record {
  poisoned = false;
  entries = ((dict_kyber_prekey IdentityType.aci, codes "4"), 1 ∷ 66 ∷ []) ∷ [];
}

mark-once_example :
    (mark_kyber_pre_key_used kv envelopes IdentityType.aci
      (mark_kyber_pre_key_used kv envelopes IdentityType.aci last_resort 4 2 (9 ∷ [])).0
      4
      2
      (9 ∷ [])).1
    ≢ ok tt
unfolding mark_kyber_pre_key_used require_envelope load_envelope backend_get_json_protocol mock get
    put delete lock lookup insert text_beq decimal decimal_from meta_key
mark-once_example =
    mark-once kv view IsSound (mock_laws insertion_order) envelopes IdentityType.aci last_resort 4 2
      (9 ∷ []) refl

differs : Path Bytes (9 ∷ []) (8 ∷ []) → ⊥
differs h = ground (arith, h)

mark-forgets_example :
    (mark_kyber_pre_key_used kv envelopes IdentityType.aci
      (mark_kyber_pre_key_used kv envelopes IdentityType.aci last_resort 4 2 (8 ∷ [])).0
      4
      2
      (9 ∷ [])).1
    ≢ reused_base_key
unfolding mark_kyber_pre_key_used require_envelope load_envelope backend_get_json_protocol mock get
    put delete lock lookup insert text_beq decimal decimal_from meta_key
mark-forgets_example =
    mark-forgets kv view IsSound (mock_laws insertion_order) envelopes IdentityType.aci last_resort
      4 2 (9 ∷ []) (8 ∷ []) (record { record_bytes = 66 ∷ []; is_last_resort = true }) differs refl
      refl refl

not_last : Path (Result (Option ℕ) SignalError) (ok (some 4)) (ok (some (2 ^ 32 - 1))) → ⊥
not_last h = ground (arith, h)

next_pq_pre_key_id-fresh_example : 4 < 5
unfolding next_pq_pre_key_id max_kyber_pre_key_id list_keys_as_u32s filter_map_u32 parse_u32
    read_digits mock list_keys keys_in lock lookup text_beq decimal decimal_from max_id next_id
next_pq_pre_key_id-fresh_example =
    next_pq_pre_key_id-fresh kv view IsSound (mock_laws insertion_order) IdentityType.aci envelopes
      last_resort 5 4 refl refl not_last (omega arith) refl

-- A bundle of at most two pre-keys, the first of one byte if there are two.
abbrev write_bundle : Bundle → Result Bytes String
write_bundle [] = ok (0 ∷ [])
write_bundle ((id, bytes) ∷ []) = ok (1 ∷ id ∷ bytes)
write_bundle ((id, x ∷ []) ∷ (id', bytes) ∷ []) = ok (2 ∷ id ∷ x ∷ id' ∷ bytes)
write_bundle _ = err "too large"

abbrev read_bundle : Bytes → Result Bundle String
read_bundle (zero ∷ []) = ok []
read_bundle (suc zero ∷ id ∷ bytes) = ok ((id, bytes) ∷ [])
read_bundle (suc (suc zero) ∷ id ∷ x ∷ id' ∷ bytes) = ok ((id, x ∷ []) ∷ (id', bytes) ∷ [])
read_bundle _ = err "malformed"

abbrev bundles : Json Bundle
bundles = record { to_vec = write_bundle; from_slice = read_bundle }

same_bytes : {a b : Bytes} → Path (Result Bytes String) (ok a) (ok b) → a ≡ b
same_bytes h = ground (arith, h)

bundles_read : JsonReads bundles
bundles_read [] bytes h = subst (λ (x : Bytes). read_bundle x ≡ ok []) (same_bytes h) refl
bundles_read ((id, one) ∷ []) bytes h =
    subst (λ (x : Bytes). read_bundle x ≡ ok ((id, one) ∷ [])) (same_bytes h) refl
bundles_read ((id, []) ∷ b ∷ rest) bytes h = absurd (ground (arith, h))
bundles_read ((id, x ∷ []) ∷ (id', y) ∷ []) bytes h =
    subst (λ (z : Bytes). read_bundle z ≡ ok ((id, x ∷ []) ∷ (id', y) ∷ [])) (same_bytes h) refl
bundles_read ((id, x ∷ []) ∷ b ∷ c ∷ rest) bytes h = absurd (ground (arith, h))
bundles_read ((id, x ∷ y ∷ xs) ∷ b ∷ rest) bytes h = absurd (ground (arith, h))

abbrev raw : Coding Bytes
raw = record { serialize = λ k. ok k; deserialize = λ bytes. ok bytes }

raw-Decodes : Decodes raw
raw-Decodes k bytes h = ground (arith, h)

-- Pre-keys 1 and 2 are packed.
abbrev packed : MockBackend
packed = record {
  poisoned = false;
  entries = ((dict_prekey_bundle IdentityType.aci, prekey_bundle_key), 2 ∷ 1 ∷ 6 ∷ 2 ∷ 7 ∷ []) ∷ [];
}

save_pre_key-get_example :
    get_pre_key kv bundles IdentityType.aci raw
      (save_pre_key kv bundles IdentityType.aci raw packed 1 (5 ∷ [])).0
      2
    ≡ ok (7 ∷ [])
unfolding save_pre_key load_bundle save_bundle backend_get_json_protocol backend_put_json_protocol
    upsert get_pre_key find_id mock get put lock lookup insert text_beq
save_pre_key-get_example =
    save_pre_key-get kv view IsSound (mock_laws insertion_order) bundles bundles_read
      IdentityType.aci raw raw-Decodes packed 1 (5 ∷ []) 2 refl (_, refl)

remove_pre_key-get_example :
    get_pre_key kv bundles IdentityType.aci raw
      (remove_pre_key kv bundles IdentityType.aci packed 1).0
      2
    ≡ ok (7 ∷ [])
unfolding remove_pre_key get_pre_key load_bundle save_bundle backend_get_json_protocol
    backend_put_json_protocol retain_other find_id mock get put lock lookup insert text_beq
remove_pre_key-get_example =
    remove_pre_key-get kv view IsSound (mock_laws insertion_order) bundles bundles_read
      IdentityType.aci raw raw-Decodes packed 1 2 refl (_, refl)
