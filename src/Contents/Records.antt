-- ===== src/Contents/Records.antt =====
-- Profiles, contacts, groups and sticker packs: the other methods of `ContentsStore` in
-- crates/presage-store-pddb/src/content.rs. A UUID is its text, a profile key its bytes.
use xous_app_signal.Prelude.{
  Bool, true, false, not, Option, none, some, Text, List, [], ◌∷◌, ◌++◌, length, nat_beq,
  if◌then◌else◌, Result, ok, err, ◌>>=◌,
}
use xous_app_signal.Backend.{Error, Bytes, KvBackend}
use xous_app_signal.Sessions.{map_err}
use xous_app_signal.KeyStores.{Json, backend_get_json, backend_put_json, backend_get_json_required}
use xous_app_signal.AccountStore.{
  dict_contacts, dict_groups, dict_group_avatars, dict_profiles, dict_profile_keys,
  dict_profile_avatars, delete_dicts,
}
use xous_app_signal.Contents.{dict_sticker_packs, hex_encode, from_str_radix_16}

unfoldable pub group_key : Bytes → Text
unfolding hex_encode
group_key master_key = hex_encode master_key

unfoldable pub sticker_pack_key : Bytes → Text
unfolding hex_encode
sticker_pack_key id = hex_encode id

-- Two digits at a time.
unfoldable pub parse_pairs : Text → Result Bytes Error
parse_pairs [] = ok []
parse_pairs (c ∷ []) = err (Error.decode "hex parse")
parse_pairs (c ∷ d ∷ s) =
    let rest = parse_pairs s in
    elim (from_str_radix_16 256 (c ∷ d ∷ [])) [
      | none ↦ err (Error.decode "hex parse")
      | some byte ↦ rest >>= (λ bytes. ok (byte ∷ bytes))
    ]

unfoldable pub parse_hex_master_key : Text → Result Bytes Error
unfolding parse_pairs
parse_hex_master_key hex =
    if nat_beq (length hex) 64
    then parse_pairs hex
    else err (Error.decode "group key not 64 hex chars")

abbrev pub existed {ℓ} : {A : Type ℓ} → Option A → Bool
existed none = false
existed (some _) = true

module _ {B : Type 0} (kv : KvBackend B) where
  -- Every value of a dictionary, by its keys.
  unfoldable pub load_all : {T : Type 0} → Json T → B → Text → List Text → List (Result T Error)
  load_all json b dict [] = []
  load_all json b dict (k ∷ keys) =
      backend_get_json_required kv json b dict k "disappeared" ∷ load_all json b dict keys

  module _ (sha256_hex : Bytes → Text) where
    unfoldable pub profile_dict_key : Bytes → Bytes → Text
    profile_dict_key uuid key = sha256_hex (uuid ++ key)

    module _ {T : Type 0} (json : Json T) where
      unfoldable pub save_profile : B → Bytes → Bytes → T → B × Result (Unit {0}) Error
      unfolding profile_dict_key
      save_profile b uuid key profile =
          backend_put_json kv json b dict_profiles (profile_dict_key uuid key) profile

      unfoldable pub profile : B → Bytes → Bytes → Result (Option T) Error
      unfolding profile_dict_key
      profile b uuid key = backend_get_json kv json b dict_profiles (profile_dict_key uuid key)

    unfoldable pub save_profile_avatar : B → Bytes → Bytes → Bytes → B × Result (Unit {0}) Error
    unfolding profile_dict_key
    save_profile_avatar b uuid key avatar =
        kv.put b dict_profile_avatars (profile_dict_key uuid key) avatar

    unfoldable pub profile_avatar : B → Bytes → Bytes → Result (Option Bytes) Error
    unfolding profile_dict_key
    profile_avatar b uuid key = kv.get b dict_profile_avatars (profile_dict_key uuid key)

  -- `true` when there was no key before.
  unfoldable pub upsert_profile_key : {K : Type 0} → Json K → B → Text → K → B × Result Bool Error
  upsert_profile_key json b uuid key = elim (kv.get b dict_profile_keys uuid) [
    | err e ↦ (b, err e)
    | ok prior ↦ elim (json.to_vec key) [
      | err e ↦ (b, err (Error.encode e))
      | ok new_bytes ↦
          let (b', r) = kv.put b dict_profile_keys uuid new_bytes in
          (b', r >>= (λ _. ok (not (existed prior))))
    ]
  ]

  unfoldable pub profile_key : {K : Type 0} → Json K → B → Text → Result (Option K) Error
  profile_key json b uuid = kv.get b dict_profile_keys uuid >>= (λ found. elim found [
    | none ↦ ok none
    | some bytes ↦ map_err Error.decode (json.from_slice bytes) >>= (λ key. ok (some key))
  ])

  module _ {T : Type 0} (json : Json T) where
    unfoldable pub save_contact : B → Text → T → B × Result (Unit {0}) Error
    save_contact b uuid contact = backend_put_json kv json b dict_contacts uuid contact

    unfoldable pub contacts : B → Result (List (Result T Error)) Error
    unfolding load_all
    contacts b = kv.list_keys b dict_contacts >>= (λ keys. ok (load_all json b dict_contacts keys))

    unfoldable pub contact_by_id : B → Text → Result (Option T) Error
    contact_by_id b uuid = backend_get_json kv json b dict_contacts uuid

    unfoldable pub save_group : B → Bytes → T → B × Result (Unit {0}) Error
    unfolding group_key
    save_group b master_key value =
        backend_put_json kv json b dict_groups (group_key master_key) value

    unfoldable pub load_groups : B → List Text → List (Result (Bytes × T) Error)
    unfolding parse_hex_master_key
    load_groups b [] = []
    load_groups b (k ∷ keys) =
        (backend_get_json_required kv json b dict_groups k "group disappeared"
          >>= (λ value. parse_hex_master_key k >>= (λ master_key. ok (master_key, value))))
        ∷ load_groups b keys

    unfoldable pub groups : B → Result (List (Result (Bytes × T) Error)) Error
    unfolding load_groups
    groups b = kv.list_keys b dict_groups >>= (λ keys. ok (load_groups b keys))

    unfoldable pub group_of : B → Bytes → Result (Option T) Error
    unfolding group_key
    group_of b master_key = backend_get_json kv json b dict_groups (group_key master_key)

    unfoldable pub add_sticker_pack : B → Bytes → T → B × Result (Unit {0}) Error
    unfolding sticker_pack_key
    add_sticker_pack b id pack =
        backend_put_json kv json b dict_sticker_packs (sticker_pack_key id) pack

    unfoldable pub sticker_pack : B → Bytes → Result (Option T) Error
    unfolding sticker_pack_key
    sticker_pack b id = backend_get_json kv json b dict_sticker_packs (sticker_pack_key id)

    unfoldable pub sticker_packs : B → Result (List (Result T Error)) Error
    unfolding load_all
    sticker_packs b =
        kv.list_keys b dict_sticker_packs >>= (λ keys. ok (load_all json b dict_sticker_packs keys))

  unfoldable pub remove_sticker_pack : B → Bytes → B × Result Bool Error
  unfolding sticker_pack_key
  remove_sticker_pack b id = elim (kv.get b dict_sticker_packs (sticker_pack_key id)) [
    | err e ↦ (b, err e)
    | ok found ↦
        let (b', r) = kv.delete b dict_sticker_packs (sticker_pack_key id) in
        (b', r >>= (λ _. ok (existed found)))
  ]

  unfoldable pub save_group_avatar : B → Bytes → Bytes → B × Result (Unit {0}) Error
  unfolding group_key
  save_group_avatar b master_key avatar = kv.put b dict_group_avatars (group_key master_key) avatar

  unfoldable pub group_avatar : B → Bytes → Result (Option Bytes) Error
  unfolding group_key
  group_avatar b master_key = kv.get b dict_group_avatars (group_key master_key)

  unfoldable pub clear_contacts : B → B × Result (Unit {0}) Error
  unfolding delete_dicts
  clear_contacts b = delete_dicts kv b (dict_contacts ∷ [])

  unfoldable pub clear_groups : B → B × Result (Unit {0}) Error
  unfolding delete_dicts
  clear_groups b = delete_dicts kv b (dict_groups ∷ dict_group_avatars ∷ [])
