-- ===== src/Sessions/Flush.antt =====
-- `PddbStore::flush_sessions` of crates/presage-store-pddb/src/lib.rs, and the two bulk methods of
-- crates/presage-store-pddb/src/protocol/session_store_ext.rs.
use xous_app_signal.Prelude.{
  ℕ, ◌+◌, Bool, true, false, not, ◌&&◌, Option, none, some, Text, List, [], ◌∷◌, ◌++◌, length,
  if◌then◌else◌, nat_eq, text_eq, text_beq, Result, ok, err, ◌>>=◌,
}
use xous_app_signal.Collections.HashMap.{HashMap, Iteration, pair_eq, lookup, insert, retain}
use xous_app_signal.Backend.{Error, Bytes, KvBackend}
use xous_app_signal.Sessions.{
  IdentityType, same_identity, identity_eq, dict_session, SessionKey, SessionBundle, SignalError,
  protocol_backend_err, map_err, Codec, PddbStore, cache_poison, dirty_poison, get_bundle,
  put_bundle, get_bundle_protocol,
}

abbrev pub is_some {ℓ} : {A : Type ℓ} → Option A → Bool
is_some none = false
is_some (some _) = true

-- The dirty entries by address: one write for each.
abbrev pub Groups : Type 0
Groups = HashMap (IdentityType × Text) (List (ℕ × Bytes))

abbrev pub or_default : Option (List (ℕ × Bytes)) → List (ℕ × Bytes)
or_default none = []
or_default (some entries) = entries

unfoldable pub add_entry : IdentityType × Text → ℕ × Bytes → Groups → Groups
add_entry at entry groups = insert at (or_default (lookup at groups) ++ (entry ∷ [])) groups

unfoldable pub write_entries : List (ℕ × Bytes) → SessionBundle → SessionBundle
write_entries [] bundle = bundle
write_entries ((device_id, ser) ∷ entries) bundle =
    write_entries entries (insert device_id ser bundle)

module _ {B R : Type 0} (kv : KvBackend B) (codec : Codec R) where
  -- The grouping loop over the keys of the dirty set.
  unfoldable pub group :
      List (SessionKey × Unit {0}) → HashMap SessionKey R → Groups → Result Groups Error
  group [] cache groups = ok groups
  group (((identity, (name, device)), _) ∷ keys) cache groups =
      elim (lookup (identity, (name, device)) cache) [
        | none ↦ group keys cache groups
        | some rec ↦ elim (codec.serialize rec) [
          | err e ↦ err (Error.encode e)
          | ok bytes ↦ group keys cache (add_entry (identity, name) (device, bytes) groups)
        ]
      ]

  abbrev pub unwrap_or_default : Option SessionBundle → SessionBundle
  unwrap_or_default none = []
  unwrap_or_default (some bundle) = bundle

  -- The loop over the groups: the backend, and the count so far or the error that ended it.
  unfoldable pub write_groups :
      List ((IdentityType × Text) × List (ℕ × Bytes)) → B → ℕ → B × Result ℕ Error
  write_groups [] b written = (b, ok written)
  write_groups (((identity, name), entries) ∷ groups) b written =
      elim (get_bundle codec kv b (dict_session identity) name) [
        | err e ↦ (b, err e)
        | ok found ↦
            let (b', r) =
              put_bundle codec kv b (dict_session identity) name
                (write_entries entries (unwrap_or_default found)) in
            let rest = write_groups groups b' (written + length entries) in
            elim r [ err e ↦ (b', err e) | ok _ ↦ rest ]
      ]

  module _ (dirty_order : Iteration SessionKey (Unit {0}))
      (group_order : Iteration (IdentityType × Text) (List (ℕ × Bytes))) where
    unfoldable pub flush_sessions : PddbStore B R → PddbStore B R × Result ℕ Error
    flush_sessions s =
        if s.dirty_poisoned
        then (s, err (Error.backend "session dirty mutex poisoned"))
        else (elim s.session_dirty [
          | [] ↦ (s, ok 0)
          | key ∷ keys ↦
              if s.cache_poisoned
              then (s, err (Error.backend "session cache mutex poisoned"))
              else (elim (group (dirty_order.entries (key ∷ keys)) s.session_cache []) [
                | err e ↦ (s, err e)
                | ok groups ↦
                    let (b, r) = write_groups (group_order.entries groups) s.backend 0 in
                    elim r [
                      | err e ↦ (record s { backend = b }, err e)
                      | ok written ↦ (record s { backend = b; session_dirty = [] }, ok written)
                    ]
              ])
        ])

  module _ (identity : IdentityType) where
    unfoldable pub cached_devices : Text → HashMap SessionKey R → List ℕ
    cached_devices uuid [] = []
    cached_devices uuid (((id_kind, (addr, dev)), _) ∷ cache) =
        let rest = cached_devices uuid cache in
        if same_identity id_kind identity && text_beq addr uuid then dev ∷ rest else rest

    abbrev pub is_of : Text → SessionKey → Bool
    is_of uuid (id_kind, (addr, dev)) = same_identity id_kind identity && text_beq addr uuid

    -- The set of devices as a map to the unit.
    unfoldable pub insert_devices : List ℕ → HashMap ℕ (Unit {0}) → HashMap ℕ (Unit {0})
    insert_devices [] affected = affected
    insert_devices (dev ∷ devs) affected = insert_devices devs (insert dev tt affected)

    unfoldable pub bundle_keys : SessionBundle → List ℕ
    bundle_keys [] = []
    bundle_keys ((dev, _) ∷ bundle) = dev ∷ bundle_keys bundle

    unfoldable pub delete_all_sessions : PddbStore B R → Text → PddbStore B R × Result ℕ SignalError
    delete_all_sessions s uuid =
        if s.cache_poisoned
        then (s, cache_poison)
        else if s.dirty_poisoned
        then (s, dirty_poison)
        else (let affected = insert_devices (cached_devices uuid s.session_cache) [] in
            let s' = record s {
              session_cache = retain (λ key. not (is_of uuid key)) s.session_cache;
              session_dirty =
                  retain (λ key. not (is_of uuid key && is_some (lookup key s.session_cache)))
                    s.session_dirty;
            } in
            elim (get_bundle_protocol codec kv s.backend (dict_session identity) uuid) [
              | err e ↦ (s', err e)
              | ok none ↦ (s', ok (length affected))
              | ok (some bundle) ↦
                  let (b, r) = kv.delete s.backend (dict_session identity) uuid in
                  (
                    record s' { backend = b },
                    map_err protocol_backend_err r
                        >>= (λ _. ok (length (insert_devices (bundle_keys bundle) affected))),
                  )
            ])
