-- ===== src/Sessions/Cache.antt =====
-- `SessionStore` and `SessionStoreExt` for `PddbProtocolStore`:
-- crates/presage-store-pddb/src/protocol/session_store.rs and session_store_ext.rs. An address is
-- its name and device; a `ServiceId` is the text of its UUID; `order` and `keys_in_order` are the
-- orders in which the maps are walked.
use xous_app_signal.Prelude.{
  ℕ, Option, none, some, Text, List, [], ◌∷◌, if◌then◌else◌, nat_eq, text_eq, Result, ok, err,
  ◌>>=◌,
}
use xous_app_signal.Collections.HashMap.{HashMap, Iteration, pair_eq, lookup, insert, remove}
use xous_app_signal.Backend.{Bytes, KvBackend}
use xous_app_signal.Sessions.{
  IdentityType, identity_eq, dict_session, SessionKey, SignalError, protocol_backend_err, map_err,
  Codec, PddbStore, cache_poison, dirty_poison, get_bundle_protocol, put_bundle_protocol,
}

module _ {B R : Type 0} (kv : KvBackend B) (codec : Codec R) (identity : IdentityType) where
  -- The records of a bundle that the cache does not have yet, up to the first that is malformed.
  unfoldable pub populate :
      Text
      → List (ℕ × Bytes)
      → HashMap SessionKey R
      → HashMap SessionKey R × Result (Unit {0}) SignalError
  populate name [] cache = (cache, ok tt)
  populate name ((dev_id, ser) ∷ rest) cache = elim (lookup (identity, (name, dev_id)) cache) [
    | some _ ↦ populate name rest cache
    | none ↦ elim (codec.deserialize ser) [
      | err e ↦ (cache, err e)
      | ok rec ↦ populate name rest (insert (identity, (name, dev_id)) rec cache)
    ]
  ]

  module _ (order : Iteration ℕ Bytes) where
    unfoldable pub load_session :
        PddbStore B R → Text → ℕ → PddbStore B R × Result (Option R) SignalError
    load_session s name device =
        if s.cache_poisoned
        then (s, cache_poison)
        else (elim (lookup (identity, (name, device)) s.session_cache) [
          | some rec ↦ (s, ok (some rec))
          | none ↦ elim (get_bundle_protocol codec kv s.backend (dict_session identity) name) [
            | err e ↦ (s, err e)
            | ok none ↦ (s, ok none)
            | ok (some bundle) ↦
                let (cache, r) = populate name (order.entries bundle) s.session_cache in
                (
                  record s { session_cache = cache },
                  r >>= (λ _. elim (lookup device bundle) [
                    | none ↦ ok none
                    | some ser ↦ codec.deserialize ser >>= (λ rec. ok (some rec))
                  ]),
                )
          ]
        ])

  unfoldable pub store_session :
      PddbStore B R → Text → ℕ → R → PddbStore B R × Result (Unit {0}) SignalError
  store_session s name device rec =
      if s.cache_poisoned
      then (s, cache_poison)
      else (let s' = record s {
        session_cache = insert (identity, (name, device)) rec s.session_cache;
      } in
          if s.dirty_poisoned then (s', dirty_poison) else (
            record s' { session_dirty = insert (identity, (name, device)) tt s.session_dirty },
            ok tt,
          ))

  unfoldable pub delete_session :
      PddbStore B R → Text → ℕ → PddbStore B R × Result (Unit {0}) SignalError
  delete_session s name device =
      if s.cache_poisoned
      then (s, cache_poison)
      else (let s1 = record s {
        session_cache = remove (identity, (name, device)) s.session_cache;
      } in
          if s.dirty_poisoned
          then (s1, dirty_poison)
          else (let s2 = record s1 {
            session_dirty = remove (identity, (name, device)) s.session_dirty;
          } in
              elim (get_bundle_protocol codec kv s.backend (dict_session identity) name) [
                | err e ↦ (s2, err e)
                | ok none ↦ (s2, ok tt)
                | ok (some bundle) ↦ elim (lookup device bundle) [
                  | none ↦ (s2, ok tt)
                  | some _ ↦ elim (remove device bundle) [
                    | [] ↦
                        let (b, r) = kv.delete s.backend (dict_session identity) name in
                        (record s2 { backend = b }, map_err protocol_backend_err r)
                    | entry ∷ rest ↦
                        let (b, r) =
                          put_bundle_protocol codec kv s.backend (dict_session identity) name
                            (entry ∷ rest) in
                        (record s2 { backend = b }, r)
                  ]
                ]
              ]))
