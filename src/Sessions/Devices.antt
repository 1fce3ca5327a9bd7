-- ===== src/Sessions/Devices.antt =====
-- The devices that an account has sessions with, and the counts of the cache: `get_sub_device_sessions`
-- of crates/presage-store-pddb/src/protocol/session_store_ext.rs and `session_cache_len` and
-- `session_dirty_len` of lib.rs. The default device and the ids that libsignal accepts are parameters.
use xous_app_signal.Prelude.{
  ◌≡◌, refl, ℕ, not, ◌&&◌, Option, none, some, Text, text_beq, List, [], ◌∷◌, ◌++◌, length, nat_beq,
  nat_eq, text_eq, HasEq, if◌then◌else◌, Result, ok, ◌>>=◌,
}
use xous_app_signal.Collections.HashMap.{Iteration, pair_eq}
use xous_app_signal.Backend.{Bytes, KvBackend}
use xous_app_signal.Contents.{sort_unstable}
use xous_app_signal.Sessions.{
  IdentityType, identity_eq, dict_session, SessionKey, SignalError, Codec, PddbStore, cache_poison,
  get_bundle_protocol,
}

module _ {B R : Type 0} where
  unfoldable pub session_cache_len : PddbStore B R → ℕ
  session_cache_len s = if s.cache_poisoned then 0 else length s.session_cache

  unfoldable pub session_dirty_len : PddbStore B R → ℕ
  session_dirty_len s = if s.dirty_poisoned then 0 else length s.session_dirty

module _ {R : Type 0} where
  -- The devices of an address in the cache, but for the main one.
  unfoldable pub other_devices : IdentityType → Text → ℕ → List (SessionKey × R) → List ℕ
  other_devices identity uuid main [] = []
  other_devices identity uuid main (((id_kind, (addr, dev)), rec) ∷ cache) =
      let rest = other_devices identity uuid main cache in
      if HasEq.same identity_eq id_kind identity && (text_beq addr uuid && not (nat_beq dev main))
      then dev ∷ rest
      else rest

-- The devices of a bundle, but for the main one.
unfoldable pub bundle_devices : ℕ → List (ℕ × Bytes) → List ℕ
bundle_devices main [] = []
bundle_devices main ((dev, ser) ∷ bundle) =
    let rest = bundle_devices main bundle in if nat_beq dev main then rest else dev ∷ rest

-- `dedup`: of equal neighbours one stays.
unfoldable pub dedup : List ℕ → List ℕ
dedup [] = []
dedup (x ∷ []) = x ∷ []
dedup (x ∷ y ∷ ys) = let rest = dedup (y ∷ ys) in if nat_beq x y then rest else x ∷ rest

-- `filter_map` of `DeviceId::try_from(..).ok()`
unfoldable pub device_ids : {D : Type 0} → (ℕ → Option D) → List ℕ → List D
device_ids try_from [] = []
device_ids try_from (d ∷ ds) =
    let rest = device_ids try_from ds in elim (try_from d) [ none ↦ rest | some id ↦ id ∷ rest ]

module _ {B R D : Type 0} (kv : KvBackend B) (codec : Codec R) (identity : IdentityType)
    (order : Iteration ℕ Bytes) (cache_order : Iteration SessionKey R) (main : ℕ)
    (try_from : ℕ → Option D) where
  unfoldable pub get_sub_device_sessions : PddbStore B R → Text → Result (List D) SignalError
  unfolding other_devices bundle_devices dedup device_ids sort_unstable
  get_sub_device_sessions s uuid =
      let cached = other_devices identity uuid main (cache_order.entries s.session_cache) in
      if s.cache_poisoned
      then cache_poison
      else (get_bundle_protocol codec kv s.backend (dict_session identity) uuid >>= (λ found. ok (
          device_ids try_from (
            dedup (
              sort_unstable (elim found [
                | none ↦ cached
                | some bundle ↦ cached ++ bundle_devices main (order.entries bundle)
              ]))))))

dedup-example : dedup (sort_unstable (3 ∷ 2 ∷ 3 ∷ [])) ≡ 2 ∷ 3 ∷ []
unfolding dedup sort_unstable
dedup-example = refl
