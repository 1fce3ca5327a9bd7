-- ===== src/Sessions/Loading.antt =====
-- What a stored session looks like to `load_session`, and the bundles behind it:
-- crates/presage-store-pddb/src/protocol/session_store.rs.
use xous_app_signal.Prelude.{
  ℕ, ◌≡◌, refl, ◌∙◌, false, some, Result-cases, inl, inr, Text, ◌∷◌, nat_eq, text_eq, ok, arith,
  ==_refl,
}
use xous_app_signal.Collections.HashMap.{Iteration, pair_eq, lookup, insert, lookup-insert}
use xous_app_signal.Backend.{Bytes, KvBackend}
use xous_app_signal.Sessions.{
  IdentityType, identity_eq, SessionKey, SessionBundle, Codec, PddbStore, serialize_session_bundle,
  deserialize_session_bundle, get_bundle_protocol, put_bundle_protocol,
}
use xous_app_signal.Sessions.Cache.{load_session, store_session}

-- What is relied on of the bundle's codec: it reads back the same map.
abbrev pub RoundTrips : {R : Type 0} → Codec R → Type 0
RoundTrips codec =
    (bundle : SessionBundle) (body : Bytes)
    → codec.bincode_serialize bundle ≡ ok body
    → (bundle' : SessionBundle) × (codec.bincode_deserialize body ≡ ok bundle')
      × ((device : ℕ) → lookup device bundle' ≡ lookup device bundle)

module _ {B R : Type 0} (kv : KvBackend B) (codec : Codec R) where
  pub get_bundle_protocol-some :
      (b : B) (dict key : Text) (bundle : SessionBundle)
      → get_bundle_protocol codec kv b dict key ≡ ok (some bundle)
      → (bytes : Bytes) × (kv.get b dict key ≡ ok (some bytes))
        × (deserialize_session_bundle codec bytes ≡ ok bundle)
  unfolding get_bundle_protocol
  get_bundle_protocol-some b dict key bundle h = ground (arith, h)

  pub put_bundle_protocol-ok :
      (b : B) (dict key : Text) (bundle : SessionBundle)
      → (put_bundle_protocol codec kv b dict key bundle).1 ≡ ok tt
      → (body : Bytes) × (codec.bincode_serialize bundle ≡ ok body)
        × ((put_bundle_protocol codec kv b dict key bundle).0 ≡ (kv.put b dict key (1 ∷ body)).0)
        × ((kv.put b dict key (1 ∷ body)).1 ≡ ok tt)
  unfolding put_bundle_protocol serialize_session_bundle
  put_bundle_protocol-ok b dict key bundle done =
      elim (Result-cases (codec.bincode_serialize bundle)) [
        | inr (e, bad) ↦ ground (arith, done, bad)
        | inl (body, fine) ↦ (body, fine, ground (arith, fine), ground (arith, done, fine))
      ]

  pub deserialize-version :
      (body : Bytes) (bundle : SessionBundle)
      → codec.bincode_deserialize body ≡ ok bundle
      → deserialize_session_bundle codec (1 ∷ body) ≡ ok bundle
  unfolding deserialize_session_bundle
  deserialize-version body bundle h = rw h refl

module _ {B R : Type 0} (kv : KvBackend B) (codec : Codec R) (identity : IdentityType)
    (order : Iteration ℕ Bytes) where
  abbrev stored : PddbStore B R → SessionKey → R → PddbStore B R
  stored s key rec = record s {
    session_cache = insert key rec s.session_cache;
    session_dirty = insert key tt s.session_dirty;
  }

  store_session_lem :
      (s : PddbStore B R) (name : Text) (device : ℕ) (rec : R)
      → s.cache_poisoned ≡ false
      → s.dirty_poisoned ≡ false
      → store_session kv codec identity s name device rec
        ≡ (stored s (identity, (name, device)) rec, ok tt)
  unfolding store_session
  store_session_lem s name device rec c d = rw (store_session, c, d) refl

  load_cached :
      (s : PddbStore B R) (name : Text) (device : ℕ) (rec : R)
      → s.cache_poisoned ≡ false
      → lookup (identity, (name, device)) s.session_cache ≡ some rec
      → load_session kv codec identity order s name device ≡ (s, ok (some rec))
  unfolding load_session
  load_cached s name device rec c hit = ground (arith, c, hit)

  abbrev pub Reloads : PddbStore B R → Text → ℕ → R → Type 0
  Reloads s name device rec =
      let (s', r) = store_session kv codec identity s name device rec in
      (r ≡ ok tt)
      × (load_session kv codec identity order s' name device ≡ (s', ok (some rec)))
      × (lookup (identity, (name, device)) s'.session_dirty ≡ some tt)
      × (s'.backend ≡ s.backend)

  -- A session stored under sound locks is the one that the next load of its address and device
  -- yields, without a look at the backend; it is marked dirty for the next flush, and the backend
  -- is as it was.
  pub store_session-load :
      (s : PddbStore B R) (name : Text) (device : ℕ) (rec : R)
      → s.cache_poisoned ≡ false
      → s.dirty_poisoned ≡ false
      → Reloads s name device rec
  store_session-load s name device rec c d =
      let key : SessionKey = (identity, (name, device)) in
      let self = ==_refl key in
      rw (store_session_lem s name device rec c d) (
        refl,
        load_cached (stored s key rec) name device rec c
            (lookup-insert key key rec s.session_cache ∙ rw self refl),
        lookup-insert key key tt s.session_dirty ∙ rw self refl,
        refl,
      )
