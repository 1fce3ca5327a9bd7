-- ===== src/Sessions/Deleting.antt =====
-- What a deleted session looks like to `load_session`:
-- crates/presage-store-pddb/src/protocol/session_store.rs and session_store_ext.rs.
use xous_app_signal.Prelude.{
  ℕ, ◌≡◌, refl, sym, ap, ◌∙◌, false, Option, none, some, Option-cases, Result-cases, inl, inr, ◌⊎◌,
  Text, List, [], ◌∷◌, nat_eq, text_eq, text_beq_iff, Result, ok, err, arith, ==_refl, nat_beq_iff,
}
use xous_app_signal.Collections.HashMap.{HashMap, Iteration, pair_eq, lookup, remove, lookup-remove}
use xous_app_signal.Backend.{Error, Bytes, KvBackend}
use xous_app_signal.Backend.Laws.{Laws}
use xous_app_signal.Sessions.{
  IdentityType, identity_eq, dict_session, SessionKey, SessionBundle, SignalError, Codec, PddbStore,
  get_bundle_protocol, put_bundle_protocol, map_err, protocol_backend_err,
}
use xous_app_signal.Sessions.Cache.{load_session, delete_session}
use xous_app_signal.Sessions.Loading.{
  RoundTrips, get_bundle_protocol-some, put_bundle_protocol-ok, deserialize-version,
}

list-cases {ℓ} :
    {A : Type ℓ} (xs : List A) → (xs ≡ []) ⊎ ((x : A) × (rest : List A) × (xs ≡ x ∷ rest))
list-cases [] = inl refl
list-cases (x ∷ rest) = inr (x, rest, refl)

ok_of_map_err : (r : Result (Unit {0}) Error) → map_err protocol_backend_err r ≡ ok tt → r ≡ ok tt
ok_of_map_err (ok u) h = refl
ok_of_map_err (err e) h = ground (arith, h)

module _ {B R : Type 0} (kv : KvBackend B) (codec : Codec R) (identity : IdentityType)
    (order : Iteration ℕ Bytes) where
  -- The backend has no record of the device.
  abbrev Lacks : B → Text → ℕ → Type 0
  Lacks b name device =
      (bundle : SessionBundle)
      → get_bundle_protocol codec kv b (dict_session identity) name ≡ ok (some bundle)
      → lookup device bundle ≡ none

  load_lacking :
      (s : PddbStore B R) (name : Text) (device : ℕ) (r : Option R)
      → lookup (identity, (name, device)) s.session_cache ≡ none
      → Lacks s.backend name device
      → (load_session kv codec identity order s name device).1 ≡ ok r
      → r ≡ none
  unfolding load_session
  load_lacking s name device r miss lacks h =
      elim (Result-cases (get_bundle_protocol codec kv s.backend (dict_session identity) name)) [
        | inr (e, bad) ↦ ground (arith, h, miss, bad)
        | inl (found, got) ↦ elim (Option-cases found) [
          | inl none_there ↦ ground (arith, h, miss, got, none_there)
          | inr (bundle, there) ↦ ground (arith, h, miss, got, there, lacks bundle)
        ]
      ]

  module _ (view : B → Text → Text → Option Bytes) (IsValid : B → Type 0)
      (laws : Laws kv view IsValid) (codec_reads : RoundTrips codec) where
    deleted_gone :
        (b : B) (name : Text) (device : ℕ)
        → (kv.delete b (dict_session identity) name).1 ≡ ok tt
        → Lacks (kv.delete b (dict_session identity) name).0 name device
    deleted_gone b name device done bundle h =
        let (bytes, got, _) = get_bundle_protocol-some kv codec _ _ _ bundle h in
        ground (
          arith,
          laws.get_ok _ _ _ _ got,
          laws.delete_ok b (dict_session identity) name (dict_session identity) name done,
          text_beq_iff (dict_session identity) (dict_session identity),
          text_beq_iff name name,
        )

    put_gone :
        (b : B) (name : Text) (device : ℕ) (kept : SessionBundle)
        → lookup device kept ≡ none
        → (put_bundle_protocol codec kv b (dict_session identity) name kept).1 ≡ ok tt
        → Lacks (put_bundle_protocol codec kv b (dict_session identity) name kept).0 name device
    put_gone b name device kept gone done bundle h =
        let dict = dict_session identity in
        let (body, written, state, put_ok) =
          put_bundle_protocol-ok kv codec b dict name kept done in
        let (bundle', reads, same) = codec_reads kept body written in
        let (bytes, got, decoded) = get_bundle_protocol-some kv codec _ _ _ bundle h in
        let held = laws.put_ok b dict name (1 ∷ body) dict name put_ok in
        ground (
          arith,
          state,
          laws.get_ok _ _ _ _ got,
          held,
          decoded,
          deserialize-version kv codec body bundle' reads,
          same device,
          gone,
          text_beq_iff dict dict,
          text_beq_iff name name,
        )

    lookup-removed :
        (device : ℕ) (bundle : SessionBundle) → lookup device (remove device bundle) ≡ none
    lookup-removed device bundle =
        ground (arith, lookup-remove device device bundle, nat_beq_iff device device)

    -- What a deletion that says `ok` has done.
    abbrev Gone : Text → ℕ → PddbStore B R × Result (Unit {0}) SignalError → Type 0
    Gone name device x =
        x.1 ≡ ok tt
        → (lookup (identity, (name, device)) x.0.session_cache ≡ none)
          × Lacks x.0.backend name device

    uncached :
        (key : SessionKey) (cache : HashMap SessionKey R) → lookup key (remove key cache) ≡ none
    uncached key cache = lookup-remove key key cache ∙ rw (==_refl key) refl

    abbrev forgotten : PddbStore B R → SessionKey → B → PddbStore B R
    forgotten s key b = record s {
      backend = b;
      session_cache = remove key s.session_cache;
      session_dirty = remove key s.session_dirty;
    }

    delete_session-Gone :
        (s : PddbStore B R) (name : Text) (device : ℕ)
        → s.cache_poisoned ≡ false
        → s.dirty_poisoned ≡ false
        → Gone name device (delete_session kv codec identity s name device)
    unfolding delete_session
    delete_session-Gone s name device c d =
        let key : SessionKey = (identity, (name, device)) in
        let dict = dict_session identity in
        let absent = uncached key s.session_cache in
        elim (Result-cases (get_bundle_protocol codec kv s.backend dict name)) [
          | inr (e, bad) ↦ rw (delete_session, c, d, bad) (λ done. ground (arith, done))
          | inl (none, got) ↦
              rw (delete_session, c, d, got) (λ _. (absent, λ bundle h. ground (arith, h, got)))
          | inl (some bundle, got) ↦ elim (Option-cases (lookup device bundle)) [
            | inl missing ↦
                rw (delete_session, c, d, got, missing)
                  (λ _. (absent, λ found h. ground (arith, h, got, missing)))
            | inr (ser, there) ↦ elim (list-cases (remove device bundle)) [
              | inl emptied ↦
                  rw (delete_session, c, d, got, there, emptied)
                    (λ done. (absent, deleted_gone s.backend name device (ok_of_map_err _ done)))
              | inr (entry, rest, left) ↦
                  rw (delete_session, c, d, got, there, left)
                    (λ done. (
                      absent,
                      put_gone s.backend name device (entry ∷ rest)
                          (ap (lookup device) (sym left) ∙ lookup-removed device bundle) done,
                    ))
            ]
          ]
        ]

    -- With sound locks, after a deletion that succeeds, over a lawful backend and with a codec that reads back what
    -- it writes, no load of the session yields a record: it yields none, or an error of its own.
    pub delete_session-load :
        (s : PddbStore B R) (name : Text) (device : ℕ) (r : Option R)
        → s.cache_poisoned ≡ false
        → s.dirty_poisoned ≡ false
        → (delete_session kv codec identity s name device).1 ≡ ok tt
        → (load_session kv codec identity order
            (delete_session kv codec identity s name device).0
            name
            device).1
          ≡ ok r
        → r ≡ none
    delete_session-load s name device r c d done h =
        let (miss, lacks) = delete_session-Gone s name device c d done in
        load_lacking (delete_session kv codec identity s name device).0 name device r miss lacks h
