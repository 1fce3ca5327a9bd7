-- ===== src/KeyStores/Packed.antt =====
-- The packed one-time pre-keys are a map from ids: crates/presage-store-pddb/src/protocol/pre_key_store.rs.
use xous_app_signal.Prelude.{
  ℕ, ◌≡◌, refl, sym, ap, ◌∙◌, Option, none, some, Text, [], ◌∷◌, nat_beq, if◌then◌else◌, Result, ok,
  err, Result-cases, inl, inr, arith,
}
use xous_app_signal.Backend.{Bytes, KvBackend}
use xous_app_signal.Backend.Laws.{Laws}
use xous_app_signal.Sessions.{IdentityType, SignalError, invalid_pre_key_id}
use xous_app_signal.KeyStores.{
  Json, Coding, dict_prekey_bundle, prekey_bundle_key, backend_get_json_protocol,
}
use xous_app_signal.KeyStores.Laws.{JsonReads, Decodes, put-view, put_json-ok}
use xous_app_signal.KeyStores.PreKeys.{
  Bundle, find_id, upsert, retain_other, load_bundle, save_bundle, get_pre_key, save_pre_key,
  remove_pre_key,
}

find_id-upsert :
    (id at : ℕ) (bytes : Bytes) (bundle : Bundle)
    → find_id at (upsert id bytes bundle)
      ≡ (if nat_beq id at then some bytes else find_id at bundle)
unfolding find_id upsert
find_id-upsert id at bytes [] = refl
find_id-upsert id at bytes ((rid, old) ∷ bundle) = ground (arith, find_id-upsert id at bytes bundle)

find_id-retain_other :
    (id at : ℕ) (bundle : Bundle)
    → find_id at (retain_other id bundle) ≡ (if nat_beq id at then none else find_id at bundle)
unfolding find_id retain_other
find_id-retain_other id at [] = ground arith
find_id-retain_other id at ((rid, old) ∷ bundle) = ground (arith, find_id-retain_other id at bundle)

module _ {B : Type 0} (kv : KvBackend B) (view : B → Text → Text → Option Bytes)
    (IsValid : B → Type 0) (laws : Laws kv view IsValid) (json : Json Bundle)
    (json_reads : JsonReads json) (identity : IdentityType) where
  -- Where the backend answers, a saved bundle is the one that is loaded.
  save_bundle-load :
      (b : B) (bundle : Bundle) (r : Option Bytes)
      → (save_bundle kv json identity b bundle).1 ≡ ok tt
      → kv.get
          (save_bundle kv json identity b bundle).0
          (dict_prekey_bundle identity)
          prekey_bundle_key
        ≡ ok r
      → load_bundle kv json identity (save_bundle kv json identity b bundle).0 ≡ ok bundle
  unfolding save_bundle load_bundle backend_get_json_protocol
  save_bundle-load b bundle r done answers =
      let dict = dict_prekey_bundle identity in
      let (bytes, written, state, put_ok) =
        put_json-ok kv view IsValid laws json b dict prekey_bundle_key bundle "encode prekey bundle"
          done in
      let b' = (save_bundle kv json identity b bundle).0 in
      let held : r ≡ some bytes =
        laws.get_ok b' dict prekey_bundle_key r answers
        ∙ ap (λ (x : B). view x dict prekey_bundle_key) state
        ∙ put-view kv view IsValid laws b dict prekey_bundle_key bytes put_ok in
      ground (arith, answers, held, json_reads bundle bytes written)

  module _ {K : Type 0} (coding : Coding K) (decodes : Decodes coding) where
    -- What an id finds in a bundle.
    abbrev pub found_in : Bundle → ℕ → Result K SignalError
    found_in bundle id = elim (find_id id bundle) [
      | none ↦ err invalid_pre_key_id
      | some bytes ↦ coding.deserialize bytes
    ]

    get-found_in :
        (b : B) (bundle : Bundle) (id : ℕ)
        → load_bundle kv json identity b ≡ ok bundle
        → get_pre_key kv json identity coding b id ≡ found_in bundle id
    unfolding get_pre_key
    get-found_in b bundle id got = ground (arith, got)

    save-cases :
        (b : B) (id : ℕ) (rec : K)
        → (save_pre_key kv json identity coding b id rec).1 ≡ ok tt
        → (bytes : Bytes) × (bundle : Bundle) × (coding.serialize rec ≡ ok bytes)
          × (load_bundle kv json identity b ≡ ok bundle)
          × (save_pre_key kv json identity coding b id rec
              ≡ save_bundle kv json identity b (upsert id bytes bundle))
    unfolding save_pre_key
    save-cases b id rec h = elim (Result-cases (coding.serialize rec)) [
      | inr (e, bad) ↦ ground (arith, h, bad)
      | inl (bytes, fine) ↦ elim (Result-cases (load_bundle kv json identity b)) [
        | inr (e, bad) ↦ ground (arith, h, fine, bad)
        | inl (bundle, got) ↦ (bytes, bundle, fine, got, ground (arith, fine, got))
      ]
    ]

    remove-cases :
        (b : B) (id : ℕ)
        → (remove_pre_key kv json identity b id).1 ≡ ok tt
        → (bundle : Bundle) × (load_bundle kv json identity b ≡ ok bundle)
          × (remove_pre_key kv json identity b id
              ≡ save_bundle kv json identity b (retain_other id bundle))
    unfolding remove_pre_key
    remove-cases b id h = elim (Result-cases (load_bundle kv json identity b)) [
      | inr (e, bad) ↦ ground (arith, h, bad)
      | inl (bundle, got) ↦ (bundle, got, ground (arith, got))
    ]

    -- The backend answers a read of the packed list.
    abbrev pub Answers : B → Type 0
    Answers b =
        (r : Option Bytes) × (kv.get b (dict_prekey_bundle identity) prekey_bundle_key ≡ ok r)

    -- Over a lawful backend and with codecs that read back what they write: after `save_pre_key`
    -- says `ok`, and where the backend answers a read of the list, `get_pre_key` yields the saved
    -- record at the saved id, and at any other id exactly what it yielded before.
    pub save_pre_key-get :
        (b : B) (id : ℕ) (rec : K) (at : ℕ)
        → (save_pre_key kv json identity coding b id rec).1 ≡ ok tt
        → Answers (save_pre_key kv json identity coding b id rec).0
        → get_pre_key kv json identity coding (save_pre_key kv json identity coding b id rec).0 at
          ≡ (if nat_beq id at then ok rec else get_pre_key kv json identity coding b at)
    save_pre_key-get b id rec at done (r, answers) =
        let (bytes, bundle, written, got, same) = save-cases b id rec done in
        let b' = (save_pre_key kv json identity coding b id rec).0 in
        let saved : load_bundle kv json identity b' ≡ ok (upsert id bytes bundle) =
          ap (λ x. load_bundle kv json identity x.0) same
          ∙ save_bundle-load b (upsert id bytes bundle) r (sym (ap (λ x. x.1) same) ∙ done) (
              ap (λ x. kv.get x.0 (dict_prekey_bundle identity) prekey_bundle_key) (sym same)
              ∙ answers) in
        get-found_in b' (upsert id bytes bundle) at saved
        ∙ rw (get-found_in b bundle at got)
            (ground (arith, find_id-upsert id at bytes bundle, decodes rec bytes written))

    -- Over a lawful backend and with a JSON codec that reads back what it writes: after
    -- `remove_pre_key` says `ok`, and where the backend answers a read of the list, `get_pre_key`
    -- yields the error of an unknown id at that id, and at any other id exactly what it yielded
    -- before.
    pub remove_pre_key-get :
        (b : B) (id at : ℕ)
        → (remove_pre_key kv json identity b id).1 ≡ ok tt
        → Answers (remove_pre_key kv json identity b id).0
        → get_pre_key kv json identity coding (remove_pre_key kv json identity b id).0 at ≡ (
            if nat_beq id at
            then err invalid_pre_key_id
            else get_pre_key kv json identity coding b at)
    remove_pre_key-get b id at done (r, answers) =
        let (bundle, got, same) = remove-cases b id done in
        let b' = (remove_pre_key kv json identity b id).0 in
        let saved : load_bundle kv json identity b' ≡ ok (retain_other id bundle) =
          ap (λ x. load_bundle kv json identity x.0) same
          ∙ save_bundle-load b (retain_other id bundle) r (sym (ap (λ x. x.1) same) ∙ done) (
              ap (λ x. kv.get x.0 (dict_prekey_bundle identity) prekey_bundle_key) (sym same)
              ∙ answers) in
        get-found_in b' (retain_other id bundle) at saved
        ∙ rw (get-found_in b bundle at got) (ground (arith, find_id-retain_other id at bundle))
