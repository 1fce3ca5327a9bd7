-- ===== src/AccountStore/Clearing.antt =====
-- What a wipe of the account leaves: `Store::clear` of crates/presage-store-pddb/src/store.rs and the
-- probe that follows it, `has_account_state` of crates/presage-store-pddb/src/lib.rs.
use xous_app_signal.Prelude.{
  ◌≡◌, refl, sym, ap, ◌∙◌, fun_ext, subst, true, false, ◌||◌, Option, none, Text, codes, List, [],
  ◌∷◌, ◌++◌, text_beq, text_beq_iff, if◌then◌else◌, Result, ok, Result-cases, inl, inr, arith,
}
use xous_app_signal.Collections.BTreeSet.{contains}
use xous_app_signal.Backend.{Error, Bytes, KvBackend}
use xous_app_signal.Backend.Laws.{Laws, is_some}
use xous_app_signal.Sessions.{IdentityType, PddbStore}
use xous_app_signal.KeyStores.Identity.{state_dict}
use xous_app_signal.AccountStore.{
  protocol_dicts, account_dicts, dict_contacts, dict_groups, dict_group_avatars, dict_profiles,
  dict_profile_keys, dict_profile_avatars, ◌and_then◌, delete_dicts, clear_registration,
  clear_profiles, clear_contents, clear_backend, clear, any_keys, has_account_state,
}

-- Every dictionary of the account, but for the messages and the sticker packs.
abbrev pub protocol_names : List Text
protocol_names =
    codes "signal.protocol.aci.session"
    ∷ codes "signal.protocol.aci.identity"
    ∷ codes "signal.protocol.aci.prekey_bundle"
    ∷ codes "signal.protocol.aci.signed_prekey"
    ∷ codes "signal.protocol.aci.kyber_prekey"
    ∷ codes "signal.protocol.aci.kyber_meta"
    ∷ codes "signal.protocol.aci.sender_key"
    ∷ codes "signal.protocol.pni.session"
    ∷ codes "signal.protocol.pni.identity"
    ∷ codes "signal.protocol.pni.prekey_bundle"
    ∷ codes "signal.protocol.pni.signed_prekey"
    ∷ codes "signal.protocol.pni.kyber_prekey"
    ∷ codes "signal.protocol.pni.kyber_meta"
    ∷ codes "signal.protocol.pni.sender_key"
    ∷ []

abbrev pub contents_names : List Text
contents_names =
    codes "signal.contacts"
    ∷ codes "signal.groups"
    ∷ codes "signal.group_avatars"
    ∷ codes "signal.profiles"
    ∷ codes "signal.profile_keys"
    ∷ codes "signal.profile_avatars"
    ∷ []

abbrev pub cleared : List Text
cleared = codes "signal.state" ∷ (contents_names ++ protocol_names)

no_keys : (ks : List Text) → ((k : Text) → contains k ks ≡ false) → ks ≡ []
unfolding contains
no_keys [] h = refl
no_keys (x ∷ ks) h = ground (arith, h x, text_beq_iff x x)

contains-append :
    (d : Text) (xs ys : List Text) → contains d (xs ++ ys) ≡ (contains d xs || contains d ys)
unfolding contains
contains-append d [] ys = refl
contains-append d (x ∷ xs) ys = ground (arith, contains-append d xs ys)

skips :
    (d x : Text) (xs ys : List Text)
    → contains d (x ∷ ys) ≡ true
    → contains d (x ∷ (xs ++ ys)) ≡ true
unfolding contains
skips d x xs ys h = ground (arith, h, contains-append d xs ys)

-- The probe looks only where the wipe has been.
account_cleared : (d : Text) → contains d account_dicts ≡ true → contains d cleared ≡ true
account_cleared d there = skips d (codes "signal.state") contents_names protocol_names there

module _ {B : Type 0} (kv : KvBackend B) where
  delete_dicts-append :
      (xs ys : List Text) (b : B)
      → delete_dicts kv b (xs ++ ys) ≡ (delete_dicts kv b xs and_then (λ b. delete_dicts kv b ys))
  unfolding delete_dicts
  delete_dicts-append [] ys b = refl
  delete_dicts-append (x ∷ xs) ys b = elim (Result-cases (kv.delete_dict b x).1) [
    | inl (u, done) ↦ rw (delete_dicts, done) (delete_dicts-append xs ys (kv.delete_dict b x).0)
    | inr (e, bad) ↦ rw (delete_dicts, bad) refl
  ]

  clear_backend_lem : (b : B) → clear_backend kv b ≡ delete_dicts kv b cleared
  unfolding clear_backend clear_registration clear_contents clear_profiles
  clear_backend_lem b =
      let contacts : List Text = dict_contacts ∷ dict_groups ∷ dict_group_avatars ∷ [] in
      let profiles : List Text = dict_profiles ∷ dict_profile_keys ∷ dict_profile_avatars ∷ [] in
      let first : List Text = state_dict ∷ (contacts ++ profiles) in
      let aci = protocol_dicts IdentityType.aci in
      let pni = protocol_dicts IdentityType.pni in
      let step : (List Text → B → B × Result (Unit {0}) Error) = λ xs b. delete_dicts kv b xs in
      let joined : (delete_dicts kv b (state_dict ∷ []) and_then clear_contents kv)
          ≡ delete_dicts kv b first =
        ap (λ (f : B → B × Result (Unit {0}) Error). delete_dicts kv b (state_dict ∷ []) and_then f)
          (fun_ext (λ (x : B). sym (delete_dicts-append contacts profiles x)))
        ∙ sym (delete_dicts-append (state_dict ∷ []) (contacts ++ profiles) b) in
      ap (λ (x : B × Result (Unit {0}) Error). x and_then step aci and_then step pni) joined
      ∙ ap (λ (x : B × Result (Unit {0}) Error). x and_then step pni)
          (sym (delete_dicts-append first aci b))
      ∙ sym (delete_dicts-append (first ++ aci) pni b)

  module _ (view : B → Text → Text → Option Bytes) (IsValid : B → Type 0)
      (laws : Laws kv view IsValid) where
    delete_dicts-view :
        (dicts : List Text) (b : B) (d k : Text)
        → (delete_dicts kv b dicts).1 ≡ ok tt
        → view (delete_dicts kv b dicts).0 d k ≡ (if contains d dicts then none else view b d k)
    unfolding delete_dicts contains
    delete_dicts-view [] b d k h = refl
    delete_dicts-view (x ∷ dicts) b d k h = elim (Result-cases (kv.delete_dict b x).1) [
      | inr (e, bad) ↦ ground (arith, h, bad)
      | inl (u, done) ↦
          let rest = delete_dicts-view dicts (kv.delete_dict b x).0 d k (ground (arith, h, done)) in
          ground (arith, done, rest, laws.delete_dict_ok b x d k done)
    ]

    -- Whatever its result, a run of deletions touches no other dictionary.
    delete_dicts-frame :
        (dicts : List Text) (b : B) (d k : Text)
        → contains d dicts ≡ false
        → view (delete_dicts kv b dicts).0 d k ≡ view b d k
    unfolding delete_dicts contains
    delete_dicts-frame [] b d k h = refl
    delete_dicts-frame (x ∷ dicts) b d k h = ground (
      arith,
      h,
      delete_dicts-frame dicts (kv.delete_dict b x).0 d k,
      laws.delete_dict_frame b x d k,
    )

    delete_dicts-IsValid :
        (dicts : List Text) (b : B) → IsValid b → IsValid (delete_dicts kv b dicts).0
    unfolding delete_dicts
    delete_dicts-IsValid [] b h = h
    delete_dicts-IsValid (x ∷ dicts) b h =
        let kept = laws.delete_dict_IsValid b x h in
        elim (Result-cases (kv.delete_dict b x).1) [
          | inl (u, done) ↦
              rw (delete_dicts, done) (delete_dicts-IsValid dicts (kv.delete_dict b x).0 kept)
          | inr (e, bad) ↦ rw (delete_dicts, bad) kept
        ]

    any_keys-none :
        (dicts : List Text) (b : B)
        → IsValid b
        → ((d k : Text) → contains d dicts ≡ true → view b d k ≡ none)
        → any_keys kv b dicts ≡ false
    unfolding any_keys contains
    any_keys-none [] b valid gone = refl
    any_keys-none (x ∷ dicts) b valid gone =
        let rest = any_keys-none dicts b valid (λ d k there. gone d k (ground (arith, there))) in
        elim (Result-cases (kv.list_keys b x)) [
          | inr (e, bad) ↦ ground (arith, bad, rest)
          | inl (ks, got) ↦
              let empty : ks ≡ [] = no_keys ks (λ k.
                laws.list_keys_ok b x k ks valid got
                ∙ ap is_some (gone x k (ground (arith, text_beq_iff x x)))) in
              ground (arith, got, empty, rest)
        ]

    module _ {R : Type 0} where
      -- What a wipe that says `ok` leaves.
      abbrev pub Wiped : PddbStore B R → PddbStore B R → Type 0
      Wiped s s' =
          ((d k : Text)
            → view s'.backend d k ≡ (if contains d cleared then none else view s.backend d k))
          × (has_account_state kv s'.backend ≡ false)
          × (s.cache_poisoned ≡ false → s'.session_cache ≡ [])
          × (s.dirty_poisoned ≡ false → s'.session_dirty ≡ [])

      clear-cases :
          (s : PddbStore B R)
          → (clear kv s).1 ≡ ok tt
          → ((clear_backend kv s.backend).1 ≡ ok tt)
            × ((clear kv s).0.backend ≡ (clear_backend kv s.backend).0)
            × (s.cache_poisoned ≡ false → (clear kv s).0.session_cache ≡ [])
            × (s.dirty_poisoned ≡ false → (clear kv s).0.session_dirty ≡ [])
      unfolding clear
      clear-cases s h = elim (Result-cases (clear_backend kv s.backend).1) [
        | inr (e, bad) ↦ ground (arith, h, bad)
        | inl (u, done) ↦
            (done, ground (arith, done), λ c. ground (arith, done, c), λ c. ground (arith, done, c))
      ]

      -- Over a lawful and valid backend, a wipe that says `ok` has emptied exactly the dictionaries
      -- it names and left the others alone; the probe for leftover account state then finds
      -- nothing, so that a new link is allowed; and, where the locks are sound, no cached or
      -- dirty session is left to be written back.
      pub clear-has_account_state :
          (s : PddbStore B R) → IsValid s.backend → (clear kv s).1 ≡ ok tt → Wiped s (clear kv s).0
      unfolding has_account_state
      clear-has_account_state s valid h =
          let (done, state, cache, dirty) = clear-cases s h in
          let whole = clear_backend_lem s.backend in
          let emptied : (d k : Text)
              → view (clear kv s).0.backend d k
                ≡ (if contains d cleared then none else view s.backend d k) =
            λ d k.
              ap (λ (b : B). view b d k) (state ∙ ap (λ x. x.0) whole)
              ∙ delete_dicts-view cleared s.backend d k (sym (ap (λ x. x.1) whole) ∙ done) in
          let still_valid : IsValid (clear kv s).0.backend =
            subst IsValid (sym (state ∙ ap (λ x. x.0) whole))
              (delete_dicts-IsValid cleared s.backend valid) in
          (
            emptied,
            any_keys-none account_dicts (clear kv s).0.backend still_valid
                (λ d k there. emptied d k ∙ rw (account_cleared d there) refl),
            cache,
            dirty,
          )

      clear_backend-frame :
          (s : PddbStore B R) (d k : Text)
          → contains d cleared ≡ false
          → view (clear_backend kv s.backend).0 d k ≡ view s.backend d k
      clear_backend-frame s d k other =
          ap (λ x. view x.0 d k) (clear_backend_lem s.backend)
          ∙ delete_dicts-frame cleared s.backend d k other

      clear-backend : (s : PddbStore B R) → (clear kv s).0.backend ≡ (clear_backend kv s.backend).0
      unfolding clear
      clear-backend s = elim (Result-cases (clear_backend kv s.backend).1) [
        | inr (e, bad) ↦ ground (arith, bad)
        | inl (u, done) ↦ ground (arith, done)
      ]

      -- A wipe keeps every message and every sticker pack: over a lawful backend and whatever it
      -- reports, the dictionary of any thread and that of the sticker packs hold what they held.
      pub clear-keeps :
          (s : PddbStore B R) (thread k : Text)
          → (view (clear kv s).0.backend (codes "signal.threads." ++ thread) k
              ≡ view s.backend (codes "signal.threads." ++ thread) k)
            × (view (clear kv s).0.backend (codes "signal.sticker_packs") k
                ≡ view s.backend (codes "signal.sticker_packs") k)
      unfolding contains text_beq
      clear-keeps s thread k = (
        ap (λ (b : B). view b (codes "signal.threads." ++ thread) k) (clear-backend s)
            ∙ clear_backend-frame s (codes "signal.threads." ++ thread) k refl,
        ap (λ (b : B). view b (codes "signal.sticker_packs") k) (clear-backend s)
            ∙ clear_backend-frame s (codes "signal.sticker_packs") k refl,
      )
