-- ===== src/KeyStores/Trust.antt =====
-- Trust on first use: what crates/presage-store-pddb/src/protocol/identity_key_store.rs promises.
use xous_app_signal.Prelude.{
  ℕ, zero, suc, ◌+◌, ◌/◌, ◌%◌, ◌≡◌, ◌≢◌, refl, sym, ap, ◌∙◌, subst, inl, inr, Bool, true, false,
  not, ◌&&◌, ◌||◌, Option, none, some, Text, [], ◌∷◌, ◌++◌, HasEq, ◌==◌, text_beq, text_beq_iff,
  nat_beq, ok, Result-cases, Bool-cases, arith,
}
use xous_app_signal.Backend.{Bytes, KvBackend}
use xous_app_signal.Backend.Laws.{Laws, same_key}
use xous_app_signal.Labels.{decimal, decimal_from}
use xous_app_signal.Labels.Laws.{read, read-decimal}
use xous_app_signal.Sessions.{IdentityType}
use xous_app_signal.KeyStores.{dict_identity}
use xous_app_signal.KeyStores.Laws.{put-view}
use xous_app_signal.KeyStores.Identity.{
  IdentityCoding, IdentityChange, OnNewIdentity, from_changed, changes, trusts, identity_key,
  get_identity, save_identity, is_trusted_identity,
}

-- Address keys are told apart: the last dot ends the name, since a device has none.
unfoldable dotless : Text → Bool
dotless [] = true
dotless (c ∷ s) = not (nat_beq c b'.') && dotless s

dotless-decimal_from :
    (fuel n : ℕ) (acc : Text) → dotless acc ≡ true → dotless (decimal_from fuel n acc) ≡ true
unfolding dotless decimal_from
dotless-decimal_from zero n acc h = h
dotless-decimal_from (suc fuel) n acc h =
    let digit : not (nat_beq (n % 10 + b'0') b'.') ≡ true = ground arith in
    ground (arith, digit, dotless-decimal_from fuel (n / 10) ((n % 10 + b'0') ∷ acc))

dotless-decimal : (n : ℕ) → dotless (decimal n) ≡ true
unfolding decimal dotless
dotless-decimal n = dotless-decimal_from (suc n) n [] refl

not_dotless : (s t : Text) → dotless (s ++ (b'.' ∷ t)) ≡ false
unfolding dotless
not_dotless [] t = ground arith
not_dotless (c ∷ s) t = ground (arith, not_dotless s t)

split_dot :
    (s s' t t' : Text)
    → dotless t ≡ true
    → dotless t' ≡ true
    → s ++ (b'.' ∷ t) ≡ s' ++ (b'.' ∷ t')
    → (s ≡ s') × (t ≡ t')
split_dot [] [] t t' h h' e = ground (arith, e)
split_dot [] (c ∷ s') t t' h h' e = ground (arith, e, h, not_dotless s' t')
split_dot (c ∷ s) [] t t' h h' e = ground (arith, e, h', not_dotless s t)
split_dot (c ∷ s) (c' ∷ s') t t' h h' e = ground (arith, e, split_dot s s' t t' h h')

pub identity_key-injective :
    (name name' : Text) (device device' : ℕ)
    → identity_key name device ≡ identity_key name' device'
    → (name ≡ name') × (device ≡ device')
unfolding identity_key
identity_key-injective name name' device device' e =
    let (same, digits) =
      split_dot name name' _ _ (dotless-decimal device) (dotless-decimal device') e in
    (same, sym (read-decimal device) ∙ ap (read 0) digits ∙ read-decimal device')

module _ {B K : Type 0} (kv : KvBackend B) (view : B → Text → Text → Option Bytes)
    (IsValid : B → Type 0) (laws : Laws kv view IsValid) (identity : IdentityType)
    (coding : IdentityCoding K) (reads : (key : K) → coding.decode (coding.serialize key) ≡ ok key)
    ⦃eq : HasEq K⦄ where
  -- What is trusted is a function of the bytes that the view holds for the address.
  abbrev Verdict : OnNewIdentity → Option Bytes → K → Bool → Type 0
  Verdict policy none key t = t ≡ true
  Verdict policy (some bytes) key t =
      (stored : K) × (coding.decode bytes ≡ ok stored) × (t ≡ ((stored == key) || trusts policy))

  is_trusted-Verdict :
      (policy : OnNewIdentity) (b : B) (name : Text) (device : ℕ) (key : K) (t : Bool)
      → is_trusted_identity kv identity coding policy b name device key ≡ ok t
      → Verdict policy (view b (dict_identity identity) (identity_key name device)) key t
  unfolding is_trusted_identity get_identity
  is_trusted-Verdict policy b name device key t h =
      let dict = dict_identity identity in
      let at = identity_key name device in
      elim (Result-cases (kv.get b dict at)) [
        | inr (e, bad) ↦ ground (arith, h, bad)
        | inl (none, got) ↦
            subst (λ (o : Option Bytes). Verdict policy o key t) (laws.get_ok b dict at none got)
              (ground (arith, h, got))
        | inl (some bytes, got) ↦ elim (Result-cases (coding.decode bytes)) [
          | inr (e, bad) ↦ ground (arith, h, got, bad)
          | inl (stored, fine) ↦
              subst (λ (o : Option Bytes). Verdict policy o key t)
                (laws.get_ok b dict at (some bytes) got)
                (stored, fine, ground (arith, h, got, fine))
        ]
      ]

  -- What a save that says `ok` has done, for every address asked about afterwards.
  abbrev pub Saved : B → Text → ℕ → K → IdentityChange → Type 0
  Saved b name device key change =
      let b' = (save_identity kv identity coding b name device key).0 in
      (change
        ≡ from_changed (
            changes (view b (dict_identity identity) (identity_key name device))
              (coding.serialize key)))
      × ((policy : OnNewIdentity) (other : K) (t : Bool)
          → is_trusted_identity kv identity coding policy b' name device other ≡ ok t
          → t ≡ ((key == other) || trusts policy))
      × ((policy : OnNewIdentity) (name' : Text) (device' : ℕ) (other : K) (t t' : Bool)
          → (name ≡ name' → device ≢ device')
          → is_trusted_identity kv identity coding policy b name' device' other ≡ ok t
          → is_trusted_identity kv identity coding policy b' name' device' other ≡ ok t'
          → t ≡ t')

  save_identity-ok :
      (b : B) (name : Text) (device : ℕ) (key : K) (change : IdentityChange)
      → (save_identity kv identity coding b name device key).1 ≡ ok change
      → let dict = dict_identity identity in
        let at = identity_key name device in
        ((save_identity kv identity coding b name device key).0
          ≡ (kv.put b dict at (coding.serialize key)).0)
        × ((kv.put b dict at (coding.serialize key)).1 ≡ ok tt)
        × (change ≡ from_changed (changes (view b dict at) (coding.serialize key)))
  unfolding save_identity
  save_identity-ok b name device key change h =
      let dict = dict_identity identity in
      let at = identity_key name device in
      elim (Result-cases (kv.get b dict at)) [
        | inr (e, bad) ↦ ground (arith, h, bad)
        | inl (prior, got) ↦ elim (Result-cases (kv.put b dict at (coding.serialize key)).1) [
          | inr (e, bad) ↦ ground (arith, h, got, bad)
          | inl (u, done) ↦ (
            ground (arith, got),
            done,
            ground (arith, h, got, done, laws.get_ok b dict at prior got),
          )
        ]
      ]

  same-Verdict :
      (policy : OnNewIdentity) (o : Option Bytes) (key : K) (t t' : Bool)
      → Verdict policy o key t
      → Verdict policy o key t'
      → t ≡ t'
  same-Verdict policy none key t t' v v' = v ∙ sym v'
  same-Verdict policy (some bytes) key t t' (k, d, e) (k', d', e') = ground (arith, d, e, d', e')

  other_key :
      (name name' : Text) (device device' : ℕ)
      → (name ≡ name' → device ≢ device')
      → same_key
          (dict_identity identity)
          (identity_key name device)
          (dict_identity identity)
          (identity_key name' device')
        ≡ false
  other_key name name' device device' apart =
      elim (Bool-cases (text_beq (identity_key name device) (identity_key name' device'))) [
        | inr differ ↦ ground (arith, differ)
        | inl same ↦
            let (n, d) =
              identity_key-injective name name' device device'
                ((text_beq_iff (identity_key name device) (identity_key name' device')).0 same) in
            absurd (apart n d)
      ]

  -- Over a lawful backend, and with a codec that reads back what it writes: after `save_identity`
  -- says `ok` for an address, it has reported a change exactly when other bytes were stored there;
  -- from then on a key offered for that address is trusted exactly if it is the saved key or the
  -- policy accepts new identities; and what is trusted for any other address is what it was before.
  pub save-trusted :
      (b : B) (name : Text) (device : ℕ) (key : K) (change : IdentityChange)
      → (save_identity kv identity coding b name device key).1 ≡ ok change
      → Saved b name device key change
  save-trusted b name device key change h =
      let dict = dict_identity identity in
      let at = identity_key name device in
      let (state, done, reported) = save_identity-ok b name device key change h in
      (
        reported,
        λ policy other t asked.
            let v = is_trusted-Verdict policy _ name device other t asked in
            let held : view (save_identity kv identity coding b name device key).0 dict at
                ≡ some (coding.serialize key) =
              ap (λ (x : B). view x dict at) state
              ∙ put-view kv view IsValid laws b dict at (coding.serialize key) done in
            let (stored, fine, e) = subst (λ (o : Option Bytes). Verdict policy o other t) held v in
            ground (arith, fine, e, reads key),
        λ policy name' device' other t t' apart before after.
            let at' = identity_key name' device' in
            let v' = is_trusted-Verdict policy _ name' device' other t' after in
            let kept : view (save_identity kv identity coding b name device key).0 dict at'
                ≡ view b dict at' =
              ap (λ (x : B). view x dict at') state
              ∙ laws.put_frame b dict at (coding.serialize key) dict at'
                  (other_key name name' device device' apart) in
            same-Verdict policy (view b dict at') other t t'
              (is_trusted-Verdict policy b name' device' other t before)
              (subst (λ (o : Option Bytes). Verdict policy o other t') kept v'),
      )
