-- ===== src/KeyStores/Replay.antt =====
-- Protection against the reuse of a post-quantum pre-key:
-- crates/presage-store-pddb/src/protocol/kyber_pre_key_store.rs.
use xous_app_signal.Prelude.{
  ℕ, ◌≡◌, ◌≢◌, ◌⊎◌, refl, ap, ◌∙◌, subst, true, false, Option, none, some, Text, text_beq,
  text_beq_iff, Bool-cases, ok, Result-cases, inl, inr, arith,
}
use xous_app_signal.Backend.{Bytes, KvBackend}
use xous_app_signal.Backend.Laws.{Laws, same_key}
use xous_app_signal.Labels.{decimal}
use xous_app_signal.Sessions.{IdentityType}
use xous_app_signal.KeyStores.{backend_get_json_protocol, Json, dict_kyber_prekey, dict_kyber_meta}
use xous_app_signal.KeyStores.Laws.{ok_of_map_err, put-view, delete-view, get_json-some}
use xous_app_signal.KeyStores.Kyber.{
  KyberStored, meta_key, is_reused, reused_base_key, load_envelope, require_envelope,
  mark_kyber_pre_key_used,
}

module _ {B : Type 0} (kv : KvBackend B) (view : B → Text → Text → Option Bytes)
    (IsValid : B → Type 0) (laws : Laws kv view IsValid) (json : Json KyberStored)
    (identity : IdentityType) where
  -- The view of a record and of the table of base keys.
  abbrev envelope_at : B → ℕ → Option Bytes
  envelope_at b id = view b (dict_kyber_prekey identity) (decimal id)

  abbrev base_key_at : B → ℕ → ℕ → Option Bytes
  base_key_at b id ec = view b (dict_kyber_meta identity) (meta_key id ec)

  require-view :
      (b : B) (id : ℕ) (envelope : KyberStored)
      → require_envelope kv json identity b id ≡ ok envelope
      → (bytes : Bytes) × (envelope_at b id ≡ some bytes) × (json.from_slice bytes ≡ ok envelope)
  unfolding require_envelope load_envelope
  require-view b id envelope h = elim (Result-cases (load_envelope kv json identity b id)) [
    | inr (e, bad) ↦ ground (arith, h, bad)
    | inl (none, got) ↦ ground (arith, h, got)
    | inl (some found, got) ↦
        let (bytes, held, read) =
          get_json-some kv view IsValid laws json b (dict_kyber_prekey identity) (decimal id)
            "decode kyber envelope" found got in
        (bytes, held, ground (arith, h, got, read))
  ]

  -- A mark that says `ok` of a last-resort key has put its base key; of a one-time key, has
  -- deleted the record.
  abbrev LastResort : B → ℕ → ℕ → Bytes → B → Type 0
  LastResort b id ec base_key b' =
      (is_reused (base_key_at b id ec) base_key ≡ false)
      × (b' ≡ (kv.put b (dict_kyber_meta identity) (meta_key id ec) base_key).0)
      × ((kv.put b (dict_kyber_meta identity) (meta_key id ec) base_key).1 ≡ ok tt)

  abbrev OneTime : B → ℕ → B → Type 0
  OneTime b id b' =
      (b' ≡ (kv.delete b (dict_kyber_prekey identity) (decimal id)).0)
      × ((kv.delete b (dict_kyber_prekey identity) (decimal id)).1 ≡ ok tt)

  abbrev Marked : B → ℕ → ℕ → Bytes → B → Type 0
  Marked b id ec base_key b' =
      (envelope : KyberStored) × (require_envelope kv json identity b id ≡ ok envelope)
      × (((envelope.is_last_resort ≡ true) × LastResort b id ec base_key b')
          ⊎ ((envelope.is_last_resort ≡ false) × OneTime b id b'))

  mark-Marked :
      (b : B) (id ec : ℕ) (base_key : Bytes)
      → (mark_kyber_pre_key_used kv json identity b id ec base_key).1 ≡ ok tt
      → Marked b id ec base_key (mark_kyber_pre_key_used kv json identity b id ec base_key).0
  unfolding mark_kyber_pre_key_used
  mark-Marked b id ec base_key h =
      let meta = dict_kyber_meta identity in
      let at = meta_key id ec in
      elim (Result-cases (require_envelope kv json identity b id)) [
        | inr (e, bad) ↦ ground (arith, h, bad)
        | inl (envelope, req) ↦ elim (Bool-cases envelope.is_last_resort) [
          | inr one ↦ (
            envelope,
            req,
            inr (one, (ground (arith, req, one), ok_of_map_err _ (ground (arith, h, req, one)))),
          )
          | inl last ↦ elim (Result-cases (kv.get b meta at)) [
            | inr (e, bad) ↦ ground (arith, h, req, last, bad)
            | inl (prior, got) ↦ elim (Bool-cases (is_reused prior base_key)) [
              | inl reused ↦ ground (arith, h, req, last, got, reused)
              | inr fresh ↦ (
                envelope,
                req,
                inl (
                  last,
                  (
                    subst (λ (o : Option Bytes). is_reused o base_key ≡ false)
                        (laws.get_ok b meta at prior got) fresh,
                    ground (arith, req, last, got, fresh),
                    ok_of_map_err _ (ground (arith, h, req, last, got, fresh)),
                  ),
                ),
              )
            ]
          ]
        ]
      ]

  other_dict :
      (who : IdentityType) (k k' : Text)
      → same_key (dict_kyber_meta who) k (dict_kyber_prekey who) k' ≡ false
  unfolding text_beq
  other_dict IdentityType.aci k k' = refl
  other_dict IdentityType.pni k k' = refl

  -- The same bytes decode to the same envelope.
  same_envelope :
      (b b' : B) (id : ℕ) (envelope envelope' : KyberStored)
      → envelope_at b' id ≡ envelope_at b id
      → require_envelope kv json identity b id ≡ ok envelope
      → require_envelope kv json identity b' id ≡ ok envelope'
      → envelope.is_last_resort ≡ envelope'.is_last_resort
  same_envelope b b' id envelope envelope' same h h' =
      let (bytes, held, read) = require-view b id envelope h in
      let (bytes', held', read') = require-view b' id envelope' h' in
      ground (arith, same, held, read, held', read')

  once-LastResort :
      (b b1 b2 : B) (id ec : ℕ) (base_key : Bytes) (envelope : KyberStored)
      → require_envelope kv json identity b id ≡ ok envelope
      → envelope.is_last_resort ≡ true
      → LastResort b id ec base_key b1
      → Marked b1 id ec base_key b2
      → ⊥
  once-LastResort b b1 b2 id ec base_key envelope req last (fresh, state, done)
        (envelope', req', again) =
      let meta = dict_kyber_meta identity in
      let at = meta_key id ec in
      let held : base_key_at b1 id ec ≡ some base_key =
        ap (λ (x : B). view x meta at) state
        ∙ put-view kv view IsValid laws b meta at base_key done in
      let kept : envelope_at b1 id ≡ envelope_at b id =
        ap (λ (x : B). envelope_at x id) state
        ∙ laws.put_frame b meta at base_key (dict_kyber_prekey identity) (decimal id)
            (other_dict identity at (decimal id)) in
      let still = same_envelope b b1 id envelope envelope' kept req req' in
      ground (arith, again, last, still, held, text_beq_iff base_key base_key)

  once-OneTime :
      (b b1 b2 : B) (id ec : ℕ) (base_key : Bytes)
      → OneTime b id b1
      → Marked b1 id ec base_key b2
      → ⊥
  once-OneTime b b1 b2 id ec base_key (state, done) (envelope', req', again) =
      let (bytes, held, read) = require-view b1 id envelope' req' in
      ground (
        arith,
        held,
        ap (λ (x : B). envelope_at x id) state,
        delete-view kv view IsValid laws b (dict_kyber_prekey identity) (decimal id) done,
      )

  -- Over a lawful backend, a use of a post-quantum pre-key is never accepted twice in a row: after a
  -- mark with a signed pre-key and a base key that says `ok`, the same mark again does not say `ok`,
  -- whether the key is a one-time key or a last-resort key.
  pub mark-once :
      (b : B) (id ec : ℕ) (base_key : Bytes)
      → (mark_kyber_pre_key_used kv json identity b id ec base_key).1 ≡ ok tt
      → (mark_kyber_pre_key_used kv json identity
          (mark_kyber_pre_key_used kv json identity b id ec base_key).0
          id
          ec
          base_key).1
        ≢ ok tt
  mark-once b id ec base_key h again =
      let (envelope, req, kind) = mark-Marked b id ec base_key h in
      let second = mark-Marked _ id ec base_key again in
      elim kind [
        | inl (last, used) ↦ once-LastResort b _ _ id ec base_key envelope req last used second
        | inr (one, gone) ↦ once-OneTime b _ _ id ec base_key gone second
      ]

  require_not_reused : (b : B) (id : ℕ) → require_envelope kv json identity b id ≢ reused_base_key
  unfolding require_envelope load_envelope backend_get_json_protocol
  require_not_reused b id h = ground (arith, h)

  reused-cases :
      (b : B) (id ec : ℕ) (base_key : Bytes)
      → (mark_kyber_pre_key_used kv json identity b id ec base_key).1 ≡ reused_base_key
      → is_reused (base_key_at b id ec) base_key ≡ true
  unfolding mark_kyber_pre_key_used
  reused-cases b id ec base_key h =
      let meta = dict_kyber_meta identity in
      let at = meta_key id ec in
      elim (Result-cases (require_envelope kv json identity b id)) [
        | inr (e, bad) ↦ ground (arith, h, bad, require_not_reused b id)
        | inl (envelope, req) ↦ elim (Bool-cases envelope.is_last_resort) [
          | inr one ↦ ground (arith, h, req, one)
          | inl last ↦ elim (Result-cases (kv.get b meta at)) [
            | inr (e, bad) ↦ ground (arith, h, req, last, bad)
            | inl (prior, got) ↦ elim (Bool-cases (is_reused prior base_key)) [
              | inl reused ↦
                  subst (λ (o : Option Bytes). is_reused o base_key ≡ true)
                    (laws.get_ok b meta at prior got) reused
              | inr fresh ↦ ground (arith, h, req, last, got, fresh)
            ]
          ]
        ]
      ]

  -- Only the last base key is remembered. Over a lawful backend: after a mark of a last-resort key
  -- that says `ok`, a mark with any other base key is not refused as a reused base key, whichever
  -- base keys were marked before.
  pub mark-forgets :
      (b : B) (id ec : ℕ) (base_key base_key' : Bytes) (envelope : KyberStored)
      → base_key ≢ base_key'
      → require_envelope kv json identity b id ≡ ok envelope
      → envelope.is_last_resort ≡ true
      → (mark_kyber_pre_key_used kv json identity b id ec base_key').1 ≡ ok tt
      → (mark_kyber_pre_key_used kv json identity
          (mark_kyber_pre_key_used kv json identity b id ec base_key').0
          id
          ec
          base_key).1
        ≢ reused_base_key
  mark-forgets b id ec base_key base_key' envelope differ req last h refused =
      let meta = dict_kyber_meta identity in
      let at = meta_key id ec in
      let (envelope', req', kind) = mark-Marked b id ec base_key' h in
      elim kind [
        | inr (one, gone) ↦ ground (arith, one, last, req, req')
        | inl (_, (_, state, done)) ↦
            let held : base_key_at (mark_kyber_pre_key_used kv json identity b id ec base_key').0 id
                  ec
                ≡ some base_key' =
              ap (λ (x : B). view x meta at) state
              ∙ put-view kv view IsValid laws b meta at base_key' done in
            ground (
              arith,
              held,
              reused-cases _ id ec base_key refused,
              text_beq_iff base_key' base_key,
              differ,
            )
      ]
