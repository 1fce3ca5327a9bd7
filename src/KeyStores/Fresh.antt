-- ===== src/KeyStores/Fresh.antt =====
-- The ids that come next are new: crates/presage-store-pddb/src/protocol/pre_keys_store.rs, over the
-- listing of numeric keys in crates/presage-store-pddb/src/lib.rs.
use xous_app_signal.Prelude.{
  ℕ, ◌-◌, ◌^◌, ◌<◌, ◌≡◌, ◌≢◌, sym, ap, ◌∙◌, subst, true, Option, some, Text, List, ok, Result-cases,
  inl, inr, arith,
}
use xous_app_signal.Backend.{Bytes, KvBackend}
use xous_app_signal.Backend.Laws.{Laws, is_some}
use xous_app_signal.Labels.{decimal}
use xous_app_signal.Sessions.{IdentityType}
use xous_app_signal.KeyStores.{Json, dict_kyber_prekey, filter_map_u32, list_keys_as_u32s}
use xous_app_signal.KeyStores.Kyber.{KyberStored, max_id, max_kyber_pre_key_id}
use xous_app_signal.KeyStores.PreKeys.{next_id, next_pq_pre_key_id}
use xous_app_signal.KeyStores.Numerals.{
  member, member-filter_map, max_id-bounds, max_id-filter_map, next_id-above,
}

module _ {B : Type 0} (kv : KvBackend B) (view : B → Text → Text → Option Bytes)
    (IsValid : B → Type 0) (laws : Laws kv view IsValid) (identity : IdentityType) where
  -- An id that is stored under a dictionary is below the one that follows the greatest listed.
  listed_below :
      (b : B) (dict : Text) (ids : List ℕ) (id : ℕ)
      → IsValid b
      → list_keys_as_u32s kv b dict ≡ ok ids
      → max_id ids ≢ some (2 ^ 32 - 1)
      → id < 2 ^ 32
      → is_some (view b dict (decimal id)) ≡ true
      → id < next_id (max_id ids)
  unfolding list_keys_as_u32s
  listed_below b dict ids id valid listed room bound held =
      elim (Result-cases (kv.list_keys b dict)) [
        | inr (e, bad) ↦ ground (arith, listed, bad)
        | inl (keys, got) ↦
            let parsed : filter_map_u32 keys ≡ ids = ground (arith, listed, got) in
            let there =
              member-filter_map id keys bound
                (laws.list_keys_ok b dict (decimal id) keys valid got ∙ held) in
            let (best, found, le) = max_id-bounds id ids (ap (member id) (sym parsed) ∙ there) in
            let small = max_id-filter_map keys best (ap max_id parsed ∙ found) in
            let unequal : best ≢ 2 ^ 32 - 1 = λ e. room (found ∙ ap some e) in
            subst (λ (o : Option ℕ). id < next_id o) (sym found)
              (next_id-above id best le (omega (arith, small, unequal)))
      ]

  module _ (json : Json KyberStored) where
    -- Over a lawful and valid backend: an id that `next_pq_pre_key_id` gives is above every id under
    -- which a post-quantum pre-key is stored, unless the greatest id is already the last of `u32`.
    pub next_pq_pre_key_id-fresh :
        (b : B) (n id : ℕ)
        → IsValid b
        → next_pq_pre_key_id kv identity json b ≡ ok n
        → max_kyber_pre_key_id kv json identity b ≢ ok (some (2 ^ 32 - 1))
        → id < 2 ^ 32
        → is_some (view b (dict_kyber_prekey identity) (decimal id)) ≡ true
        → id < n
    unfolding next_pq_pre_key_id max_kyber_pre_key_id
    next_pq_pre_key_id-fresh b n id valid h room bound held =
        elim (Result-cases (list_keys_as_u32s kv b (dict_kyber_prekey identity))) [
          | inr (e, bad) ↦ ground (arith, h, bad)
          | inl (ids, listed) ↦ ground (
            arith,
            h,
            listed,
            listed_below b (dict_kyber_prekey identity) ids id valid listed
                (λ e. room (rw (max_kyber_pre_key_id, listed) (ap (λ (o : Option ℕ). ok o) e)))
                bound held,
          )
        ]
