-- ===== src/AccountStore/Registration.antt =====
-- The life of a registration: `StateStore` of crates/presage-store-pddb/src/state.rs.
use xous_app_signal.Prelude.{
  ◌≡◌, sym, true, false, Option, none, some, Text, text_beq_iff, ok, Result-cases, inl, inr, ◌⊎◌,
  Bool-cases, arith,
}
use xous_app_signal.Backend.{Bytes, KvBackend}
use xous_app_signal.Backend.Laws.{Laws}
use xous_app_signal.KeyStores.{Json, backend_get_json, backend_put_json}
use xous_app_signal.KeyStores.Laws.{JsonReads, put-view}
use xous_app_signal.KeyStores.Identity.{state_dict}
use xous_app_signal.AccountStore.{
  key_registration, load_registration_data, save_registration_data, is_registered, delete_dicts,
  clear_registration,
}

module _ {B : Type 0} (kv : KvBackend B) (view : B → Text → Text → Option Bytes)
    (IsValid : B → Type 0) (laws : Laws kv view IsValid) where
  module _ {D : Type 0} (json : Json D) (json_reads : JsonReads json) where
    -- What loads is what the view holds, decoded.
    load-view :
        (b : B) (r : Option D)
        → load_registration_data kv json b ≡ ok r
        → ((r ≡ none) × (view b state_dict key_registration ≡ none))
          ⊎ ((bytes : Bytes) × (value : D) × (r ≡ some value)
              × (view b state_dict key_registration ≡ some bytes)
              × (json.from_slice bytes ≡ ok value))
    unfolding load_registration_data backend_get_json
    load-view b r h = elim (Result-cases (kv.get b state_dict key_registration)) [
      | inr (e, bad) ↦ ground (arith, h, bad)
      | inl (none, got) ↦
          inl (ground (arith, h, got), sym (laws.get_ok b state_dict key_registration none got))
      | inl (some bytes, got) ↦ elim (Result-cases (json.from_slice bytes)) [
        | inr (e, bad) ↦ ground (arith, h, got, bad)
        | inl (value, read) ↦ inr (
          bytes,
          value,
          ground (arith, h, got, read),
          sym (laws.get_ok b state_dict key_registration (some bytes) got),
          read,
        )
      ]
    ]

    save-cases :
        (b : B) (value : D)
        → (save_registration_data kv json b value).1 ≡ ok tt
        → (bytes : Bytes) × (json.to_vec value ≡ ok bytes)
          × (view (save_registration_data kv json b value).0 state_dict key_registration
              ≡ some bytes)
    unfolding save_registration_data backend_put_json
    save-cases b value h = elim (Result-cases (json.to_vec value)) [
      | inr (e, bad) ↦ ground (arith, h, bad)
      | inl (bytes, fine) ↦ (
        bytes,
        fine,
        ground (arith, h, fine, put-view kv view IsValid laws b state_dict key_registration bytes),
      )
    ]

    clear-view :
        (b : B)
        → (clear_registration kv b).1 ≡ ok tt
        → view (clear_registration kv b).0 state_dict key_registration ≡ none
    unfolding clear_registration delete_dicts
    clear-view b h = ground (
      arith,
      h,
      laws.delete_dict_ok b state_dict state_dict key_registration,
      text_beq_iff state_dict state_dict,
    )

    is_registered-cases :
        (b : B)
        → is_registered kv json b ≡ true
        → (value : D) × (load_registration_data kv json b ≡ ok (some value))
    unfolding is_registered
    is_registered-cases b h = elim (Result-cases (load_registration_data kv json b)) [
      | inr (e, bad) ↦ ground (arith, h, bad)
      | inl (none, got) ↦ ground (arith, h, got)
      | inl (some value, got) ↦ (value, got)
    ]

    -- Over a lawful backend and with a JSON codec that reads back what it writes: after a save that
    -- says `ok`, whatever loads is the saved registration; after `clear_registration` says `ok`, the
    -- store is not registered.
    pub registration-life :
        (b : B) (value : D)
        → ((save_registration_data kv json b value).1 ≡ ok tt
            → (r : Option D)
            → load_registration_data kv json (save_registration_data kv json b value).0 ≡ ok r
            → r ≡ some value)
          × ((clear_registration kv b).1 ≡ ok tt
              → is_registered kv json (clear_registration kv b).0 ≡ false)
    registration-life b value = (
      λ done r h.
          let (bytes, written, held) = save-cases b value done in
          let reads = json_reads value bytes written in
          elim (load-view _ r h) [
            | inl (_, empty) ↦ ground (arith, held, empty)
            | inr (bytes', value', e, held', read) ↦ ground (arith, held, e, held', read, reads)
          ],
      λ done. elim (Bool-cases (is_registered kv json (clear_registration kv b).0)) [
        | inr absent ↦ absent
        | inl present ↦
            let (value', got) = is_registered-cases _ present in
            elim (load-view _ _ got) [
              | inl (e, _) ↦ ground (arith, e)
              | inr (bytes, value'', e, held, read) ↦ ground (arith, held, clear-view b done)
            ]
      ],
    )
