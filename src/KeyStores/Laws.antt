-- ===== src/KeyStores/Laws.antt =====
-- What the helpers of crates/presage-store-pddb/src/lib.rs and protocol/mod.rs promise over a lawful
-- backend.
use xous_app_signal.Prelude.{
  ◌≡◌, refl, sym, Option, none, some, String, Text, Result, ok, err, Result-cases, inl, inr, arith,
  text_beq_iff,
}
use xous_app_signal.Backend.{Error, Bytes, KvBackend}
use xous_app_signal.Backend.Laws.{Laws}
use xous_app_signal.Sessions.{map_err, protocol_backend_err}
use xous_app_signal.KeyStores.{Json, Coding, backend_get_json_protocol, backend_put_json_protocol}

-- serde_json reads back what it writes.
abbrev pub JsonReads : {T : Type 0} → Json T → Type 0
JsonReads {T} json =
    (value : T) (bytes : Bytes) → json.to_vec value ≡ ok bytes → json.from_slice bytes ≡ ok value

-- libsignal reads back what it writes.
abbrev pub Decodes : {K : Type 0} → Coding K → Type 0
Decodes {K} coding =
    (k : K) (bytes : Bytes) → coding.serialize k ≡ ok bytes → coding.deserialize bytes ≡ ok k

pub ok_of_map_err :
    (r : Result (Unit {0}) Error) → map_err protocol_backend_err r ≡ ok tt → r ≡ ok tt
ok_of_map_err (ok u) h = refl
ok_of_map_err (err e) h = ground (arith, h)

module _ {B : Type 0} (kv : KvBackend B) (view : B → Text → Text → Option Bytes)
    (IsValid : B → Type 0) (laws : Laws kv view IsValid) where
  pub put-view :
      (b : B) (d k : Text) (v : Bytes)
      → (kv.put b d k v).1 ≡ ok tt
      → view (kv.put b d k v).0 d k ≡ some v
  put-view b d k v done =
      ground (arith, laws.put_ok b d k v d k done, text_beq_iff d d, text_beq_iff k k)

  pub delete-view :
      (b : B) (d k : Text) → (kv.delete b d k).1 ≡ ok tt → view (kv.delete b d k).0 d k ≡ none
  delete-view b d k done =
      ground (arith, laws.delete_ok b d k d k done, text_beq_iff d d, text_beq_iff k k)

  module _ {T : Type 0} (json : Json T) where
    -- A value that is read is what the view holds, decoded.
    pub get_json-some :
        (b : B) (d k : Text) (context : String) (value : T)
        → backend_get_json_protocol kv json b d k context ≡ ok (some value)
        → (bytes : Bytes) × (view b d k ≡ some bytes) × (json.from_slice bytes ≡ ok value)
    unfolding backend_get_json_protocol
    get_json-some b d k context value h = elim (Result-cases (kv.get b d k)) [
      | inr (e, bad) ↦ ground (arith, h, bad)
      | inl (none, got) ↦ ground (arith, h, got)
      | inl (some bytes, got) ↦ (bytes, sym (laws.get_ok b d k _ got), ground (arith, h, got))
    ]

    pub get_json-none :
        (b : B) (d k : Text) (context : String)
        → backend_get_json_protocol kv json b d k context ≡ ok none
        → view b d k ≡ none
    unfolding backend_get_json_protocol
    get_json-none b d k context h = elim (Result-cases (kv.get b d k)) [
      | inr (e, bad) ↦ ground (arith, h, bad)
      | inl (none, got) ↦ sym (laws.get_ok b d k _ got)
      | inl (some bytes, got) ↦ ground (arith, h, got)
    ]

    pub put_json-ok :
        (b : B) (d k : Text) (value : T) (context : String)
        → (backend_put_json_protocol kv json b d k value context).1 ≡ ok tt
        → (bytes : Bytes) × (json.to_vec value ≡ ok bytes)
          × ((backend_put_json_protocol kv json b d k value context).0 ≡ (kv.put b d k bytes).0)
          × ((kv.put b d k bytes).1 ≡ ok tt)
    unfolding backend_put_json_protocol
    put_json-ok b d k value context done = elim (Result-cases (json.to_vec value)) [
      | inr (e, bad) ↦ ground (arith, done, bad)
      | inl (bytes, fine) ↦ (bytes, fine, ground (arith, fine), ground (arith, done, fine))
    ]
