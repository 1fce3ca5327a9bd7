-- ===== src/Sessions/Examples.antt =====
-- Tests of the session cache over the in-memory backend, and the theorems at concrete inputs.
use xous_app_signal.Prelude.{
  text_eq, ℕ, zero, suc, ◌++◌, subst, text_beq, ◌≡◌, refl, false, Option, none, some, codes, List,
  [], ◌∷◌, String, Result, ok, err, nat_eq, arith,
}
use xous_app_signal.Collections.HashMap.{insertion_order, lookup, insert, remove, retain, pair_eq}
use xous_app_signal.Backend.{Bytes, KvBackend}
use xous_app_signal.Backend.Mock.{
  MockBackend, mock, mock_laws, IsSound, view, get, put, delete, lock,
}
use xous_app_signal.Sessions.{
  IdentityType, dict_session, SessionBundle, Codec, PddbStore, get_bundle_protocol,
  put_bundle_protocol, serialize_session_bundle, deserialize_session_bundle,
}
use xous_app_signal.Sessions.Cache.{populate, load_session, delete_session}
use xous_app_signal.Sessions.Deleting.{delete_session-load}
use xous_app_signal.Sessions.Loading.{RoundTrips, Reloads, store_session-load}

-- A codec of bundles of at most two devices, the first with a record of one byte.
abbrev toy_serialize : SessionBundle → Result Bytes String
toy_serialize [] = ok (0 ∷ [])
toy_serialize ((d, bytes) ∷ []) = ok (1 ∷ d ∷ bytes)
toy_serialize ((d, x ∷ []) ∷ (e, bytes) ∷ []) = ok (2 ∷ d ∷ x ∷ e ∷ bytes)
toy_serialize _ = err "too large"

abbrev toy_deserialize : Bytes → Result SessionBundle String
toy_deserialize (zero ∷ []) = ok []
toy_deserialize (suc zero ∷ d ∷ bytes) = ok ((d, bytes) ∷ [])
toy_deserialize (suc (suc zero) ∷ d ∷ x ∷ e ∷ bytes) = ok ((d, x ∷ []) ∷ (e, bytes) ∷ [])
toy_deserialize _ = err "malformed"

abbrev toy : Codec Bytes
toy = record {
  bincode_serialize = toy_serialize;
  bincode_deserialize = toy_deserialize;
  json_from_slice = λ bytes. err "no json";
  serialize = λ bytes. ok bytes;
  deserialize = λ bytes. ok bytes;
}

same_body : {a b : Bytes} → Path (Result Bytes String) (ok a) (ok b) → a ≡ b
same_body h = ground (arith, h)

no_body : {A : Type 0} {e : String} {b : Bytes} → Path (Result Bytes String) (err e) (ok b) → A
no_body h = absurd (ground (arith, h))

read_back :
    (bundle : SessionBundle) (written body : Bytes)
    → toy_deserialize written ≡ ok bundle
    → written ≡ body
    → (bundle' : SessionBundle) × (toy_deserialize body ≡ ok bundle')
      × ((device : ℕ) → lookup device bundle' ≡ lookup device bundle)
read_back bundle written body reads same =
    (bundle, subst (λ (b : Bytes). toy_deserialize b ≡ ok bundle) same reads, λ device. refl)

toy_reads : RoundTrips toy
toy_reads [] body h = read_back [] _ body refl (same_body h)
toy_reads ((d, bytes) ∷ []) body h = read_back ((d, bytes) ∷ []) _ body refl (same_body h)
toy_reads ((d, []) ∷ (e, bytes) ∷ []) body h = no_body h
toy_reads ((d, x ∷ []) ∷ (e, bytes) ∷ []) body h =
    read_back ((d, x ∷ []) ∷ (e, bytes) ∷ []) _ body refl (same_body h)
toy_reads ((d, x ∷ y ∷ xs) ∷ (e, bytes) ∷ []) body h = no_body h
toy_reads ((d, []) ∷ q ∷ r ∷ rest) body h = no_body h
toy_reads ((d, x ∷ []) ∷ q ∷ r ∷ rest) body h = no_body h
toy_reads ((d, x ∷ y ∷ xs) ∷ q ∷ r ∷ rest) body h = no_body h

-- Two devices of one address in the backend, nothing in the cache.
abbrev alice : List ℕ
alice = codes "alice"

abbrev start : PddbStore MockBackend Bytes
start = record {
  backend = record {
    entries =
        ((dict_session IdentityType.aci, alice), codes "" ++ (1 ∷ 2 ∷ 1 ∷ 65 ∷ 3 ∷ 66 ∷ [])) ∷ [];
    poisoned = false;
  };
  session_cache = [];
  session_dirty = [];
  cache_poisoned = false;
  dirty_poisoned = false;
}

abbrev kv : KvBackend MockBackend
kv = mock insertion_order

load_device :
    (load_session kv toy IdentityType.aci insertion_order start alice 3).1 ≡ ok (some (66 ∷ []))
unfolding load_session populate get_bundle_protocol deserialize_session_bundle mock get lock lookup
    insert text_beq
load_device = refl

store_session-load_example : Reloads kv toy IdentityType.aci insertion_order start alice 3 (7 ∷ [])
store_session-load_example =
    store_session-load kv toy IdentityType.aci insertion_order start alice 3 (7 ∷ []) refl refl

delete_session-load_example : Path (Option Bytes) none none
unfolding load_session populate delete_session get_bundle_protocol put_bundle_protocol
    serialize_session_bundle deserialize_session_bundle mock get put delete lock lookup insert
    remove retain text_beq
delete_session-load_example =
    delete_session-load kv toy IdentityType.aci insertion_order view IsSound
      (mock_laws insertion_order) toy_reads start alice 3 none refl refl refl refl
