-- ===== src/AccountStore/Examples.antt =====
-- A wipe of a small store over the mock backend, and the theorems at that store.
use xous_app_signal.Prelude.{ℕ, ◌≡◌, refl, false, Option, some, codes, [], ◌∷◌, text_eq, ok, arith}
use xous_app_signal.Collections.HashMap.{insertion_order, pair_eq}
use xous_app_signal.Backend.{Bytes, KvBackend}
use xous_app_signal.Backend.Mock.{MockBackend, mock, mock_laws, IsSound, view, delete_dict, lock}
use xous_app_signal.Sessions.{IdentityType, dict_session, PddbStore}
use xous_app_signal.KeyStores.{Json}
use xous_app_signal.KeyStores.Laws.{JsonReads}
use xous_app_signal.KeyStores.Identity.{state_dict}
use xous_app_signal.AccountStore.{
  key_registration, delete_dicts, clear_registration, clear_profiles, clear_contents, clear_backend,
  clear, load_registration_data, save_registration_data, is_registered,
}
use xous_app_signal.AccountStore.Clearing.{Wiped, clear-has_account_state, clear-keeps}
use xous_app_signal.AccountStore.Registration.{registration-life}

abbrev kv : KvBackend MockBackend
kv = mock insertion_order

-- A registration, a session and a message.
abbrev linked : PddbStore MockBackend ℕ
linked = record {
  backend = record {
    entries =
        ((state_dict, key_registration), 1 ∷ [])
        ∷ ((dict_session IdentityType.pni, codes "alice"), 2 ∷ [])
        ∷ ((codes "signal.threads.0a", codes "00000000000003e8"), 3 ∷ [])
        ∷ [];
    poisoned = false;
  };
  session_cache = ((IdentityType.pni, (codes "alice", 1)), 9) ∷ [];
  session_dirty = ((IdentityType.pni, (codes "alice", 1)), tt) ∷ [];
  cache_poisoned = false;
  dirty_poisoned = false;
}

clear-has_account_state_example :
    Wiped kv view IsSound (mock_laws insertion_order) linked (clear kv linked).0
unfolding clear clear_backend clear_registration clear_contents clear_profiles delete_dicts mock
    delete_dict lock
clear-has_account_state_example =
    clear-has_account_state kv view IsSound (mock_laws insertion_order) linked refl refl

clear-keeps_example :
    (view (clear kv linked).0.backend (codes "signal.threads.0a") (codes "00000000000003e8")
      ≡ view linked.backend (codes "signal.threads.0a") (codes "00000000000003e8"))
    × (view (clear kv linked).0.backend (codes "signal.sticker_packs") (codes "00000000000003e8")
        ≡ view linked.backend (codes "signal.sticker_packs") (codes "00000000000003e8"))
clear-keeps_example =
    clear-keeps kv view IsSound (mock_laws insertion_order) linked (codes "0a")
      (codes "00000000000003e8")

abbrev plain : Json Bytes
plain = record { to_vec = λ bytes. ok bytes; from_slice = λ bytes. ok bytes }

plain_reads : JsonReads plain
plain_reads value bytes h = ground (arith, h)

registration-life_example :
    ((save_registration_data kv plain linked.backend (5 ∷ [])).1 ≡ ok tt
      → (r : Option Bytes)
      → load_registration_data kv plain (save_registration_data kv plain linked.backend (5 ∷ [])).0
        ≡ ok r
      → r ≡ some (5 ∷ []))
    × ((clear_registration kv linked.backend).1 ≡ ok tt
        → is_registered kv plain (clear_registration kv linked.backend).0 ≡ false)
registration-life_example =
    registration-life kv view IsSound (mock_laws insertion_order) plain plain_reads linked.backend
      (5 ∷ [])
