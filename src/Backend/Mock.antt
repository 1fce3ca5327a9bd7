-- ===== src/Backend/Mock.antt =====
-- `MockBackend` of crates/presage-store-pddb/src/backend_mock.rs: a map behind a mutex. A poisoned
-- mutex is a flag of the state; the program never clears it.
use xous_app_signal.Prelude.{
  ◌≡◌, refl, Bool, false, not, Option, some, List, [], ◌∷◌, arith, Text, text_beq, text_beq_iff,
  text_eq, if◌then◌else◌, Result, ok, err, ◌>>=◌,
}
use xous_app_signal.Collections.HashMap
use xous_app_signal.Collections.HashMap.{
  HashMap, Iteration, pair_eq, lookup, lookup-insert, lookup-retain, lookup-remove,
}
use xous_app_signal.Collections.BTreeSet.{contains}
use xous_app_signal.Backend.{Error, backend, Bytes, KvBackend, default_put_batch}
use xous_app_signal.Backend.Laws.{
  Laws, Works, default_put_batch-works, same_key, is_some, default_put_batch-ok,
  default_put_batch-frame, default_put_batch-IsValid,
}

pub record MockBackend : Type 0 where
  pub poisoned : Bool
  pub entries : HashMap (Text × Text) Bytes

unfoldable pub new : MockBackend
new = record { poisoned = false; entries = [] }

unfoldable pub lock : MockBackend → Result (HashMap (Text × Text) Bytes) Error
lock s = if s.poisoned then err (backend "mock backend mutex poisoned") else ok s.entries

-- `self.lock()?` followed by a change of the map.
abbrev change :
    MockBackend
    → (HashMap (Text × Text) Bytes → HashMap (Text × Text) Bytes)
    → MockBackend × Result (Unit {0}) Error
change s f = elim (lock s) [ ok m ↦ (record s { entries = f m }, ok tt) | err e ↦ (s, err e) ]

unfoldable pub get : MockBackend → Text → Text → Result (Option Bytes) Error
unfolding lock
get s dict key = do m ← lock s; ok (lookup (dict, key) m)

unfoldable pub put : MockBackend → Text → Text → Bytes → MockBackend × Result (Unit {0}) Error
unfolding lock
put s dict key value = change s (HashMap.insert (dict, key) value)

unfoldable pub delete : MockBackend → Text → Text → MockBackend × Result (Unit {0}) Error
unfolding lock
delete s dict key = change s (HashMap.remove (dict, key))

unfoldable pub delete_dict : MockBackend → Text → MockBackend × Result (Unit {0}) Error
unfolding lock
delete_dict s dict = change s (HashMap.retain (λ k. not (text_beq k.0 dict)))

unfoldable pub keys_in : Text → HashMap (Text × Text) Bytes → List Text
keys_in dict [] = []
keys_in dict (((d, k), v) ∷ m) =
    let rest = keys_in dict m in if text_beq d dict then k ∷ rest else rest

contains-keys_in :
    (dict k : Text) (m : HashMap (Text × Text) Bytes)
    → contains k (keys_in dict m) ≡ is_some (lookup (dict, k) m)
unfolding keys_in contains lookup
contains-keys_in dict k [] = refl
contains-keys_in dict k (((d, j), v) ∷ m) = ground (arith, contains-keys_in dict k m)

module _ (order : Iteration (Text × Text) Bytes) where
  unfoldable pub list_keys : MockBackend → Text → Result (List Text) Error
  unfolding lock keys_in
  list_keys s dict = do m ← lock s; ok (keys_in dict (order.entries m))

  unfoldable pub mock : KvBackend MockBackend
  unfolding get put delete delete_dict list_keys
  mock = record {
    get = get;
    put = put;
    put_batch = default_put_batch put;
    delete = delete;
    delete_dict = delete_dict;
    list_keys = list_keys;
  }

abbrev pub view : MockBackend → Text → Text → Option Bytes
view s d k = lookup (d, k) s.entries

put_ok :
    (s : MockBackend) (d k : Text) (v : Bytes) (d' k' : Text)
    → (put s d k v).1 ≡ ok tt
    → view (put s d k v).0 d' k' ≡ (if same_key d k d' k' then some v else view s d' k')
unfolding put
put_ok s d k v d' k' h = ground (arith, lookup-insert (d, k) (d', k') v s.entries)

put_frame :
    (s : MockBackend) (d k : Text) (v : Bytes) (d' k' : Text)
    → same_key d k d' k' ≡ false
    → view (put s d k v).0 d' k' ≡ view s d' k'
unfolding put
put_frame s d k v d' k' h = ground (arith, lookup-insert (d, k) (d', k') v s.entries)

-- No thread has panicked while it held the lock.
abbrev pub IsSound : MockBackend → Type 0
IsSound s = s.poisoned ≡ false

put_IsSound : (s : MockBackend) (d k : Text) (v : Bytes) → IsSound s → IsSound (put s d k v).0
unfolding put
put_IsSound s d k v h = ground arith

-- The mock backend has the laws, whatever the order of its map, and a sound one stays sound.
pub mock_laws : (order : Iteration (Text × Text) Bytes) → Laws (mock order) view IsSound
unfolding mock
mock_laws order = record {
  get_ok = λ s d k r. ground arith;
  put_ok = put_ok;
  put_frame = put_frame;
  put_IsValid = put_IsSound;
  batch_ok = λ s es d k. default_put_batch-ok put view put_ok es s d k;
  batch_frame = λ s es d k. default_put_batch-frame put view put_frame es s d k;
  batch_IsValid = λ s es. default_put_batch-IsValid put IsSound put_IsSound es s;
  delete_ok = λ s d k d' k' h. ground (arith, lookup-remove (d, k) (d', k') s.entries);
  delete_frame = λ s d k d' k' h. ground (arith, lookup-remove (d, k) (d', k') s.entries);
  delete_IsValid = λ s d k h. ground arith;
  delete_dict_ok = λ s d d' k' h. ground (
    arith,
    lookup-retain (λ (x : Text × Text). not (text_beq x.0 d)) (d', k') s.entries,
    text_beq_iff d d',
    text_beq_iff d' d,
  );
  delete_dict_frame = λ s d d' k' h. ground (
    arith,
    lookup-retain (λ (x : Text × Text). not (text_beq x.0 d)) (d', k') s.entries,
    text_beq_iff d d',
    text_beq_iff d' d,
  );
  delete_dict_IsValid = λ s d h. ground arith;
  list_keys_ok = λ s d k ks h e. ground (
    arith,
    contains-keys_in d k (order.entries s.entries),
    order.entries_lookup s.entries (d, k),
  );
}

mock_works : (order : Iteration (Text × Text) Bytes) → Works (mock order) IsSound
unfolding mock
mock_works order = record {
  get_works = λ s d k h. ground (arith, h);
  put_works = λ s d k v h. ground (arith, h);
  batch_works =
      λ s es. default_put_batch-works put IsSound put_IsSound (λ s d k v h. ground (arith, h)) es s;
  delete_works = λ s d k h. ground (arith, h);
  delete_dict_works = λ s d h. ground (arith, h);
  list_keys_works = λ s d h. ground (arith, h);
}

-- The mock backend is the map of its entries, whatever the order of that map. Where an operation
-- says `ok`, `get` has read the entry, `put`, `put_batch`, `delete` and `delete_dict` have changed
-- exactly the entries they name, and `list_keys` names exactly the keys of the dictionary, in some
-- order; where it fails, no other entry has changed. While its mutex is sound, every operation says
-- `ok`, and the mutex stays sound.
pub mock_refines :
    (order : Iteration (Text × Text) Bytes)
    → Laws (mock order) view IsSound × Works (mock order) IsSound
mock_refines order = (mock_laws order, mock_works order)
