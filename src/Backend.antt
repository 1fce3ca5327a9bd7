-- ===== src/Backend.antt =====
-- The storage seam of presage-store-pddb: crates/presage-store-pddb/src/lib.rs (`trait KvBackend`)
-- and error.rs. A backend is a record of operations on a state `S`; an operation that takes
-- `&self` and writes returns the new state beside its result.
pub mod Laws
pub mod Mock
use xous_app_signal.Prelude.{String, Option, List, [], ◌∷◌, Text, Result, ok, err}

-- `enum Error`; a message is the literal that the code gives.
pub data Error : Type 0 where
  backend encode decode protocol : String → Error

abbrev pub Bytes : Type 0
Bytes = Text

-- One element of `put_batch`'s slice.
abbrev pub Entry : Type 0
Entry = Text × Text × Bytes

pub record KvBackend (S : Type 0) : Type 0 where
  pub get : S → Text → Text → Result (Option Bytes) Error
  pub put : S → Text → Text → Bytes → S × Result (Unit {0}) Error
  pub put_batch : S → List Entry → S × Result (Unit {0}) Error
  pub delete : S → Text → Text → S × Result (Unit {0}) Error
  pub delete_dict : S → Text → S × Result (Unit {0}) Error
  pub list_keys : S → Text → Result (List Text) Error

-- The trait's default `put_batch`: one `put` after another, up to the first error.
module _ {S : Type 0} (put : S → Text → Text → Bytes → S × Result (Unit {0}) Error) where
  unfoldable pub default_put_batch : S → List Entry → S × Result (Unit {0}) Error
  default_put_batch s [] = (s, ok tt)
  default_put_batch s ((dict, key, value) ∷ entries) =
      let (s', r) = put s dict key value in
      let rest = default_put_batch s' entries in elim r [ ok _ ↦ rest | err e ↦ (s', err e) ]
