-- ===== src/Contents/Examples.antt =====
-- A thread of three messages over the mock backend, and the theorems at concrete inputs.
use Prim.Native.Nat.{compare}
use xous_app_signal.Contents.Records.{group_key, parse_hex_master_key}
use xous_app_signal.Contents.GroupKeys.{parse_hex_master_key-group_key}
use xous_app_signal.Prelude.{
  ◌<◌, zero, suc, All, List, ℕ, ◌≡◌, refl, false, Text, codes, [], ◌∷◌, text_eq, text_beq, Result,
  ok, arith,
}
use xous_app_signal.Collections.BTreeSet.{text_cmp}
use xous_app_signal.Collections.HashMap.{insertion_order, pair_eq, lookup}
use xous_app_signal.Backend.{Error, Bytes, KvBackend}
use xous_app_signal.Backend.Mock.{
  MockBackend, mock, mock_laws, IsSound, view, get, list_keys, keys_in, lock,
}
use xous_app_signal.KeyStores.{Json, backend_get_json_required}
use xous_app_signal.Contents.{
  included, unbounded, contact, message_key, hex_digits, hex_encode, messages, load_each,
  sort_unstable, sort_in, in_range, range_contains_u64, from_str_radix_16, read_hex, digit_value,
  thread_dict_name,
}
use xous_app_signal.Contents.Keys.{text_cmp-message_key}
use xous_app_signal.Contents.Threads.{Listed, messages-Listed}

key_of_1000 : message_key 1000 ≡ codes "00000000000003e8"
unfolding message_key hex_digits
key_of_1000 = refl

encoded : hex_encode (0 ∷ 171 ∷ 255 ∷ []) ≡ codes "00abff"
unfolding hex_encode hex_digits
encoded = refl

text_cmp-message_key_example : text_cmp (message_key 9) (message_key 16) ≡ compare 9 16
text_cmp-message_key_example = text_cmp-message_key 9 16 (omega arith) (omega arith)

abbrev same : Text → Text
same s = s

abbrev kv : KvBackend MockBackend
kv = mock insertion_order

abbrev plain : Json Bytes
plain = record { to_vec = λ bytes. ok bytes; from_slice = λ bytes. ok bytes }

abbrev take_it : Bytes → Result Bytes Error
take_it bytes = ok bytes

abbrev stamp : Bytes → ℕ
stamp bytes = 1

abbrev alice : Text
alice = codes "signal.threads.contact:a"

abbrev b : MockBackend
b = record {
  poisoned = false;
  entries =
      ((alice, codes "0000000000000020"), 3 ∷ [])
      ∷ ((alice, codes "0000000000000003"), 1 ∷ [])
      ∷ ((alice, codes "000000000000001f"), 2 ∷ [])
      ∷ [];
}

-- From 4 on, in the order of time.
listed :
    messages same same kv plain same take_it stamp b (contact (codes "a")) (included 4) unbounded
    ≡ ok (ok (2 ∷ []) ∷ ok (3 ∷ []) ∷ [])
unfolding messages load_each thread_dict_name in_range sort_unstable sort_in range_contains_u64
    from_str_radix_16 read_hex digit_value message_key hex_digits backend_get_json_required mock get
    list_keys keys_in lock lookup text_beq
listed = refl

messages-Listed_example :
    Listed same same kv view IsSound
      (mock_laws insertion_order)
      plain
      same
      take_it
      stamp
      b
      (contact (codes "a"))
      (included 4)
      unbounded
      (ok (2 ∷ []) ∷ ok (3 ∷ []) ∷ [])
messages-Listed_example =
    messages-Listed same same kv view IsSound (mock_laws insertion_order) plain same take_it stamp b
      (contact (codes "a")) (included 4) unbounded (ok (2 ∷ []) ∷ ok (3 ∷ []) ∷ []) refl listed

abbrev repeated : ℕ → List ℕ
repeated zero = []
repeated (suc n) = 171 ∷ repeated n

repeated-All : (n : ℕ) → All (λ b. b < 256) (repeated n)
repeated-All zero = tt
repeated-All (suc n) = (omega arith, repeated-All n)

abbrev some_key : List ℕ
some_key = 7 ∷ repeated 31

parse_hex_master_key-group_key_example : parse_hex_master_key (group_key some_key) ≡ ok some_key
parse_hex_master_key-group_key_example =
    parse_hex_master_key-group_key some_key refl (omega arith, repeated-All 31)
