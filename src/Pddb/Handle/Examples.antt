-- ===== src/Pddb/Handle/Examples.antt =====
-- The bounds of `KeyHandle` at concrete inputs: a server that answers every request for a page
-- with three bytes.
use xous_app_signal.Prelude.{ℕ, some, [], ◌∷◌, err}
use xous_app_signal.Pddb.{PddbRetcode, PddbBuf, Fault, Transport}
use xous_app_signal.Backend.{Bytes}
use xous_app_signal.Pddb.Requests.{KeyHandle}

abbrev three_bytes : PddbBuf
three_bytes = record {
  token = (0, 0, 0);
  retcode = PddbRetcode.ok;
  reserved = 0;
  len = 3;
  position = 0;
  data_bytes = 1 ∷ 2 ∷ 3 ∷ 4 ∷ [];
}

abbrev answerer : Transport ℕ
answerer = record {
  key = λ s op request. (s, err Fault.lend_mut);
  dict = λ s op request. (s, err Fault.lend_mut);
  keys = λ s request. (s, err Fault.lend_mut);
  batch = λ s request. (s, err Fault.lend_mut);
  page = λ s op page. (s, some three_bytes);
  create_server_id = λ s. (1, 2, 3, 4);
  new_page = three_bytes;
  key_drop = λ s token. s;
}

abbrev three : Bytes
three = 1 ∷ 2 ∷ 3 ∷ []

abbrev four : Bytes
four = 1 ∷ 2 ∷ 3 ∷ 4 ∷ []

abbrev handle : KeyHandle
handle = record { token = (0, 0, 0); pos = 0; buf = three_bytes }
