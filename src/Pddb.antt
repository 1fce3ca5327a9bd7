-- ===== src/Pddb.antt =====
-- The wire types and the transport of xous-pddb-ipc: crates/xous-pddb-ipc/src/api.rs. The PDDB
-- server and the kernel's messages are no part of the repository: they are a `Transport`, a
-- record of functions on the server's state.
pub mod Client
pub mod Requests
pub mod Handle
pub mod Listing
pub mod Store
pub mod Batching
mod Examples
use xous_app_signal.Prelude.{ℕ, ◌-◌, Bool, Option, String, Text, List, Result, zero, suc, [], ◌∷◌}

abbrev pub dict_name_len : ℕ
dict_name_len = 127 - 4 - 4 - 4 - 4

abbrev pub key_name_len : ℕ
key_name_len = 127 - 8 - 8 - 8 - 4 - 4

abbrev pub max_pddbklistlen : ℕ
max_pddbklistlen = 4064

abbrev pub max_pddb_write_batch_len : ℕ
max_pddb_write_batch_len = 3800

abbrev pub pddb_buf_data_len : ℕ
pddb_buf_data_len = 4072

pub data PddbRequestCode : Type 0 where
  create_code open_code close_code delete_code no_err not_mounted no_free_space not_found
        internal_error :
      PddbRequestCode
  access_denied uninit duplicate_entry bulk_read : PddbRequestCode

pub data PddbRetcode : Type 0 where
  uninit ok basis_lost access_denied unexpected_eof internal_error disk_full : PddbRetcode

-- `enum Opcode`, without its numbers.
pub data Opcode : Type 0 where
  key_request delete_key delete_dict key_count_in_dict list_key_v2 : Opcode
  write_key_batch read_key write_key is_mounted try_mount key_attributes : Opcode
  write_key_flush key_drop : Opcode

abbrev pub ApiToken : Type 0
ApiToken = ℕ × ℕ × ℕ

abbrev pub ListToken : Type 0
ListToken = ℕ × ℕ × ℕ × ℕ

pub record PddbKeyRequest : Type 0 where
  pub basis_specified : Bool
  pub basis : Text
  pub dict : Text
  pub key : Text
  pub token : Option ApiToken
  pub create_dict : Bool
  pub create_key : Bool
  pub alloc_hint : Option ℕ
  pub cb_sid : Option ListToken
  pub result : PddbRequestCode

pub record PddbDictRequest : Type 0 where
  pub basis_specified : Bool
  pub basis : Text
  pub dict : Text
  pub key : Text
  pub index : ℕ
  pub token : ListToken
  pub code : PddbRequestCode
  pub bulk_limit : Option ℕ
  pub key_count : ℕ
  pub found_key_count : ℕ

pub record PddbKeyList : Type 0 where
  pub token : ListToken
  pub data_bytes : Text
  pub retcode : PddbRetcode
  pub end : Bool

pub record PddbWriteBatch : Type 0 where
  pub basis_specified : Bool
  pub basis : Text
  pub data_bytes : Text
  pub retcode : PddbRetcode

pub record PddbBuf : Type 0 where
  pub token : ApiToken
  pub retcode : PddbRetcode
  pub reserved : ℕ
  pub len : ℕ
  pub position : ℕ
  pub data_bytes : Text

pub data ErrorKind : Type 0 where
  not_mounted not_found access_denied invalid_input no_free_space internal ipc : ErrorKind

-- `msg`: the literal the code gives, or the literal before a code's `Debug` form.
pub data Message : Type 0 where
  text : String → Message
  with_code : String → PddbRequestCode → Message
  with_retcode : String → PddbRetcode → Message

pub record Error : Type 0 where
  pub kind : ErrorKind
  pub msg : Message

-- Which step of a lend failed: the serializer, the kernel or the deserializer.
pub data Fault : Type 0 where
  into_buf lend_mut to_original : Fault

-- A page of `size` zero bytes.
abbrev pub zeros : ℕ → Text
zeros zero = []
zeros (suc n) = 0 ∷ zeros n

pub record Transport (S : Type 0) : Type 0 where
  pub key : S → Opcode → PddbKeyRequest → S × Result PddbKeyRequest Fault
  pub dict : S → Opcode → PddbDictRequest → S × Result PddbDictRequest Fault
  pub keys : S → PddbKeyList → S × Result PddbKeyList Fault
  pub batch : S → PddbWriteBatch → S × Result PddbWriteBatch Fault
  pub page : S → Opcode → PddbBuf → S × Option PddbBuf
  pub create_server_id : S → ListToken
  pub new_page : PddbBuf
  pub key_drop : S → ApiToken → S
