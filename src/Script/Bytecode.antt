-- ===== src/Script/Bytecode.antt =====
-- script/include/homeworldz/script/bytecode.h: the instruction format of the Falcon VM.
use homeworldz.Common.{ℕ, Bool, true, false, Option, none, some, List, [], ◌∷◌, if◌then◌else◌}
use homeworldz.Common.Int.{ℤ}
use homeworldz.Common.Bytes.{Bytes, bytes_eq}

-- `enum class Type`, the compile-time value types.
pub data ValueType : Type 0 where
  void integer string : ValueType

abbrev pub type_eq : ValueType → ValueType → Bool
type_eq void void = true
type_eq integer integer = true
type_eq string string = true
type_eq _ _ = false

-- `struct Value`, made by `make_integer` and `make_string` only: a runtime value is never `Void`.
pub data Value : Type 0 where
  int : ℤ → Value
  str : Bytes → Value

-- The field `type` of a value.
abbrev pub type_of : Value → ValueType
type_of (int i) = integer
type_of (str s) = string

pub data Op : Type 0 where
  push_const load_local store_local load_global store_global add_int sub_int mul_int : Op
  concat_str less_int greater_int equal_int cast_int_to_str jump jump_if_zero call_host : Op
  pop halt : Op

pub record Instruction : Type 0 where
  pub op : Op
  pub a : ℤ
  pub b : ℤ

pub record EventEntry : Type 0 where
  pub name : Bytes
  pub entry_ip : ℤ
  pub param_types : List ValueType
  pub local_count : ℤ

abbrev pub bytecode_abi_version : ℕ
bytecode_abi_version = 2

abbrev pub compiler_version_now : ℕ
compiler_version_now = 2

pub record Program : Type 0 where
  pub code : List Instruction
  pub constants : List Value
  pub host_names : List Bytes
  pub global_defaults : List Value
  pub events : List EventEntry
  pub compiler_version : ℕ
  pub abi_version : ℕ

-- The loop of `Program::find_event`: the first handler of that name.
unfoldable pub find_event : List EventEntry → Bytes → Option EventEntry
find_event [] name = none
find_event (e ∷ es) name = if bytes_eq e.name name then some e else find_event es name
