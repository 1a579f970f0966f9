-- ===== src/Script/Compiler/State.antt =====
-- The members of `Compiler` in script/src/compiler.cpp, and the functions that emit instructions,
-- pool constants and resolve names. A member function is a step of a state monad that a
-- `ScriptError` leaves for good.
use homeworldz.Common.{
  ℕ, zero, suc, ◌+◌, Bool, true, false, Option, none, some, List, [], ◌∷◌, ◌++◌, ◌==◌,
  if◌then◌else◌, length,
}
use homeworldz.Common.Int.{ℤ, pos, negsuc, ◌-ℤ◌}
use homeworldz.Common.Bytes.{Bytes, bytes_eq, codes}
use homeworldz.Common.Words.{to_i32, to_size}
use homeworldz.Script.Bytecode.{
  ValueType, void, integer, string, Value, int, str, Op, Instruction, Program, bytecode_abi_version,
  compiler_version_now,
}
use homeworldz.Script.Ast.{BinaryOp}

-- `struct HostSignature`
pub record HostSignature : Type 0 where
  pub params : List ValueType
  pub result : ValueType

-- The table of `lookup_host`.
unfoldable pub lookup_host : Bytes → Option HostSignature
unfolding bytes_eq
lookup_host name =
    if bytes_eq name (codes "llOwnerSay")
    then some (record { params = string ∷ []; result = void })
    else if bytes_eq name (codes "llSay")
    then some (record { params = integer ∷ string ∷ []; result = void })
    else none

-- The table of `lookup_event`.
unfoldable pub lookup_event : Bytes → Option (List ValueType)
unfolding bytes_eq
lookup_event name =
    if bytes_eq name (codes "state_entry")
    then some []
    else if bytes_eq name (codes "touch_start")
    then some (integer ∷ [])
    else none

pub data Scope : Type 0 where
  local global : Scope

-- `struct Symbol`; its `int32_t` slot counts variables and is never negative.
pub record Symbol : Type 0 where
  pub scope : Scope
  pub slot : ℕ
  pub type : ValueType

abbrev pub Symbols : Type 0
Symbols = List (Bytes × Symbol)

-- `find` and `emplace` of an `unordered_map`: a name that is there already keeps its symbol.
unfoldable pub find_symbol : Bytes → Symbols → Option Symbol
find_symbol name [] = none
find_symbol name ((n, s) ∷ rest) = if bytes_eq n name then some s else find_symbol name rest

unfoldable pub emplace : Bytes → Symbol → Symbols → Symbols
unfolding find_symbol
emplace name s table = elim (find_symbol name table) [ none ↦ (name, s) ∷ table | some _ ↦ table ]

-- The members of `Compiler`.
pub record Compiler : Type 0 where
  pub program : Program
  pub globals : Symbols
  pub locals : Symbols
  pub local_count : ℕ

-- The `ScriptError`s that the compiler throws, one constructor for each message.
pub data CompileError : Type 0 where
  global_redeclared unsupported_event duplicate_event parameter_count : Bytes → CompileError
  parameter_type : ℕ → Bytes → ValueType → CompileError
  undeclared already_declared : Bytes → CompileError
  bad_init bad_assign : ValueType → Bytes → ValueType → CompileError
  not_integer : Bytes → CompileError
  cast_void_to_string cast_to_integer bad_add : CompileError
  needs_integers : BinaryOp → CompileError
  unknown_function : Bytes → CompileError
  argument_count : Bytes → ℕ → CompileError
  argument_type : ℕ → Bytes → ValueType → CompileError

pub data Compiled (A : Type 0) : Type 0 where
  ok : A → Compiler → Compiled A
  err : CompileError → Compiled A

abbrev pub C : Type 0 → Type 0
C A = Compiler → Compiled A

abbrev pub and_then : {A B : Type 0} → Compiled A → (A → C B) → Compiled B
and_then (ok a c) f = f a c
and_then (err e) f = err e

infixl 5 ◌>>=◌ ◌>>◌
abbrev pub ◌>>=◌ : {A B : Type 0} → C A → (A → C B) → C B
◌>>=◌ m f c = and_then (m c) f

abbrev pub ◌>>◌ : {A B : Type 0} → C A → C B → C B
m >> k = m >>= λ _. k

abbrev pub give : {A : Type 0} → A → C A
give a c = ok a c

abbrev pub throw : {A : Type 0} → CompileError → C A
throw e c = err e

abbrev pub require : Bool → CompileError → C (Unit {0})
require true e = give tt
require false e = throw e

-- An optional operand of `emit` is 0 where the call leaves it out.
unfoldable pub emit : Op → ℤ → ℤ → C ℤ
emit op a b c =
    let code = c.program.code ++ record { op = op; a = a; b = b } ∷ [] in
    ok (to_i32 (length code) -ℤ pos 1) (record c { program = record (c.program) { code = code } })

-- `code[at].a = target`
unfoldable pub set_target : List Instruction → ℕ → ℤ → List Instruction
set_target [] n target = []
set_target (i ∷ is) zero target = record i { a = target } ∷ is
set_target (i ∷ is) (suc n) target = i ∷ set_target is n target

unfoldable pub patch_target : ℤ → ℤ → C (Unit {0})
patch_target at target c = ok tt (record c {
  program = record (c.program) { code = set_target c.program.code (to_size at) target };
})

unfoldable pub here : C ℤ
here c = ok (to_i32 (length c.program.code)) c

unfoldable pub value_eq : Value → Value → Bool
unfolding bytes_eq
value_eq (int (pos a)) (int (pos b)) = a == b
value_eq (int (negsuc a)) (int (negsuc b)) = a == b
value_eq (str s) (str t) = bytes_eq s t
value_eq _ _ = false

-- The first index at which the test passes, counted from `i`.
unfoldable pub index_from : {A : Type 0} → (A → Bool) → ℕ → List A → Option ℕ
index_from test i [] = none
index_from test i (x ∷ xs) = if test x then some i else index_from test (i + 1) xs

unfoldable pub pool_constant : Value → Option ℕ → C ℤ
pool_constant v (some i) c = ok (to_i32 i) c
pool_constant v none c =
    let pool = c.program.constants ++ v ∷ [] in
    ok (to_i32 (length pool) -ℤ pos 1)
      (record c { program = record (c.program) { constants = pool } })

unfoldable pub add_constant : Value → C ℤ
add_constant v c = pool_constant v (index_from (λ e. value_eq e v) 0 c.program.constants) c

unfoldable pub pool_host : Bytes → Option ℕ → C ℤ
pool_host name (some i) c = ok (to_i32 i) c
pool_host name none c =
    let names = c.program.host_names ++ name ∷ [] in
    ok (to_i32 (length names) -ℤ pos 1)
      (record c { program = record (c.program) { host_names = names } })

unfoldable pub add_host : Bytes → C ℤ
add_host name c = pool_host name (index_from (λ n. bytes_eq n name) 0 c.program.host_names) c

abbrev pub or_else : Option Symbol → Option Symbol → Option Symbol
or_else none o = o
or_else (some s) o = some s

abbrev pub resolved : Bytes → Option Symbol → C Symbol
resolved name none = throw (CompileError.undeclared name)
resolved name (some s) = give s

unfoldable pub resolve : Bytes → C Symbol
resolve name c = resolved name (or_else (find_symbol name c.locals) (find_symbol name c.globals)) c

abbrev pub load_op : Scope → Op
load_op Scope.local = Op.load_local
load_op Scope.global = Op.load_global

abbrev pub store_op : Scope → Op
store_op Scope.local = Op.store_local
store_op Scope.global = Op.store_global

unfoldable pub emit_load : Symbol → C ℤ
emit_load s = emit (load_op s.scope) (pos s.slot) (pos 0)

unfoldable pub emit_store : Symbol → C ℤ
emit_store s = emit (store_op s.scope) (pos s.slot) (pos 0)

-- `Program{}` and the members' initial values.
abbrev pub empty_program : Program
empty_program = record {
  code = [];
  constants = [];
  host_names = [];
  global_defaults = [];
  events = [];
  compiler_version = compiler_version_now;
  abi_version = bytecode_abi_version;
}

abbrev pub new_compiler : Compiler
new_compiler = record { program = empty_program; globals = []; locals = []; local_count = 0 }
