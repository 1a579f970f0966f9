-- ===== src/Script/Compiler/Generate.antt =====
-- `compile_expression`, `compile_statement`, `compile_event` and `compile` of
-- script/src/compiler.cpp.
use homeworldz.Common.{
  ℕ, suc, ◌+◌, Bool, true, false, Option, none, some, List, [], ◌∷◌, ◌++◌, ◌==◌, ◌&&◌,
  if◌then◌else◌, length,
}
use homeworldz.Common.Int.{ℤ, pos}
use homeworldz.Common.Bytes.{Bytes, codes}
use homeworldz.Common.Words.{to_i32}
use homeworldz.Script.Bytecode.{
  ValueType, void, integer, string, type_eq, Value, int, str, Op, EventEntry, Program, find_event,
}
use homeworldz.Script.Ast.{
  BinaryOp, Expr, int_literal, string_literal, var_ref, binary, cast, call, Args, no_args, arg,
  Stmt, block, var_decl, assign, expr_stmt, while_loop, if_then, if_else, Stmts, no_stmts, stmt,
  Param, EventHandler, GlobalVar, ScriptTree,
}
use homeworldz.Script.Compiler.State.{
  HostSignature, lookup_host, lookup_event, Scope, Symbol, find_symbol, emplace, CompileError,
  Compiled, ok, err, C, ◌>>=◌, ◌>>◌, give, throw, require, emit, patch_target, here, add_constant,
  add_host, resolve, emit_load, emit_store, new_compiler,
}

abbrev pub emit_op : Op → C ℤ
emit_op op = emit op (pos 0) (pos 0)

-- `require_two_integers`, the instruction, and its type.
unfoldable pub integers_op : BinaryOp → Op → ValueType → ValueType → C ValueType
integers_op op code lhs rhs = do
  require (type_eq lhs integer && type_eq rhs integer) (CompileError.needs_integers op)
  emit_op code
  give integer

-- The `switch` of `compile_binary`, on the operands' types.
unfoldable pub binary_code : BinaryOp → ValueType → ValueType → C ValueType
binary_code BinaryOp.add integer integer = do emit_op Op.add_int; give integer
binary_code BinaryOp.add string string = do emit_op Op.concat_str; give string
binary_code BinaryOp.add _ _ = throw CompileError.bad_add
binary_code BinaryOp.sub lhs rhs = integers_op BinaryOp.sub Op.sub_int lhs rhs
binary_code BinaryOp.mul lhs rhs = integers_op BinaryOp.mul Op.mul_int lhs rhs
binary_code BinaryOp.less lhs rhs = integers_op BinaryOp.less Op.less_int lhs rhs
binary_code BinaryOp.greater lhs rhs = integers_op BinaryOp.greater Op.greater_int lhs rhs
binary_code BinaryOp.equal lhs rhs = integers_op BinaryOp.equal Op.equal_int lhs rhs

-- `compile_cast` after its operand: any target but a string is taken for an integer.
unfoldable pub cast_code : ValueType → ValueType → C ValueType
cast_code string integer = do emit_op Op.cast_int_to_str; give string
cast_code string string = give string
cast_code string void = throw CompileError.cast_void_to_string
cast_code _ integer = give integer
cast_code _ _ = throw CompileError.cast_to_integer

abbrev pub args_count : Args → ℕ
args_count no_args = 0
args_count (arg e rest) = suc (args_count rest)

-- `compile_call` by the signature that is found, over the step that compiles the arguments.
unfoldable pub call_code :
    Bytes → ℕ → (List ValueType → C (Unit {0})) → Option HostSignature → C ValueType
call_code callee count arguments none = throw (CompileError.unknown_function callee)
call_code callee count arguments (some signature) = do
  require (count == length signature.params)
      (CompileError.argument_count callee (length signature.params))
  arguments signature.params
  k ← add_host callee
  emit Op.call_host k (to_i32 count)
  give signature.result

unfoldable mutual
  pub compile_expression : Expr → C ValueType
  compile_expression (int_literal i) = do
    k ← add_constant (int i)
    emit Op.push_const k (pos 0)
    give integer
  compile_expression (string_literal s) = do
    k ← add_constant (str s)
    emit Op.push_const k (pos 0)
    give string
  compile_expression (var_ref name) = do s ← resolve name; emit_load s; give s.type
  compile_expression (cast target e) = do operand ← compile_expression e; cast_code target operand
  compile_expression (binary op l r) = do
    lhs ← compile_expression l
    rhs ← compile_expression r
    binary_code op lhs rhs
  compile_expression (call callee args) =
      call_code callee (args_count args) (compile_args 1 callee args) (lookup_host callee)

  -- The loop over `call.args`, with the number of the argument.
  pub compile_args : ℕ → Bytes → Args → List ValueType → C (Unit {0})
  compile_args i callee no_args params = give tt
  compile_args i callee (arg e rest) [] = give tt
  compile_args i callee (arg e rest) (t ∷ params) = do
    type ← compile_expression e
    require (type_eq type t) (CompileError.argument_type i callee t)
    compile_args (i + 1) callee rest params

default_constant : ValueType → C ℤ
default_constant string = add_constant (str [])
default_constant _ = add_constant (int (pos 0))

-- `compile_var_decl` from its initializer on: the value that the slot is given.
unfoldable pub initial_value : ValueType → Bytes → Option Expr → C (Unit {0})
unfolding default_constant
initial_value type name none = do k ← default_constant type; emit Op.push_const k (pos 0); give tt
initial_value type name (some e) = do
  init_type ← compile_expression e
  require (type_eq init_type type) (CompileError.bad_init type name init_type)

-- `local_count_++`
take_slot : C ℕ
take_slot c = ok c.local_count (record c { local_count = c.local_count + 1 })

declare_local : Bytes → Symbol → C (Unit {0})
declare_local name s c = ok tt (record c { locals = emplace name s c.locals })

abbrev is_none : Option Symbol → Bool
is_none none = true
is_none (some _) = false

require_new_local : Bytes → C (Unit {0})
require_new_local name c =
    require (is_none (find_symbol name c.locals)) (CompileError.already_declared name) c

unfoldable pub compile_var_decl : ValueType → Bytes → Option Expr → C (Unit {0})
unfolding take_slot declare_local require_new_local
compile_var_decl type name init = do
  require_new_local name
  slot ← take_slot
  initial_value type name init
  emit Op.store_local (pos slot) (pos 0)
  declare_local name (record { scope = Scope.local; slot = slot; type = type })

unfoldable pub compile_assign : Bytes → Expr → C (Unit {0})
compile_assign name value = do
  s ← resolve name
  value_type ← compile_expression value
  require (type_eq value_type s.type) (CompileError.bad_assign value_type name s.type)
  emit_store s
  give tt

-- An `ExprStmt`: a value that nothing uses is discarded.
unfoldable pub compile_expr_stmt : Expr → C (Unit {0})
compile_expr_stmt e = do
  result ← compile_expression e
  if type_eq result void then give tt else (emit_op Op.pop >> give tt)

-- A condition of `while` or `if`, with its `JumpIfZero` to be patched.
unfoldable pub compile_condition : Bytes → Expr → C ℤ
compile_condition context e = do
  type ← compile_expression e
  require (type_eq type integer) (CompileError.not_integer context)
  emit_op Op.jump_if_zero

-- `compile_while` and `compile_if`, over the steps that compile their blocks.
unfoldable pub while_code : Expr → C (Unit {0}) → C (Unit {0})
while_code condition body = do
  start ← here
  exit_jump ← compile_condition (codes "while condition") condition
  body
  emit Op.jump start (pos 0)
  end ← here
  patch_target exit_jump end

unfoldable pub if_then_code : Expr → C (Unit {0}) → C (Unit {0})
if_then_code condition then_branch = do
  else_jump ← compile_condition (codes "if condition") condition
  then_branch
  end ← here
  patch_target else_jump end

unfoldable pub if_else_code : Expr → C (Unit {0}) → C (Unit {0}) → C (Unit {0})
if_else_code condition then_branch else_branch = do
  else_jump ← compile_condition (codes "if condition") condition
  then_branch
  end_jump ← emit_op Op.jump
  otherwise ← here
  patch_target else_jump otherwise
  else_branch
  end ← here
  patch_target end_jump end

unfoldable mutual
  pub compile_statement : Stmt → C (Unit {0})
  compile_statement (block ss) = compile_block ss
  compile_statement (var_decl type name init) = compile_var_decl type name init
  compile_statement (assign name value) = compile_assign name value
  compile_statement (expr_stmt e) = compile_expr_stmt e
  compile_statement (while_loop condition body) = while_code condition (compile_block body)
  compile_statement (if_then condition t) = if_then_code condition (compile_block t)
  compile_statement (if_else condition t e) =
      if_else_code condition (compile_block t) (compile_block e)

  pub compile_block : Stmts → C (Unit {0})
  compile_block no_stmts = give tt
  compile_block (stmt s rest) = compile_statement s >> compile_block rest

initial_global : GlobalVar → Value
initial_global g = elim g.type [
  | string ↦ str (if g.has_init then g.string_init else [])
  | _ ↦ int (if g.has_init then g.int_init else pos 0)
]

-- The source casts the number of globals to 32 signed bits, which a text of fewer than 2 ^ 31
-- characters cannot exceed.
unfoldable pub declare_global : GlobalVar → C (Unit {0})
unfolding initial_global
declare_global g c =
    let s : Symbol = record {
      scope = Scope.global;
      slot = length c.program.global_defaults;
      type = g.type;
    } in
    let p = c.program in
    let defaults = p.global_defaults ++ initial_global g ∷ [] in
    elim (find_symbol g.name c.globals) [
      | some _ ↦ err (CompileError.global_redeclared g.name)
      | none ↦ ok tt (record c {
        program = record p { global_defaults = defaults };
        globals = emplace g.name s c.globals;
      })
    ]

-- The loop over a handler's parameters, with the number of the parameter.
unfoldable pub declare_params : ℕ → Bytes → List Param → List ValueType → C (Unit {0})
unfolding take_slot declare_local
declare_params i event [] types = give tt
declare_params i event (p ∷ ps) [] = give tt
declare_params i event (p ∷ ps) (t ∷ types) = do
  require (type_eq p.type t) (CompileError.parameter_type i event t)
  slot ← take_slot
  declare_local p.name (record { scope = Scope.local; slot = slot; type = p.type })
  declare_params (i + 1) event ps types

param_types : List Param → List ValueType
param_types [] = []
param_types (p ∷ ps) = p.type ∷ param_types ps

require_new_event : Bytes → C (Unit {0})
require_new_event name c = elim (find_event c.program.events name) [
  | none ↦ ok tt c
  | some _ ↦ err (CompileError.duplicate_event name)
]

clear_locals : C (Unit {0})
clear_locals c = ok tt (record c { locals = []; local_count = 0 })

add_event : Bytes → ℤ → List ValueType → C (Unit {0})
add_event name entry types c =
    let entry_of : EventEntry = record {
      name = name;
      entry_ip = entry;
      param_types = types;
      local_count = pos c.local_count;
    } in
    let p = c.program in
    ok tt (record c { program = record p { events = p.events ++ entry_of ∷ [] } })

unfoldable pub compile_handler : EventHandler → List ValueType → C (Unit {0})
unfolding require_new_event clear_locals param_types add_event
compile_handler handler signature = do
  require_new_event handler.name
  require (length handler.params == length signature) (CompileError.parameter_count handler.name)
  clear_locals
  entry ← here
  declare_params 1 handler.name handler.params signature
  compile_block handler.body
  emit_op Op.halt
  add_event handler.name entry (param_types handler.params)

unfoldable pub compile_event : EventHandler → C (Unit {0})
compile_event handler = elim (lookup_event handler.name) [
  | none ↦ throw (CompileError.unsupported_event handler.name)
  | some signature ↦ compile_handler handler signature
]

unfoldable pub compile_globals : List GlobalVar → C (Unit {0})
compile_globals [] = give tt
compile_globals (g ∷ gs) = declare_global g >> compile_globals gs

unfoldable pub compile_events : List EventHandler → C (Unit {0})
compile_events [] = give tt
compile_events (e ∷ es) = compile_event e >> compile_events es

-- `compile`: a program, or the first error.
pub data CompileResult : Type 0 where
  program : Program → CompileResult
  failed : CompileError → CompileResult

program_of : Compiled (Unit {0}) → CompileResult
program_of (ok _ c) = program c.program
program_of (err e) = failed e

unfoldable pub compile : ScriptTree → CompileResult
unfolding program_of
compile script =
    program_of ((compile_globals script.globals >> compile_events script.events) new_compiler)
