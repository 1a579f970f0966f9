-- ===== src/Script/Compiler/Meaning.antt =====
-- What an expression means, without stack, code or slots: the reference for the compiled code.
use homeworldz.Common.{Bool, Option, none, some, List, ◌++◌, if◌then◌else◌, get_elem?, ◌≡◌}
use homeworldz.Common.Int.{ℤ, pos, ◌+ℤ◌, ◌-ℤ◌, ◌*ℤ◌, ltb_ℤ}
use homeworldz.Common.Bytes.{Bytes}
use homeworldz.Common.Words.{is_int32}
use homeworldz.Script.Decimal.{int_to_string}
use homeworldz.Script.Bytecode.{ValueType, string, Value, int, str, type_of}
use homeworldz.Script.Ast.{BinaryOp, Expr, int_literal, string_literal, var_ref, binary, cast, call}
use homeworldz.Script.Vm.State.{Vm, int_eq}
use homeworldz.Script.Compiler.State.{Scope, Symbol, Compiler, find_symbol, or_else}

-- An integer result that an `int32_t` can hold.
abbrev pub exact : ℤ → Option Value
exact z = if is_int32 z then some (int z) else none

abbrev pub truth : Bool → Option Value
truth b = some (int (if b then pos 1 else pos 0))

-- The integers and strings of the script's language; `none` where the operator has no result.
abbrev pub apply : BinaryOp → Value → Value → Option Value
apply BinaryOp.add (int a) (int b) = exact (a +ℤ b)
apply BinaryOp.add (str a) (str b) = some (str (a ++ b))
apply BinaryOp.sub (int a) (int b) = exact (a -ℤ b)
apply BinaryOp.mul (int a) (int b) = exact (a *ℤ b)
apply BinaryOp.less (int a) (int b) = truth (ltb_ℤ a b)
apply BinaryOp.greater (int a) (int b) = truth (ltb_ℤ b a)
apply BinaryOp.equal (int a) (int b) = truth (int_eq a b)
apply _ _ _ = none

abbrev pub convert : ValueType → Value → Option Value
convert string (int i) = some (str (int_to_string i))
convert string (str s) = some (str s)
convert _ (int i) = some (int i)
convert _ (str s) = none

abbrev pub bind : {A B : Type 0} → Option A → (A → Option B) → Option B
bind none f = none
bind (some a) f = f a

-- The value of an expression, given the variables'. A call has none: it is a statement.
unfoldable pub eval : (Bytes → Option Value) → Expr → Option Value
eval vars (int_literal i) = some (int i)
eval vars (string_literal s) = some (str s)
eval vars (var_ref name) = vars name
eval vars (cast target e) = bind (eval vars e) (convert target)
eval vars (binary op l r) = bind (eval vars l) λ a. bind (eval vars r) λ b. apply op a b
eval vars (call callee args) = none

-- A variable's value in a machine, by its symbol.
abbrev pub bank_of : Scope → Vm → List Value
bank_of Scope.local vm = vm.locals
bank_of Scope.global vm = vm.globals

abbrev pub value_of : Vm → Option Symbol → Option Value
value_of vm none = none
value_of vm (some s) = get_elem? (bank_of s.scope vm) s.slot

abbrev pub symbol_of : Compiler → Bytes → Option Symbol
symbol_of c name = or_else (find_symbol name c.locals) (find_symbol name c.globals)

abbrev pub variables : Compiler → Vm → Bytes → Option Value
variables c vm name = value_of vm (symbol_of c name)

-- Every variable in scope that has a value has one of its declared type.
abbrev pub VarsTyped : Compiler → Vm → Type 0
VarsTyped c vm =
    (name : Bytes) (s : Symbol) (v : Value)
    → symbol_of c name ≡ some s
    → get_elem? (bank_of s.scope vm) s.slot ≡ some v
    → type_of v ≡ s.type
