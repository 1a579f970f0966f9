-- ===== src/Script/Compiler/Correct/Scopes.antt =====
-- What an expression's code finds: names, scopes and values, over a compiler that grows.
use homeworldz.Common.{
  ℕ, zero, suc, ◌<◌, ◌≡◌, refl, ap, sym, ◌∙◌, Bool, true, false, Option, none, some, List, [], ◌∷◌,
  ◌++◌, arith, length, get_elem?, length-append,
}
use mathlib.Core.Path.{fun_ext}
use homeworldz.Common.Int.{ℤ}
use homeworldz.Common.Bytes.{Bytes, bytes_eq}
use homeworldz.Script.Bytecode.{ValueType, void, integer, string, Value, int, str, type_of, Op}
use homeworldz.Script.Ast.{int_literal, string_literal}
use homeworldz.Script.Vm.State.{Vm}
use homeworldz.Script.Compiler.State.{
  CompileError, require, index_from, pool_host, add_host, Symbol, Scope, Compiler, Compiled,
  resolve, resolved, find_symbol, or_else,
}
use homeworldz.Script.Compiler.Meaning.{
  convert, bind, eval, bank_of, value_of, symbol_of, variables, VarsTyped,
}
use homeworldz.Script.Compiler.Frame.{
  Sub-append, Grows, Grows-refl, Grows-trans, Post, returns, raises,
}

pub get_elem?-lt :
    {A : Type 0} (xs : List A) (i : ℕ) (x : A) → get_elem? xs i ≡ some x → i < length xs
get_elem?-lt [] i x h = cc
get_elem?-lt (a ∷ xs) zero x h = omega arith
get_elem?-lt (a ∷ xs) (suc i) x h = omega (arith, get_elem?-lt xs i x h)

-- The compiler after an instruction is appended.
abbrev pub with_instruction : Op → ℤ → ℤ → Compiler → Compiler
with_instruction op a b c = record c {
  program = record (c.program) { code = c.program.code ++ record { op = op; a = a; b = b } ∷ [] };
}

pub emit-Grows : (op : Op) (a b : ℤ) (c : Compiler) → Grows c (with_instruction op a b c)
emit-Grows op a b c = record {
  code = Sub-append c.program.code _;
  code_length = omega (arith, length-append c.program.code (record { op = op; a = a; b = b } ∷ []));
  constants = λ i x h. h;
  locals = refl;
  globals = refl;
}

-- A symbol that `resolve` finds is the variable's.
pub resolve-Post :
    (name : Bytes) (c : Compiler)
    → Post (λ s c'. (c' ≡ c) × (symbol_of c name ≡ some s)) (resolve name c)
unfolding resolve
resolve-Post name c = go (symbol_of c name) refl
  where
    go :
        (o : Option Symbol)
        → symbol_of c name ≡ o
        → Post (λ s c'. (c' ≡ c) × (symbol_of c name ≡ some s)) (resolved name o c)
    go none e = raises
    go (some s) e = returns (refl, e)

-- Where a slot is read does not turn on `ip`.
pub same_bank :
    (scope : Scope) (n k : ℕ) (vm : Vm)
    → get_elem? (bank_of scope (record vm { ip = k })) n ≡ get_elem? (bank_of scope vm) n
same_bank Scope.local n k vm = refl
same_bank Scope.global n k vm = refl

pub bind-some :
    {A B : Type 0} (o : Option A) (f : A → Option B) (b : B)
    → bind o f ≡ some b
    → (a : A) × (o ≡ some a) × (f a ≡ some b)
bind-some none f b h = cc
bind-some (some a) f b h = (a, refl, h)

-- The machine after an operand: past its code, with its value pushed.
abbrev pub pushed : Compiler → Value → Vm → Vm
pushed c v vm = record vm { ip = length c.program.code; stack = v ∷ vm.stack }

pub same_symbol :
    {c c₁ : Compiler} (name : Bytes) → Grows c c₁ → symbol_of c₁ name ≡ symbol_of c name
same_symbol name g = λ i. or_else (find_symbol name (g.locals i)) (find_symbol name (g.globals i))

pub same_value :
    (o : Option Symbol) (k : ℕ) (s : List Value) (vm : Vm)
    → value_of (record vm { ip = k; stack = s }) o ≡ value_of vm o
same_value none k s vm = refl
same_value (some x) k s vm = go x.scope
  where
    go :
        (scope : Scope)
        → get_elem? (bank_of scope (record vm { ip = k; stack = s })) x.slot
          ≡ get_elem? (bank_of scope vm) x.slot
    go Scope.local = refl
    go Scope.global = refl

pub same_variables :
    {c c₁ : Compiler} (k : ℕ) (s : List Value) (vm : Vm)
    → Grows c c₁
    → variables c₁ (record vm { ip = k; stack = s }) ≡ variables c vm
same_variables {c} {c₁} k s vm g =
    fun_ext λ name. same_value (symbol_of c₁ name) k s vm ∙ ap (value_of vm) (same_symbol name g)

pub still_typed :
    {c c₁ : Compiler} (k : ℕ) (s : List Value) (vm : Vm)
    → Grows c c₁
    → VarsTyped c vm
    → VarsTyped c₁ (record vm { ip = k; stack = s })
still_typed k s vm g typed name x v found read =
    typed name x v (sym (same_symbol name g) ∙ found) (sym (same_value (some x) k s vm) ∙ read)

pub keeps_string : (a v : Value) → type_of a ≡ string → convert string a ≡ some v → a ≡ v
keeps_string (int i) v t e = cc
keeps_string (str s) v t e = cc

pub keeps_integer :
    (target : ValueType) (a v : Value)
    → (target ≡ string → ⊥)
    → type_of a ≡ integer
    → convert target a ≡ some v
    → a ≡ v
keeps_integer void (int i) v other t e = cc
keeps_integer integer (int i) v other t e = cc
keeps_integer string a v other t e = absurd (other refl)
keeps_integer void (str s) v other t e = cc
keeps_integer integer (str s) v other t e = cc

-- A host function's name is pooled, and nothing else changes.
pub add_host-Grows : (name : Bytes) (c : Compiler) → Post (λ k c'. Grows c c') (add_host name c)
unfolding add_host pool_host
add_host-Grows name c = go (index_from (λ n. bytes_eq n name) 0 c.program.host_names)
  where
    go : (o : Option ℕ) → Post (λ k c'. Grows c c') (pool_host name o c)
    go none = returns (record {
      code = λ i x h. h;
      code_length = omega arith;
      constants = λ i x h. h;
      locals = refl;
      globals = refl;
    })
    go (some i) = returns (Grows-refl c)

pub require-Grows :
    (b : Bool) (e : CompileError) (c : Compiler) → Post (λ _ c'. Grows c c') (require b e c)
require-Grows true e c = returns (Grows-refl c)
require-Grows false e c = raises

pub weaken :
    {c c₁ : Compiler} {r : Compiled (Unit {0})}
    → Grows c c₁
    → Post (λ _ c'. Grows c₁ c') r
    → Post (λ _ c'. Grows c c') r
weaken g (returns h) = returns (Grows-trans g h)
weaken g raises = raises

pub means_int : (i : ℤ) (vars : Bytes → Option Value) → eval vars (int_literal i) ≡ some (int i)
unfolding eval
means_int i vars = refl

pub means_string :
    (s : Bytes) (vars : Bytes → Option Value) → eval vars (string_literal s) ≡ some (str s)
unfolding eval
means_string s vars = refl
