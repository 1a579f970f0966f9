-- ===== src/Script/Compiler/Correct/Expressions.antt =====
-- Compiled expressions compute what the expression means.
use homeworldz.Common.{◌==◌, ℕ, ◌+◌, ◌≡◌, Option, none, some, List, [], ◌∷◌, length}
use homeworldz.Common.Bytes.{Bytes}
use homeworldz.Common.Words.{to_i32}
use homeworldz.Script.Bytecode.{ValueType, Value, int, str, type_of, type_eq, Op, Program}
use homeworldz.Script.Ast.{
  Args, no_args, arg, Expr, int_literal, string_literal, var_ref, binary, cast, call,
}
use homeworldz.Script.Vm.State.{Vm, HostFunction}
use homeworldz.Script.Vm.Runs.{Runs}
use homeworldz.Script.Compiler.State.{
  HostSignature, lookup_host, Compiler, ok as compiled_ok, C, emit,
}
use homeworldz.Script.Compiler.Generate.{compile_expression, compile_args, args_count, call_code}
use homeworldz.Script.Compiler.Meaning.{eval, variables, VarsTyped}
use homeworldz.Script.Compiler.Frame.{
  Grows, Grows-refl, Grows-trans, Post, returns, raises, Post-bind, Post-ok,
}
use homeworldz.Script.Compiler.Pool.{add_constant-Pooled}
use homeworldz.Script.Compiler.Correct.Scopes.{
  add_host-Grows, emit-Grows, means_int, means_string, require-Grows, resolve-Post, weaken,
}
use homeworldz.Script.Compiler.Correct.Computes.{Computes, Holds, push_code, var_code}
use homeworldz.Script.Compiler.Correct.Operators.{binary_code-Post}
use homeworldz.Script.Compiler.Correct.Casts.{cast_code-Post}

module _ {W : Type 0} (q : Program) (host : Option (HostFunction W)) where
  call_code-Post :
      (callee : Bytes) (args : Args) (arguments : List ValueType → C (Unit {0}))
      (o : Option HostSignature) (c : Compiler)
      → ((ts : List ValueType) (c₁ : Compiler) → Post (λ _ c'. Grows c₁ c') (arguments ts c₁))
      → Post
          (Computes q host (call callee args) c)
          (call_code callee (args_count args) arguments o c)
  unfolding call_code emit
  call_code-Post callee args arguments none c h = raises
  call_code-Post callee args arguments (some signature) c h =
      Post-bind (require-Grows (args_count args == length signature.params) _ c) λ _ c₁ g₁.
        Post-bind (h signature.params c₁) λ _ c₂ g₂. Post-bind (add_host-Grows callee c₂) λ k c₃ g₃.
          returns (record {
            grows = Grows-trans g₁ (
                Grows-trans g₂
                  (Grows-trans g₃ (emit-Grows Op.call_host k (to_i32 (args_count args)) c₃)));
            runs = λ _ vm w v typed here_ip value. elim (no_value (variables c vm) v value) [ ];
          })
    where
      no_value :
          (vars : Bytes → Option Value) (v : Value) → eval vars (call callee args) ≡ some v → ⊥
      no_value vars v e = unfold eval in cc

  mutual
    unfolding compile_expression

    expression-Computes :
        (e : Expr) (c : Compiler) → Post (Computes q host e c) (compile_expression e c)
    expression-Computes (int_literal i) c =
        Post-bind (add_constant-Pooled (int i) c)
          λ k c₁ h. push_code q host (int_literal i) (int i) c k c₁ (means_int i) h
    expression-Computes (string_literal s) c =
        Post-bind (add_constant-Pooled (str s) c)
          λ k c₁ h. push_code q host (string_literal s) (str s) c k c₁ (means_string s) h
    expression-Computes (var_ref name) c =
        Post-bind (resolve-Post name c) λ s c₁ h. var_code q host name s c c₁ h.0 h.1
    expression-Computes (cast target e) c =
        Post-bind (expression-Computes e c) λ t c₁ he. cast_code-Post q host target e t c c₁ he
    expression-Computes (binary op l r) c = Post-bind (expression-Computes l c) λ t₁ c₁ hl.
        Post-bind (expression-Computes r c₁)
          λ t₂ c₂ hr. binary_code-Post q host op l r t₁ t₂ c c₁ c₂ hl hr
    expression-Computes (call callee args) c =
        call_code-Post callee args (compile_args 1 callee args) (lookup_host callee) c
          (λ ts c₁. args-Grows args 1 callee ts c₁)

    args-Grows :
        (args : Args) (i : ℕ) (callee : Bytes) (ts : List ValueType) (c : Compiler)
        → Post (λ _ c'. Grows c c') (compile_args i callee args ts c)
    args-Grows no_args i callee ts c = returns (Grows-refl c)
    args-Grows (arg e rest) i callee [] c = returns (Grows-refl c)
    args-Grows (arg e rest) i callee (t ∷ ts) c = Post-bind (expression-Computes e c) λ type c₁ he.
        Post-bind (require-Grows (type_eq type t) _ c₁)
          λ _ c₂ g₂. weaken (Grows-trans he.grows g₂) (args-Grows rest (i + 1) callee ts c₂)

  -- The code that `compile_expression` makes for an expression of type `t`, placed in a program that
  -- holds it and fewer than 2 ^ 31 constants: wherever the expression has a value, with every variable in scope holding a value of
  -- its declared type, the machine runs from the first instruction of the code to its end without a
  -- fault, and leaves the value, which is of type `t`, on the stack as it was.
  pub Runs-compile_expression :
      (e : Expr) (c : Compiler) (t : ValueType) (c' : Compiler) (vm : Vm) (w : W) (v : Value)
      → compile_expression e c ≡ compiled_ok t c'
      → Holds q host c c'
      → VarsTyped c vm
      → vm.ip ≡ length c.program.code
      → eval (variables c vm) e ≡ some v
      → Runs q host vm w (record vm { ip = length c'.program.code; stack = v ∷ vm.stack }) w
        × (type_of v ≡ t)
  Runs-compile_expression e c t c' vm w v compiled h typed at value =
      (Post-ok (expression-Computes e c) compiled).runs h vm w v typed at value
