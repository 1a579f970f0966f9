-- ===== src/Script/Compiler/Correct/Operators.antt =====
-- The code of binary operators.
use homeworldz.Common.{◌+◌, ◌≡◌, refl, ap, ◌∙◌, Option, some, ◌∷◌, arith, length}
use homeworldz.Common.Int.{pos}
use homeworldz.Script.Bytecode.{
  ValueType, void, integer, string, Value, int, str, type_of, Op, Program,
}
use homeworldz.Script.Ast.{BinaryOp, Expr, binary}
use homeworldz.Script.Vm.State.{Vm, HostFunction, ok}
use homeworldz.Script.Vm.Step.{exec}
use homeworldz.Script.Vm.Runs.{Runs-trans}
use homeworldz.Script.Compiler.State.{Compiler, emit}
use homeworldz.Script.Compiler.Generate.{binary_code, integers_op}
use homeworldz.Script.Compiler.Meaning.{apply, bind, eval, variables}
use homeworldz.Script.Compiler.Frame.{Grows, Grows-trans, Post, returns, raises}
use homeworldz.Script.Compiler.Correct.Scopes.{
  bind-some, emit-Grows, pushed, same_variables, still_typed, with_instruction,
}
use homeworldz.Script.Compiler.Correct.Computes.{Computes, Holds-left, Holds-right, then_exec}

module _ {W : Type 0} (q : Program) (host : Option (HostFunction W)) where
  -- The instruction `o` is the operator `op` on operands of these types.
  abbrev pub Works : BinaryOp → Op → ValueType → ValueType → ValueType → Type 0
  Works op o t₁ t₂ t =
      (a b v : Value) (vm : Vm) (w : W)
      → type_of a ≡ t₁
      → type_of b ≡ t₂
      → apply op a b ≡ some v
      → (exec q host o (pos 0) (pos 0) (record vm { stack = b ∷ a ∷ vm.stack }) w
          ≡ ok tt (record vm { stack = v ∷ vm.stack }) w)
        × (type_of v ≡ t)

  pub binary-Computes :
      (op : BinaryOp) (o : Op) (l r : Expr) (t₁ t₂ t : ValueType) (c c₁ c₂ : Compiler)
      → Works op o t₁ t₂ t
      → Computes q host l c t₁ c₁
      → Computes q host r c₁ t₂ c₂
      → Computes q host (binary op l r) c t (with_instruction o (pos 0) (pos 0) c₂)
  binary-Computes op o l r t₁ t₂ t c c₁ c₂ works hl hr =
      let last : Grows c₂ (with_instruction o (pos 0) (pos 0) c₂) =
        emit-Grows o (pos 0) (pos 0) c₂ in
      record {
        grows = Grows-trans hl.grows (Grows-trans hr.grows last);
        runs = λ h vm w v typed here_ip value.
            let (a, is_a, rest) =
              bind-some (eval (variables c vm) l)
                (λ x. bind (eval (variables c vm) r) λ y. apply op x y) v (unfold eval in value) in
            let (b, is_b, result) =
              bind-some (eval (variables c vm) r) (λ y. apply op a y) v rest in
            let (run_l, type_a) =
              hl.runs (Holds-left q host (Grows-trans hr.grows last) h) vm w a typed here_ip is_a in
            let vm₁ = pushed c₁ a vm in
            let (run_r, type_b) =
              hr.runs (Holds-right q host hl.grows (Holds-left q host last h)) vm₁ w b
                (still_typed (length c₁.program.code) (a ∷ vm.stack) vm hl.grows typed) refl
                (ap (λ ρ. eval ρ r)
                    (same_variables (length c₁.program.code) (a ∷ vm.stack) vm hl.grows)
                  ∙ is_b) in
            let done =
              works a b v (record vm { ip = length c₂.program.code + 1 }) w type_a type_b result in
            (
              then_exec q host o (pos 0) (pos 0) c c₂ vm (pushed c₂ b vm₁)
                  (record vm { stack = v ∷ vm.stack }) w
                  (omega (arith, hl.grows.code_length, hr.grows.code_length)) h
                  (Runs-trans q host run_l run_r) refl done.0,
              done.1,
            );
      }

  -- The operators' instructions.
  abbrev pub TwoIntegers : BinaryOp → Op → ValueType → Type 0
  TwoIntegers op o t = Works op o integer integer t

  pub add-Works : Works BinaryOp.add Op.add_int integer integer integer
  unfolding exec
  add-Works (int a) (int b) v vm w ta tb e = (ground arith, ground arith)
  add-Works (str a) b v vm w ta tb e = cc
  add-Works (int a) (str b) v vm w ta tb e = cc

  pub concat-Works : Works BinaryOp.add Op.concat_str string string string
  unfolding exec
  concat-Works (str a) (str b) v vm w ta tb e = (ground arith, ground arith)
  concat-Works (int a) b v vm w ta tb e = cc
  concat-Works (str a) (int b) v vm w ta tb e = cc

  pub sub-Works : Works BinaryOp.sub Op.sub_int integer integer integer
  unfolding exec
  sub-Works (int a) (int b) v vm w ta tb e = (ground arith, ground arith)
  sub-Works (str a) b v vm w ta tb e = cc
  sub-Works (int a) (str b) v vm w ta tb e = cc

  pub mul-Works : Works BinaryOp.mul Op.mul_int integer integer integer
  unfolding exec
  mul-Works (int a) (int b) v vm w ta tb e = (ground arith, ground arith)
  mul-Works (str a) b v vm w ta tb e = cc
  mul-Works (int a) (str b) v vm w ta tb e = cc

  pub less-Works : Works BinaryOp.less Op.less_int integer integer integer
  unfolding exec
  less-Works (int a) (int b) v vm w ta tb e = (ground arith, ground arith)
  less-Works (str a) b v vm w ta tb e = cc
  less-Works (int a) (str b) v vm w ta tb e = cc

  pub greater-Works : Works BinaryOp.greater Op.greater_int integer integer integer
  unfolding exec
  greater-Works (int a) (int b) v vm w ta tb e = (ground arith, ground arith)
  greater-Works (str a) b v vm w ta tb e = cc
  greater-Works (int a) (str b) v vm w ta tb e = cc

  pub equal-Works : Works BinaryOp.equal Op.equal_int integer integer integer
  unfolding exec
  equal-Works (int a) (int b) v vm w ta tb e = (ground arith, ground arith)
  equal-Works (str a) b v vm w ta tb e = cc
  equal-Works (int a) (str b) v vm w ta tb e = cc

  pub integers_op-Post :
      (op : BinaryOp) (o : Op) (l r : Expr) (t₁ t₂ : ValueType) (c c₁ c₂ : Compiler)
      → Works op o integer integer integer
      → Computes q host l c t₁ c₁
      → Computes q host r c₁ t₂ c₂
      → Post (Computes q host (binary op l r) c) (integers_op op o t₁ t₂ c₂)
  unfolding integers_op emit
  integers_op-Post op o l r integer integer c c₁ c₂ works hl hr =
      returns (binary-Computes op o l r integer integer integer c c₁ c₂ works hl hr)
  integers_op-Post op o l r integer void c c₁ c₂ works hl hr = raises
  integers_op-Post op o l r integer string c c₁ c₂ works hl hr = raises
  integers_op-Post op o l r void t₂ c c₁ c₂ works hl hr = raises
  integers_op-Post op o l r string t₂ c c₁ c₂ works hl hr = raises

  pub binary_code-Post :
      (op : BinaryOp) (l r : Expr) (t₁ t₂ : ValueType) (c c₁ c₂ : Compiler)
      → Computes q host l c t₁ c₁
      → Computes q host r c₁ t₂ c₂
      → Post (Computes q host (binary op l r) c) (binary_code op t₁ t₂ c₂)
  unfolding binary_code
  binary_code-Post BinaryOp.sub l r t₁ t₂ c c₁ c₂ hl hr =
      integers_op-Post BinaryOp.sub Op.sub_int l r t₁ t₂ c c₁ c₂ sub-Works hl hr
  binary_code-Post BinaryOp.mul l r t₁ t₂ c c₁ c₂ hl hr =
      integers_op-Post BinaryOp.mul Op.mul_int l r t₁ t₂ c c₁ c₂ mul-Works hl hr
  binary_code-Post BinaryOp.less l r t₁ t₂ c c₁ c₂ hl hr =
      integers_op-Post BinaryOp.less Op.less_int l r t₁ t₂ c c₁ c₂ less-Works hl hr
  binary_code-Post BinaryOp.greater l r t₁ t₂ c c₁ c₂ hl hr =
      integers_op-Post BinaryOp.greater Op.greater_int l r t₁ t₂ c c₁ c₂ greater-Works hl hr
  binary_code-Post BinaryOp.equal l r t₁ t₂ c c₁ c₂ hl hr =
      integers_op-Post BinaryOp.equal Op.equal_int l r t₁ t₂ c c₁ c₂ equal-Works hl hr
  binary_code-Post BinaryOp.add l r integer integer c c₁ c₂ hl hr =
      unfold emit in
      returns (
        binary-Computes BinaryOp.add Op.add_int l r integer integer integer c c₁ c₂ add-Works hl hr)
  binary_code-Post BinaryOp.add l r string string c c₁ c₂ hl hr =
      unfold emit in
      returns (
        binary-Computes BinaryOp.add Op.concat_str l r string string string c c₁ c₂ concat-Works hl
          hr)
  binary_code-Post BinaryOp.add l r _ _ c c₁ c₂ hl hr = raises
