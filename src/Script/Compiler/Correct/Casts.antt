-- ===== src/Script/Compiler/Correct/Casts.antt =====
-- The code of casts.
use homeworldz.Common.{◌+◌, ◌≡◌, refl, ap, sym, ◌∙◌, Option, some, ◌∷◌, arith, length}
use mathlib.Core.Path.{subst}
use homeworldz.Common.Int.{pos}
use homeworldz.Script.Bytecode.{
  ValueType, void, integer, string, Value, int, str, type_of, Op, Program,
}
use homeworldz.Script.Ast.{Expr, cast}
use homeworldz.Script.Vm.State.{Vm, HostFunction, ok}
use homeworldz.Script.Vm.Step.{exec}
use homeworldz.Script.Vm.Runs.{Runs}
use homeworldz.Script.Compiler.State.{Compiler, emit}
use homeworldz.Script.Compiler.Generate.{cast_code}
use homeworldz.Script.Compiler.Meaning.{convert, eval, variables}
use homeworldz.Script.Compiler.Frame.{Grows, Grows-trans, Post, returns, raises}
use homeworldz.Script.Compiler.Correct.Scopes.{
  bind-some, emit-Grows, keeps_integer, keeps_string, pushed, with_instruction,
}
use homeworldz.Script.Compiler.Correct.Computes.{Computes, Holds-left, then_exec}

module _ {W : Type 0} (q : Program) (host : Option (HostFunction W)) where
  -- A cast that needs no instruction.
  pub kept-Computes :
      (target : ValueType) (e : Expr) (t : ValueType) (c c₁ : Compiler)
      → ((a v : Value) → type_of a ≡ t → convert target a ≡ some v → a ≡ v)
      → Computes q host e c t c₁
      → Computes q host (cast target e) c t c₁
  kept-Computes target e t c c₁ keeps he = record {
    grows = he.grows;
    runs = λ h vm w v typed here_ip value.
        let (a, is_a, same) =
          bind-some (eval (variables c vm) e) (convert target) v (unfold eval in value) in
        let (run_e, type_a) = he.runs h vm w a typed here_ip is_a in
        let a_is_v : a ≡ v = keeps a v type_a same in
        (
          subst (λ x. Runs q host vm w (pushed c₁ x vm) w) a_is_v run_e,
          ap type_of (sym a_is_v) ∙ type_a,
        );
  }

  pub decimal-Computes :
      (e : Expr) (c c₁ : Compiler)
      → Computes q host e c integer c₁
      → Computes q host
          (cast string e)
          c
          string
          (with_instruction Op.cast_int_to_str (pos 0) (pos 0) c₁)
  decimal-Computes e c c₁ he =
      let last : Grows c₁ (with_instruction Op.cast_int_to_str (pos 0) (pos 0) c₁) =
        emit-Grows Op.cast_int_to_str (pos 0) (pos 0) c₁ in
      record {
        grows = Grows-trans he.grows last;
        runs = λ h vm w v typed here_ip value.
            let (a, is_a, shown) =
              bind-some (eval (variables c vm) e) (convert string) v (unfold eval in value) in
            let (run_e, type_a) = he.runs (Holds-left q host last h) vm w a typed here_ip is_a in
            let done = shows a v (record vm { ip = length c₁.program.code + 1 }) w type_a shown in
            (
              then_exec q host Op.cast_int_to_str (pos 0) (pos 0) c c₁ vm (pushed c₁ a vm)
                  (record vm { stack = v ∷ vm.stack }) w he.grows.code_length h run_e refl done.0,
              done.1,
            );
      }
    where
      shows :
          (a v : Value) (vm : Vm) (w : W)
          → type_of a ≡ integer
          → convert string a ≡ some v
          → (exec q host Op.cast_int_to_str (pos 0) (pos 0) (record vm { stack = a ∷ vm.stack }) w
              ≡ ok tt (record vm { stack = v ∷ vm.stack }) w)
            × (type_of v ≡ string)
      shows (int i) v vm w t e = unfold exec in (ground arith, ground arith)
      shows (str s) v vm w t e = cc

  pub cast_code-Post :
      (target : ValueType) (e : Expr) (t : ValueType) (c c₁ : Compiler)
      → Computes q host e c t c₁
      → Post (Computes q host (cast target e) c) (cast_code target t c₁)
  unfolding cast_code emit
  cast_code-Post string e integer c c₁ he = returns (decimal-Computes e c c₁ he)
  cast_code-Post string e string c c₁ he =
      returns (kept-Computes string e string c c₁ keeps_string he)
  cast_code-Post string e void c c₁ he = raises
  cast_code-Post void e integer c c₁ he =
      returns (kept-Computes void e integer c c₁ (λ a v. keeps_integer void a v (λ x. cc)) he)
  cast_code-Post integer e integer c c₁ he =
      returns (kept-Computes integer e integer c c₁ (λ a v. keeps_integer integer a v (λ x. cc)) he)
  cast_code-Post void e void c c₁ he = raises
  cast_code-Post void e string c c₁ he = raises
  cast_code-Post integer e void c c₁ he = raises
  cast_code-Post integer e string c c₁ he = raises
