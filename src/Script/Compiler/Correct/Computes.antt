-- ===== src/Script/Compiler/Correct/Computes.antt =====
-- What it is for code to compute an expression; literals and variables.
use homeworldz.Common.{
  ℕ, ◌+◌, ◌≤◌, ◌<◌, ◌^◌, ◌≡◌, ap, sym, ◌∙◌, Option, some, [], ◌∷◌, arith, length, get_elem?,
  length-append,
}
use mathlib.Core.Path.{subst}
use homeworldz.Common.Int.{ℤ, pos}
use homeworldz.Common.Bytes.{Bytes}
use homeworldz.Script.Bytecode.{ValueType, Value, type_of, Op, Instruction, Program}
use homeworldz.Script.Ast.{Expr, var_ref}
use homeworldz.Script.Vm.State.{Vm, HostFunction, ok}
use homeworldz.Script.Vm.Step.{exec}
use homeworldz.Script.Vm.Runs.{Runs, here, Runs-trans, Runs-exec}
use homeworldz.Script.Compiler.State.{give, ◌>>◌, Symbol, Scope, Compiler, emit, load_op, emit_load}
use homeworldz.Script.Compiler.Meaning.{eval, bank_of, value_of, symbol_of, variables, VarsTyped}
use homeworldz.Script.Compiler.Frame.{
  Sub, SubFrom, get_elem?-length, Grows, Grows-trans, Post, returns,
}
use homeworldz.Script.Compiler.Pool.{Pooled}
use homeworldz.Script.Compiler.Correct.Scopes.{
  emit-Grows, get_elem?-lt, same_bank, with_instruction,
}

module _ {W : Type 0} (q : Program) (host : Option (HostFunction W)) where
  -- The program `q` holds what was compiled between `c` and `c'`, and its pool is within range.
  pub record Holds (c c' : Compiler) : Type 0 where
    pub code : SubFrom (length c.program.code) c'.program.code q.code
    pub constants : Sub c'.program.constants q.constants
    pub in_range : length q.constants < 2 ^ 31

  -- From `ip` at the first instruction compiled, the machine comes to the end of the code with the
  -- value of `e` pushed, a value of type `t`.
  pub record Computes (e : Expr) (c : Compiler) (t : ValueType) (c' : Compiler) : Type 0 where
    pub grows : Grows c c'
    pub runs :
        Holds c c'
        → (vm : Vm) (w : W) (v : Value) → VarsTyped c vm
        → vm.ip ≡ length c.program.code
        → eval (variables c vm) e ≡ some v
        → Runs q host vm w (record vm { ip = length c'.program.code; stack = v ∷ vm.stack }) w
          × (type_of v ≡ t)

  -- What runs up to `vm'` and then executes the instruction that was emitted last.
  pub then_exec :
      (op : Op) (a b : ℤ) (c c₁ : Compiler) (vm vm' vm'' : Vm) (w : W)
      → length c.program.code ≤ length c₁.program.code
      → Holds c (with_instruction op a b c₁)
      → Runs q host vm w vm' w
      → vm'.ip ≡ length c₁.program.code
      → exec q host op a b (record vm' { ip = length c₁.program.code + 1 }) w
        ≡ ok tt (record vm'' { ip = length c₁.program.code + 1 }) w
      → Runs q host vm w (record vm'' { ip = length (with_instruction op a b c₁).program.code }) w
  then_exec op a b c c₁ vm vm' vm'' w le h r at e =
      let i : Instruction = record { op = op; a = a; b = b } in
      let there = h.code (length c₁.program.code) i le (get_elem?-length c₁.program.code i []) in
      rw (length-append c₁.program.code (i ∷ [])) (
        Runs-trans q host r
          (Runs-exec q host i vm' w (ap (get_elem? q.code) at ∙ there) (simp at e)))

  pub literal-Computes :
      (e : Expr) (v : Value) (c : Compiler)
      → ((vars : Bytes → Option Value) → eval vars e ≡ some v)
      → (k : ℤ) (c₁ : Compiler) → Pooled v c k c₁
      → Computes e c (type_of v) (with_instruction Op.push_const k (pos 0) c₁)
  unfolding exec
  literal-Computes e v c means k c₁ (g, same, i, at, index) = record {
    grows = Grows-trans g (emit-Grows Op.push_const k (pos 0) c₁);
    runs = λ h vm w v' typed here_ip value.
        let same_value : v ≡ v' = cc (means (variables c vm)) in
        let pooled : get_elem? q.constants i ≡ some v = h.constants i v at in
        let operand : k ≡ pos i =
          index (omega (arith, get_elem?-lt q.constants i v pooled, h.in_range)) in
        (
          then_exec Op.push_const k (pos 0) c c₁ vm vm (record vm { stack = v' ∷ vm.stack }) w
              g.code_length h here (here_ip ∙ ap length (sym same))
              (ground (arith, operand, pooled, same_value)),
          ap type_of (sym same_value),
        );
  }

  pub load_exec :
      (scope : Scope) (n : ℕ) (vm : Vm) (w : W) (v : Value)
      → get_elem? (bank_of scope vm) n ≡ some v
      → exec q host (load_op scope) (pos n) (pos 0) vm w
        ≡ ok tt (record vm { stack = v ∷ vm.stack }) w
  unfolding exec
  load_exec Scope.local n vm w v e = ground (arith, e)
  load_exec Scope.global n vm w v e = ground (arith, e)

  pub var-Computes :
      (name : Bytes) (c : Compiler) (s : Symbol)
      → symbol_of c name ≡ some s
      → Computes (var_ref name) c s.type (with_instruction (load_op s.scope) (pos s.slot) (pos 0) c)
  var-Computes name c s found = record {
    grows = emit-Grows (load_op s.scope) (pos s.slot) (pos 0) c;
    runs = λ h vm w v typed here_ip value.
        let read : get_elem? (bank_of s.scope vm) s.slot ≡ some v =
          ap (value_of vm) (sym found) ∙ unfold eval in value in
        (
          then_exec (load_op s.scope) (pos s.slot) (pos 0) c c vm vm
              (record vm { stack = v ∷ vm.stack }) w (omega arith) h here here_ip
              (load_exec s.scope s.slot (record vm { ip = length c.program.code + 1 }) w v
                (same_bank s.scope s.slot (length c.program.code + 1) vm ∙ read)),
          typed name s v found read,
        );
  }

  pub Holds-left : {c c₁ c₂ : Compiler} → Grows c₁ c₂ → Holds c c₂ → Holds c c₁
  Holds-left g h = record {
    code = λ i x le e. h.code i x le (g.code i x e);
    constants = λ i x e. h.constants i x (g.constants i x e);
    in_range = h.in_range;
  }

  pub Holds-right : {c c₁ c₂ : Compiler} → Grows c c₁ → Holds c c₂ → Holds c₁ c₂
  Holds-right g h = record {
    code = λ i x le e. h.code i x (omega (arith, g.code_length)) e;
    constants = h.constants;
    in_range = h.in_range;
  }

  pub push_code :
      (e : Expr) (v : Value) (c : Compiler) (k : ℤ) (c₁ : Compiler)
      → ((vars : Bytes → Option Value) → eval vars e ≡ some v)
      → Pooled v c k c₁
      → Post (Computes e c) ((emit Op.push_const k (pos 0) >> give (type_of v)) c₁)
  unfolding emit
  push_code e v c k c₁ means h = returns (literal-Computes e v c means k c₁ h)

  pub var_code :
      (name : Bytes) (s : Symbol) (c c₁ : Compiler)
      → c₁ ≡ c
      → symbol_of c name ≡ some s
      → Post (Computes (var_ref name) c) ((emit_load s >> give s.type) c₁)
  unfolding emit_load emit
  var_code name s c c₁ same found =
      subst (λ x. Post (Computes (var_ref name) c) ((emit_load s >> give s.type) x)) (sym same)
        (returns (var-Computes name c s found))
