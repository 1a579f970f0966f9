-- ===== src/Script/Compiler/Pool.antt =====
-- The constant pool: where a pooled value stands.
use homeworldz.Common.{
  ℕ, suc, ◌+◌, ◌<◌, ◌^◌, ◌≡◌, refl, ap, ◌∙◌, Bool, true, Option, none, some, List, [], ◌∷◌, ◌++◌,
  arith, length, get_elem?, length-append, Bool-cases, inl, inr,
}
use homeworldz.Common.Int.{ℤ, pos, negsuc, ◌-ℤ◌}
use homeworldz.Common.Bytes.{bytes_eq→eq}
use homeworldz.Common.Words.{to_i32, to_i32_small}
use homeworldz.Script.Bytecode.{Value, int, str}
use homeworldz.Script.Compiler.State.{Compiler, value_eq, index_from, pool_constant, add_constant}
use homeworldz.Script.Compiler.Frame.{
  Sub-append, get_elem?-length, Grows, Grows-refl, Post, returns,
}

value_eq→eq : (a b : Value) → value_eq a b ≡ true → a ≡ b
unfolding value_eq
value_eq→eq (int (pos a)) (int (pos b)) h = ground arith
value_eq→eq (int (pos a)) (int (negsuc b)) h = cc
value_eq→eq (int (pos a)) (str t) h = cc
value_eq→eq (int (negsuc a)) (int (pos b)) h = cc
value_eq→eq (int (negsuc a)) (int (negsuc b)) h = ground arith
value_eq→eq (int (negsuc a)) (str t) h = cc
value_eq→eq (str s) (int i) h = cc
value_eq→eq (str s) (str t) h = ap str (bytes_eq→eq s t h)

-- An index that the search returns is that of an element on which the test passes.
index_from_found :
    {A : Type 0} (test : A → Bool) (k : ℕ) (xs : List A) (i : ℕ)
    → index_from test k xs ≡ some i
    → (j : ℕ) × (x : A) × (i ≡ k + j) × (get_elem? xs j ≡ some x) × (test x ≡ true)
unfolding index_from
index_from_found test k [] i h = cc
index_from_found test k (x ∷ xs) i h = elim (Bool-cases (test x)) [
  | inl e ↦ (0, x, ground arith, refl, e)
  | inr e ↦
      let (j, y, at, got, passes) = index_from_found test (k + 1) xs i (rw e at h) in
      (suc j, y, omega arith, got, passes)
]

-- A pooled value: its index, which the returned operand is unless the pool outgrows an `int32_t`.
abbrev pub Pooled : Value → Compiler → ℤ → Compiler → Type 0
Pooled v c k c' =
    Grows c c'
    × (c'.program.code ≡ c.program.code)
    × (i : ℕ) × (get_elem? c'.program.constants i ≡ some v)
    × (i + 1 < 2 ^ 31 → k ≡ pos i)

last_index :
    (xs : List Value) (v : Value)
    → length xs + 1 < 2 ^ 31
    → to_i32 (length (xs ++ v ∷ [])) -ℤ pos 1 ≡ pos (length xs)
unfolding ◌-ℤ◌
last_index xs v h =
    let n = to_i32_small (length xs + 1) h in ground (arith, n, length-append xs (v ∷ []))

pub add_constant-Pooled : (v : Value) (c : Compiler) → Post (Pooled v c) (add_constant v c)
unfolding add_constant pool_constant
add_constant-Pooled v c = go (index_from (λ e. value_eq e v) 0 c.program.constants) refl
  where
    go :
        (o : Option ℕ)
        → index_from (λ e. value_eq e v) 0 c.program.constants ≡ o
        → Post (Pooled v c) (pool_constant v o c)
    go none e = returns (
      record {
        code = λ i x h. h;
        code_length = omega arith;
        constants = Sub-append c.program.constants (v ∷ []);
        locals = refl;
        globals = refl;
      },
      refl,
      length c.program.constants,
      get_elem?-length c.program.constants v [],
      last_index c.program.constants v,
    )
    go (some i) e =
        let (j, x, at, got, passes) = index_from_found _ 0 c.program.constants i e in
        returns (
          Grows-refl c,
          refl,
          j,
          got ∙ ap some (value_eq→eq x v passes),
          λ h. to_i32_small i (omega arith) ∙ ap pos (omega arith),
        )
