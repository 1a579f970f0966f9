-- ===== src/Script/Compiler/Frame.antt =====
-- What compiling leaves alone: code, constants and names are only added to.
use homeworldz.Common.{
  ℕ, zero, suc, ◌≤◌, ◌≡◌, refl, ◌∙◌, some, List, [], ◌∷◌, ◌++◌, arith, length, get_elem?,
}
use mathlib.Core.Path.{subst₂}
use homeworldz.Script.Compiler.State.{Compiler, CompileError, Compiled, ok, err, C, and_then}

-- The elements of the first list stand at the same places in the second.
abbrev pub Sub {ℓ} : {A : Type ℓ} → List A → List A → Type ℓ
Sub {A} xs ys = (i : ℕ) (x : A) → get_elem? xs i ≡ some x → get_elem? ys i ≡ some x

-- The same from index `s` on.
abbrev pub SubFrom {ℓ} : {A : Type ℓ} → ℕ → List A → List A → Type ℓ
SubFrom {A} s xs ys = (i : ℕ) (x : A) → s ≤ i → get_elem? xs i ≡ some x → get_elem? ys i ≡ some x

module _ {ℓ} {A : Type ℓ} where
  pub Sub-append : (xs ys : List A) → Sub xs (xs ++ ys)
  Sub-append [] ys i x h = cc
  Sub-append (a ∷ xs) ys zero x h = h
  Sub-append (a ∷ xs) ys (suc i) x h = Sub-append xs ys i x h

  pub get_elem?-length :
      (xs : List A) (x : A) (ys : List A) → get_elem? (xs ++ x ∷ ys) (length xs) ≡ some x
  get_elem?-length [] x ys = refl
  get_elem?-length (a ∷ xs) x ys = get_elem?-length xs x ys

-- `c'` comes from `c` by adding to its program; its scopes are the same.
pub record Grows (c c' : Compiler) : Type 0 where
  pub code : Sub c.program.code c'.program.code
  pub code_length : length c.program.code ≤ length c'.program.code
  pub constants : Sub c.program.constants c'.program.constants
  pub locals : c'.locals ≡ c.locals
  pub globals : c'.globals ≡ c.globals

pub Grows-refl : (c : Compiler) → Grows c c
Grows-refl c = record {
  code = λ i x h. h;
  code_length = omega arith;
  constants = λ i x h. h;
  locals = refl;
  globals = refl;
}

pub Grows-trans : {a b c : Compiler} → Grows a b → Grows b c → Grows a c
Grows-trans g h = record {
  code = λ i x e. h.code i x (g.code i x e);
  code_length = omega (arith, g.code_length, h.code_length);
  constants = λ i x e. h.constants i x (g.constants i x e);
  locals = h.locals ∙ g.locals;
  globals = h.globals ∙ g.globals;
}

-- `Q` holds of a value and the compiler that it leaves, if there is no error.
pub data Post {A : Type 0} (Q : A → Compiler → Type 0) : Compiled A → Type 0 where
  returns : {a : A} {c : Compiler} → Q a c → Post Q (ok a c)
  raises : {e : CompileError} → Post Q (err e)

pub Post-bind :
    {A B : Type 0} {Q : A → Compiler → Type 0} {R : B → Compiler → Type 0} {r : Compiled A}
    {f : A → C B}
    → Post Q r
    → ((a : A) (c : Compiler) → Q a c → Post R (f a c))
    → Post R (and_then r f)
Post-bind (returns {a} {c} h) k = k a c h
Post-bind raises k = raises

pub Post-ok :
    {A : Type 0} {Q : A → Compiler → Type 0} {r : Compiled A} {a : A} {c : Compiler}
    → Post Q r
    → r ≡ ok a c
    → Q a c
Post-ok {Q = Q} (returns h) e = subst₂ Q (cc) (cc) h
Post-ok raises e = cc
