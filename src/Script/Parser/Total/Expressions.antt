-- ===== src/Script/Parser/Total/Expressions.antt =====
-- Expressions: four units of fuel for each token, and four more.
use homeworldz.Common.{
  ℕ, zero, suc, ◌+◌, ◌*◌, ◌≤◌, ◌<◌, ◌≡◌, refl, Bool, true, false, Option, none, some, arith, length,
  [], ◌∷◌,
}
use homeworldz.Script.Lexer.Token.{TokenKind, Token, kind_eq}
use homeworldz.Script.Bytecode.{ValueType}
use homeworldz.Script.Ast.{BinaryOp, Expr, Args, binary}
use homeworldz.Script.Parser.State.{Tokens, P, check}
use homeworldz.Script.Parser.Expression.{
  next_operator, cast_target, parse_expression, operators, parse_unary, parse_primary,
  parse_arguments, parse_more, primary_of, operand_of, cast_or, arguments_of, more_or_close,
  name_or_call, expression, skip_token,
}
use homeworldz.Script.Parser.Total.Uses.{
  Uses, left, failed, Uses-bind, Uses-mono, expect-Uses, match_kind-Uses,
}

-- `p` ends on the token lists of fewer than `n` tokens, and takes one at least.
abbrev Takes : {A : Type 0} → ℕ → P A → Type 0
Takes n p = (ts : Tokens) → length ts < n → Uses (length ts) (p ts)

check_nonempty :
    (kind : TokenKind) (ts : Tokens)
    → check kind ts ≡ true
    → kind_eq TokenKind.end kind ≡ false
    → 0 < length ts
check_nonempty kind [] h k = cc
check_nonempty kind (t ∷ ts) h k = omega arith

cast_nonempty : (ts : Tokens) (type : ValueType) → cast_target ts ≡ some type → 0 < length ts
cast_nonempty [] type h = cc
cast_nonempty (t ∷ ts) type h = omega arith

operator_nonempty :
    (min : ℕ) (ts : Tokens) (o : ℕ × BinaryOp) → next_operator min ts ≡ some o → 0 < length ts
operator_nonempty min [] o h = cc
operator_nonempty min (t ∷ ts) o h = omega arith

length-skip_token : (ts : Tokens) → length (skip_token ts) ≤ length ts
length-skip_token [] = omega arith
length-skip_token (t ∷ ts) = omega arith

length-skip_lt : (ts : Tokens) → 0 < length ts → length (skip_token ts) < length ts
length-skip_lt [] h = h
length-skip_lt (t ∷ ts) h = omega arith

primary_of-Uses :
    (arguments : P Args) (inner : P Expr) (kind : TokenKind) (t : Token) (ts : Tokens)
    → ((us : Tokens) → length us < length ts → Uses (length us) (arguments us))
    → Uses (length ts) (inner ts)
    → Uses (suc (length ts)) (primary_of arguments inner kind t ts)
primary_of-Uses arguments inner TokenKind.int_literal t ts ha hi = left (omega arith)
primary_of-Uses arguments inner TokenKind.string_literal t ts ha hi = left (omega arith)
primary_of-Uses arguments inner TokenKind.identifier t ts ha hi =
    go (check TokenKind.l_paren ts) refl
  where
    go :
        (b : Bool)
        → check TokenKind.l_paren ts ≡ b
        → Uses (suc (length ts)) (name_or_call arguments t b ts)
    go false e = left (omega arith)
    go true e =
        let shorter = length-skip_lt ts (check_nonempty TokenKind.l_paren ts e refl) in
        Uses-bind (ha (skip_token ts) shorter) λ args rest k. left (omega arith)
primary_of-Uses arguments inner TokenKind.l_paren t ts ha hi = Uses-bind hi λ e rest k.
    Uses-bind (expect-Uses TokenKind.r_paren "expected ')'" rest)
      λ close rest' k'. left (omega arith)
primary_of-Uses arguments inner _ t ts ha hi = failed

operand_of-Uses :
    (operand : ℕ → P Expr) (again : Expr → P Expr) (e : Expr) (o : Option (ℕ × BinaryOp))
    (ts : Tokens)
    → ((p : ℕ × BinaryOp) → o ≡ some p → 0 < length ts)
    → ((prec : ℕ) (us : Tokens) → length us < length ts → Uses (length us) (operand prec us))
    → ((e' : Expr) (us : Tokens) → length us < length ts → Uses (suc (length us)) (again e' us))
    → Uses (suc (length ts)) (operand_of operand again e o ts)
operand_of-Uses operand again e none ts some_left ho ha = left (omega arith)
operand_of-Uses operand again e (some (prec, op)) ts some_left ho ha =
    let shorter = length-skip_lt ts (some_left (prec, op) refl) in
    Uses-bind (ho prec (skip_token ts) shorter)
      λ right rest k. Uses-mono (ha (binary op e right) rest (omega arith)) (omega arith)

cast_or-Uses :
    (unary primary : P Expr) (o : Option ValueType) (ts : Tokens)
    → ((type : ValueType) → o ≡ some type → 0 < length ts)
    → ((us : Tokens) → length us < length ts → Uses (length us) (unary us))
    → Uses (length ts) (primary ts)
    → Uses (length ts) (cast_or unary primary o ts)
cast_or-Uses unary primary none ts some_left hu hp = hp
cast_or-Uses unary primary (some type) ts some_left hu hp =
    let one : length (skip_token ts) < length ts = length-skip_lt ts (some_left type refl) in
    let two : length (skip_token (skip_token ts)) < length ts =
      omega (arith, length-skip_token (skip_token ts)) in
    let three : length (skip_token (skip_token (skip_token ts))) < length ts =
      omega (arith, length-skip_token (skip_token (skip_token ts))) in
    Uses-bind (hu (skip_token (skip_token (skip_token ts))) three) λ e rest k. left (omega arith)

arguments_of-Uses :
    (more : P Args) (b : Bool) (ts : Tokens)
    → (b ≡ true → 0 < length ts)
    → Uses (length ts) (more ts)
    → Uses (length ts) (arguments_of more b ts)
arguments_of-Uses more true ts some_left h = left (length-skip_lt ts (some_left refl))
arguments_of-Uses more false ts some_left h = h

more_or_close-Uses :
    (more : P Args) (b : Bool) (ts : Tokens)
    → Uses (length ts) (more ts)
    → Uses (suc (length ts)) (more_or_close more b ts)
more_or_close-Uses more true ts h = Uses-mono h (omega arith)
more_or_close-Uses more false ts h =
    Uses-bind (expect-Uses TokenKind.r_paren "expected ')' to close call arguments" ts)
      λ close rest k. left (omega arith)

mutual
  unfolding parse_expression

  parse_expression-Uses :
      (f min : ℕ) (ts : Tokens)
      → 4 * length ts + 2 < f
      → Uses (length ts) (parse_expression f min ts)
  parse_expression-Uses zero min ts h = absurd (omega arith)
  parse_expression-Uses (suc f) min ts h =
      Uses-bind (parse_unary-Uses f ts (omega arith))
        λ e rest k. Uses-mono (operators-Uses f min e rest (omega arith)) (omega arith)

  operators-Uses :
      (f min : ℕ) (e : Expr) (ts : Tokens)
      → 4 * length ts < f
      → Uses (suc (length ts)) (operators f min e ts)
  operators-Uses zero min e ts h = absurd (omega arith)
  operators-Uses (suc f) min e ts h =
      operand_of-Uses (λ prec. parse_expression f (prec + 1)) (operators f min) e
        (next_operator min ts) ts (operator_nonempty min ts)
        (λ prec us k. parse_expression-Uses f (prec + 1) us (omega arith))
        (λ e' us k. operators-Uses f min e' us (omega arith))

  parse_unary-Uses :
      (f : ℕ) (ts : Tokens) → 4 * length ts + 1 < f → Uses (length ts) (parse_unary f ts)
  parse_unary-Uses zero ts h = absurd (omega arith)
  parse_unary-Uses (suc f) ts h =
      cast_or-Uses (parse_unary f) (parse_primary f) (cast_target ts) ts (cast_nonempty ts)
        (λ us k. parse_unary-Uses f us (omega arith)) (parse_primary-Uses f ts (omega arith))

  parse_primary-Uses :
      (f : ℕ) (ts : Tokens) → 4 * length ts < f → Uses (length ts) (parse_primary f ts)
  parse_primary-Uses zero ts h = absurd (omega arith)
  parse_primary-Uses (suc f) [] h = failed
  parse_primary-Uses (suc f) (t ∷ ts) h =
      primary_of-Uses (parse_arguments f) (parse_expression f 0) t.kind t ts
        (λ us k. parse_arguments-Uses f us (omega arith))
        (parse_expression-Uses f 0 ts (omega arith))

  parse_arguments-Uses :
      (f : ℕ) (ts : Tokens) → 4 * length ts + 4 < f → Uses (length ts) (parse_arguments f ts)
  parse_arguments-Uses zero ts h = absurd (omega arith)
  parse_arguments-Uses (suc f) ts h =
      arguments_of-Uses (parse_more f) (check TokenKind.r_paren ts) ts
        (λ e. check_nonempty TokenKind.r_paren ts e refl) (parse_more-Uses f ts (omega arith))

  parse_more-Uses :
      (f : ℕ) (ts : Tokens) → 4 * length ts + 3 < f → Uses (length ts) (parse_more f ts)
  parse_more-Uses zero ts h = absurd (omega arith)
  parse_more-Uses (suc f) ts h = Uses-bind (parse_expression-Uses f 0 ts (omega arith)) λ e rest k.
      Uses-bind (match_kind-Uses TokenKind.comma rest) λ comma rest' k'.
        Uses-bind
          (more_or_close-Uses (parse_more f) comma rest' (parse_more-Uses f rest' (omega arith)))
          λ args rest'' k''. left (omega arith)

-- The fuel that `expression` hands out is enough for every list of tokens: it ends with an error, or
-- with an expression that took one token at least.
pub expression-Uses : (ts : Tokens) → Uses (length ts) (expression ts)
unfolding expression
expression-Uses ts = parse_expression-Uses (4 * length ts + 4) 0 ts (omega arith)
