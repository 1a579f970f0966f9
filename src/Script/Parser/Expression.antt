-- ===== src/Script/Parser/Expression.antt =====
-- The expressions of script/src/parser.cpp, by precedence climbing. A call of the parser's own
-- functions takes a unit of fuel.
use homeworldz.Common.{
  ℕ, zero, suc, ◌+◌, ◌*◌, Bool, true, false, Option, none, some, [], ◌∷◌, ◌&&◌, ltb, if◌then◌else◌,
  length,
}
use homeworldz.Common.Int.{pos}
use homeworldz.Script.Bytecode.{ValueType}
use homeworldz.Script.Ast.{
  BinaryOp, Expr, int_literal, string_literal, var_ref, binary, cast, call, Args, no_args, arg,
}
use homeworldz.Script.Lexer.Token.{TokenKind, Token, kind_eq}
use homeworldz.Script.Parser.State.{
  Tokens, parsed, out_of_fuel, P, ◌>>=◌, ◌>>◌, give, peek, check, fail_here, expect, match_kind,
  type_of_kind,
}

-- `binary_precedence` and `binary_op_of` in one table; `none` is the precedence -1.
abbrev pub binary_operator : TokenKind → Option (ℕ × BinaryOp)
binary_operator TokenKind.equal_equal = some (1, BinaryOp.equal)
binary_operator TokenKind.less = some (2, BinaryOp.less)
binary_operator TokenKind.greater = some (2, BinaryOp.greater)
binary_operator TokenKind.plus = some (3, BinaryOp.add)
binary_operator TokenKind.minus = some (3, BinaryOp.sub)
binary_operator TokenKind.star = some (4, BinaryOp.mul)
binary_operator _ = none

-- The operator that the loop of `parse_expression` goes on with.
abbrev pub reaching : ℕ → Option (ℕ × BinaryOp) → Option (ℕ × BinaryOp)
reaching min none = none
reaching min (some (prec, op)) = if ltb prec min then none else some (prec, op)

abbrev pub next_operator : ℕ → Tokens → Option (ℕ × BinaryOp)
next_operator min ts = reaching min (binary_operator (peek 0 ts))

-- The lookahead of `parse_unary` for a cast, with its target.
abbrev pub cast_target : Tokens → Option ValueType
cast_target ts =
    if check TokenKind.l_paren ts && kind_eq (peek 2 ts) TokenKind.r_paren
    then type_of_kind (peek 1 ts)
    else none

abbrev pub skip_token : Tokens → Tokens
skip_token [] = []
skip_token (t ∷ ts) = ts

-- An identifier, with the parser of a call's arguments if a '(' follows it.
abbrev pub name_or_call : P Args → Token → Bool → P Expr
name_or_call arguments t true ts = (arguments >>= λ args. give (call t.text args)) (skip_token ts)
name_or_call arguments t false ts = parsed (var_ref t.text) ts

-- `parse_primary` on the token `t` by its kind, over the parsers of what may stand inside.
abbrev pub primary_of : P Args → P Expr → TokenKind → Token → P Expr
primary_of arguments inner TokenKind.int_literal t ts = parsed (int_literal (pos t.integer)) ts
primary_of arguments inner TokenKind.string_literal t ts = parsed (string_literal t.text) ts
primary_of arguments inner TokenKind.identifier t ts =
    name_or_call arguments t (check TokenKind.l_paren ts) ts
primary_of arguments inner TokenKind.l_paren t ts =
    (do e ← inner; expect TokenKind.r_paren "expected ')'"; give e) ts
primary_of arguments inner _ t ts = fail_here "expected an expression" (t ∷ ts)

-- The loop's body: the right operand and the loop again, or the end of the loop.
abbrev pub operand_of : (ℕ → P Expr) → (Expr → P Expr) → Expr → Option (ℕ × BinaryOp) → P Expr
operand_of operand again left none ts = parsed left ts
operand_of operand again left (some (prec, op)) ts =
    (operand prec >>= λ right. again (binary op left right)) (skip_token ts)

-- `parse_unary` by the lookahead: a cast of a unary, or a primary.
abbrev pub cast_or : P Expr → P Expr → Option ValueType → P Expr
cast_or unary primary none ts = primary ts
cast_or unary primary (some target) ts =
    (unary >>= λ e. give (cast target e)) (skip_token (skip_token (skip_token ts)))

abbrev pub arguments_of : P Args → Bool → P Args
arguments_of more true ts = parsed no_args (skip_token ts)
arguments_of more false ts = more ts

abbrev pub more_or_close : P Args → Bool → P Args
more_or_close more true = more
more_or_close more false = do
  expect TokenKind.r_paren "expected ')' to close call arguments"
  give no_args

unfoldable mutual
  pub parse_expression : ℕ → ℕ → P Expr
  parse_expression zero min ts = out_of_fuel
  parse_expression (suc f) min ts = (parse_unary f >>= λ left. operators f min left) ts

  -- The loop of `parse_expression`.
  pub operators : ℕ → ℕ → Expr → P Expr
  operators zero min left ts = out_of_fuel
  operators (suc f) min left ts =
      operand_of (λ prec. parse_expression f (prec + 1)) (operators f min) left
        (next_operator min ts) ts

  pub parse_unary : ℕ → P Expr
  parse_unary zero ts = out_of_fuel
  parse_unary (suc f) ts = cast_or (parse_unary f) (parse_primary f) (cast_target ts) ts

  pub parse_primary : ℕ → P Expr
  parse_primary zero ts = out_of_fuel
  parse_primary (suc f) [] = fail_here "expected an expression" []
  parse_primary (suc f) (t ∷ ts) = primary_of (parse_arguments f) (parse_expression f 0) t.kind t ts

  -- A call's arguments behind its '(', up to its ')'.
  pub parse_arguments : ℕ → P Args
  parse_arguments zero ts = out_of_fuel
  parse_arguments (suc f) ts = arguments_of (parse_more f) (check TokenKind.r_paren ts) ts

  -- An argument, and those behind it.
  pub parse_more : ℕ → P Args
  parse_more zero ts = out_of_fuel
  parse_more (suc f) ts =
      (do
        e ← parse_expression f 0
        comma ← match_kind TokenKind.comma
        rest ← more_or_close (parse_more f) comma
        give (arg e rest))
        ts

-- The fuel with which statements call `parse_expression(0)`.
unfoldable pub expression : P Expr
expression ts = parse_expression (4 * length ts + 4) 0 ts
