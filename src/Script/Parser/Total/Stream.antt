-- ===== src/Script/Parser/Total/Stream.antt =====
-- A parser leaves an end of its tokens, so a stream of tokens stays one.
use Prim.Native.String.{String}
use homeworldz.Common.{ℕ, zero, suc, ◌+◌, Bool, true, false, Option, none, some, [], ◌∷◌, if_both}
use homeworldz.Script.Bytecode.{ValueType}
use homeworldz.Script.Ast.{BinaryOp, Expr, Args, binary}
use homeworldz.Script.Lexer.Token.{TokenKind, Token, kind_eq}
use homeworldz.Script.Lexer.Total.{IsStream}
use homeworldz.Script.Parser.State.{
  Tokens, Parsed, parsed, syntax_error, out_of_fuel, P, and_then, typed, check, advance, expect,
  match_kind, type_keyword, type_of_kind,
}
use homeworldz.Script.Parser.Expression.{
  next_operator, cast_target, parse_expression, operators, parse_unary, parse_primary,
  parse_arguments, parse_more, primary_of, operand_of, cast_or, arguments_of, more_or_close,
  name_or_call, expression, skip_token,
}

-- The end of a stream of tokens: nothing, or a stream.
abbrev pub Tail : Tokens → Type 0
Tail [] = Unit {0}
Tail (t ∷ ts) = IsStream (t ∷ ts)

pub Tail-next : (t : Token) (ts : Tokens) → Tail (t ∷ ts) → Tail ts
Tail-next t [] h = tt
Tail-next t (u ∷ ts) h = h.1

Tail-skip_token : (ts : Tokens) → Tail ts → Tail (skip_token ts)
Tail-skip_token [] h = tt
Tail-skip_token (t ∷ ts) h = Tail-next t ts h

-- What a parser leaves, if it succeeds, is the end of a stream.
abbrev pub LeavesTail : {A : Type 0} → Parsed A → Type 0
LeavesTail (parsed a rest) = Tail rest
LeavesTail (syntax_error e line) = Unit {0}
LeavesTail out_of_fuel = Unit {0}

-- A parser that leaves the end of a stream of every end of a stream.
abbrev pub Keeps : {A : Type 0} → P A → Type 0
Keeps p = (ts : Tokens) → Tail ts → LeavesTail (p ts)

pub bind-LeavesTail :
    {A B : Type 0} (r : Parsed A) (f : A → P B)
    → LeavesTail r
    → ((a : A) → Keeps (f a))
    → LeavesTail (and_then r f)
bind-LeavesTail (parsed a rest) f h k = k a rest h
bind-LeavesTail (syntax_error e line) f h k = tt
bind-LeavesTail out_of_fuel f h k = tt

pub advance-Keeps : Keeps advance
unfolding advance
advance-Keeps [] h = tt
advance-Keeps (t ∷ ts) h = Tail-next t ts h

pub expect-Keeps : (kind : TokenKind) (e : String) → Keeps (expect kind e)
unfolding expect
expect-Keeps kind e ts h = if_both LeavesTail (check kind ts) (λ _. advance-Keeps ts h) λ _. tt

pub match_kind-Keeps : (kind : TokenKind) → Keeps (match_kind kind)
unfolding match_kind
match_kind-Keeps kind [] h = tt
match_kind-Keeps kind (t ∷ ts) h =
    if_both LeavesTail (kind_eq t.kind kind) (λ _. Tail-next t ts h) λ _. h

pub type_keyword-Keeps : Keeps type_keyword
unfolding type_keyword
type_keyword-Keeps [] h = tt
type_keyword-Keeps (t ∷ ts) h = of (type_of_kind t.kind)
  where
    of : (o : Option ValueType) → LeavesTail (typed o t ts)
    of none = tt
    of (some type) = Tail-next t ts h

primary_of-Keeps :
    (arguments : P Args) (inner : P Expr) (kind : TokenKind) (t : Token)
    → Keeps arguments
    → Keeps inner
    → Keeps (primary_of arguments inner kind t)
primary_of-Keeps arguments inner TokenKind.int_literal t ka ki ts h = h
primary_of-Keeps arguments inner TokenKind.string_literal t ka ki ts h = h
primary_of-Keeps arguments inner TokenKind.identifier t ka ki ts h = go (check TokenKind.l_paren ts)
  where
    go : (b : Bool) → LeavesTail (name_or_call arguments t b ts)
    go false = h
    go true =
        bind-LeavesTail (arguments (skip_token ts)) _ (ka (skip_token ts) (Tail-skip_token ts h))
          λ args rest k. k
primary_of-Keeps arguments inner TokenKind.l_paren t ka ki ts h =
    bind-LeavesTail (inner ts) _ (ki ts h) λ e rest k.
      bind-LeavesTail (expect TokenKind.r_paren "expected ')'" rest) _
        (expect-Keeps TokenKind.r_paren "expected ')'" rest k) λ _ rest' k'. k'
primary_of-Keeps arguments inner _ t ka ki ts h = tt

operand_of-Keeps :
    (operand : ℕ → P Expr) (again : Expr → P Expr) (e : Expr) (o : Option (ℕ × BinaryOp))
    → ((prec : ℕ) → Keeps (operand prec))
    → ((e' : Expr) → Keeps (again e'))
    → Keeps (operand_of operand again e o)
operand_of-Keeps operand again e none ko ka ts h = h
operand_of-Keeps operand again e (some (prec, op)) ko ka ts h =
    bind-LeavesTail (operand prec (skip_token ts)) _
      (ko prec (skip_token ts) (Tail-skip_token ts h)) λ right. ka (binary op e right)

cast_or-Keeps :
    (unary primary : P Expr) (o : Option ValueType)
    → Keeps unary
    → Keeps primary
    → Keeps (cast_or unary primary o)
cast_or-Keeps unary primary none ku kp ts h = kp ts h
cast_or-Keeps unary primary (some type) ku kp ts h =
    let third = skip_token (skip_token (skip_token ts)) in
    bind-LeavesTail (unary third) _
      (ku third (
        Tail-skip_token (skip_token (skip_token ts))
          (Tail-skip_token (skip_token ts) (Tail-skip_token ts h))))
      λ e rest k. k

arguments_of-Keeps : (more : P Args) (b : Bool) → Keeps more → Keeps (arguments_of more b)
arguments_of-Keeps more true k ts h = Tail-skip_token ts h
arguments_of-Keeps more false k ts h = k ts h

more_or_close-Keeps : (more : P Args) (b : Bool) → Keeps more → Keeps (more_or_close more b)
more_or_close-Keeps more true k ts h = k ts h
more_or_close-Keeps more false k ts h =
    bind-LeavesTail (expect TokenKind.r_paren "expected ')' to close call arguments" ts) _
      (expect-Keeps TokenKind.r_paren "expected ')' to close call arguments" ts h) λ _ rest k'. k'

mutual
  unfolding parse_expression

  parse_expression-Keeps : (f min : ℕ) → Keeps (parse_expression f min)
  parse_expression-Keeps zero min ts h = tt
  parse_expression-Keeps (suc f) min ts h =
      bind-LeavesTail (parse_unary f ts) _ (parse_unary-Keeps f ts h) λ e. operators-Keeps f min e

  operators-Keeps : (f min : ℕ) (e : Expr) → Keeps (operators f min e)
  operators-Keeps zero min e ts h = tt
  operators-Keeps (suc f) min e ts h =
      operand_of-Keeps (λ prec. parse_expression f (prec + 1)) (operators f min) e
        (next_operator min ts) (λ prec. parse_expression-Keeps f (prec + 1))
        (λ e'. operators-Keeps f min e') ts h

  parse_unary-Keeps : (f : ℕ) → Keeps (parse_unary f)
  parse_unary-Keeps zero ts h = tt
  parse_unary-Keeps (suc f) ts h =
      cast_or-Keeps (parse_unary f) (parse_primary f) (cast_target ts) (parse_unary-Keeps f)
        (parse_primary-Keeps f) ts h

  parse_primary-Keeps : (f : ℕ) → Keeps (parse_primary f)
  parse_primary-Keeps zero ts h = tt
  parse_primary-Keeps (suc f) [] h = tt
  parse_primary-Keeps (suc f) (t ∷ ts) h =
      primary_of-Keeps (parse_arguments f) (parse_expression f 0) t.kind t (parse_arguments-Keeps f)
        (parse_expression-Keeps f 0) ts (Tail-next t ts h)

  parse_arguments-Keeps : (f : ℕ) → Keeps (parse_arguments f)
  parse_arguments-Keeps zero ts h = tt
  parse_arguments-Keeps (suc f) ts h =
      arguments_of-Keeps (parse_more f) (check TokenKind.r_paren ts) (parse_more-Keeps f) ts h

  parse_more-Keeps : (f : ℕ) → Keeps (parse_more f)
  parse_more-Keeps zero ts h = tt
  parse_more-Keeps (suc f) ts h =
      bind-LeavesTail (parse_expression f 0 ts) _ (parse_expression-Keeps f 0 ts h) λ e rest k.
        bind-LeavesTail (match_kind TokenKind.comma rest) _
          (match_kind-Keeps TokenKind.comma rest k)
          λ comma rest' k'.
            bind-LeavesTail (more_or_close (parse_more f) comma rest') _
              (more_or_close-Keeps (parse_more f) comma (parse_more-Keeps f) rest' k')
              λ args rest'' k''. k''

pub expression-Keeps : Keeps expression
unfolding expression
expression-Keeps ts h = parse_expression-Keeps _ 0 ts h
