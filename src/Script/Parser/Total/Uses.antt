-- ===== src/Script/Parser/Total/Uses.antt =====
-- What a parser leaves of its tokens.
use Prim.Native.String.{String}
use homeworldz.Common.{
  ℕ, suc, ◌≤◌, ◌<◌, ◌≡◌, ◌≢◌, false, Option, none, some, arith, length, [], ◌∷◌, if_both,
}
use homeworldz.Script.Lexer.Token.{TokenKind, Token, kind_eq}
use homeworldz.Script.Bytecode.{ValueType}
use homeworldz.Script.Parser.State.{
  Tokens, Parsed, parsed, syntax_error, out_of_fuel, P, and_then, typed, check, advance, expect,
  match_kind, type_keyword, type_of_kind,
}

-- The parser ended: with fewer than `n` tokens left, or with an error.
pub data Uses {A : Type 0} (n : ℕ) : Parsed A → Type 0 where
  left : {a : A} {rest : Tokens} → length rest < n → Uses n (parsed a rest)
  failed : {e : String} {line : Option ℕ} → Uses n (syntax_error e line)

pub Uses-ne-out_of_fuel : {A : Type 0} {n : ℕ} {r : Parsed A} → Uses n r → r ≢ out_of_fuel
Uses-ne-out_of_fuel (left h) = λ e. cc
Uses-ne-out_of_fuel failed = λ e. cc

pub Uses-mono : {A : Type 0} {m n : ℕ} {r : Parsed A} → Uses m r → m ≤ n → Uses n r
Uses-mono (left h) k = left (omega arith)
Uses-mono failed k = failed

pub Uses-bind :
    {A B : Type 0} {m n : ℕ} {r : Parsed A} {f : A → P B}
    → Uses m r
    → ((a : A) (rest : Tokens) → length rest < m → Uses n (f a rest))
    → Uses n (and_then r f)
Uses-bind (left {a} {rest} h) k = k a rest h
Uses-bind failed k = failed

pub advance-Uses : (ts : Tokens) → Uses (suc (length ts)) (advance ts)
unfolding advance
advance-Uses [] = left (omega arith)
advance-Uses (t ∷ ts) = left (omega arith)

pub expect-Uses :
    (kind : TokenKind) (e : String) (ts : Tokens) → Uses (suc (length ts)) (expect kind e ts)
unfolding expect
expect-Uses kind e ts = if_both (Uses _) (check kind ts) (λ _. advance-Uses ts) λ _. failed

-- A token other than the end is really taken.
pub expect-takes :
    (kind : TokenKind) (e : String) (ts : Tokens)
    → kind_eq TokenKind.end kind ≡ false
    → Uses (length ts) (expect kind e ts)
unfolding expect advance
expect-takes kind e [] h = rw h failed
expect-takes kind e (t ∷ ts) h =
    if_both (Uses _) (check kind (t ∷ ts)) (λ _. left (omega arith)) λ _. failed

pub match_kind-Uses : (kind : TokenKind) (ts : Tokens) → Uses (suc (length ts)) (match_kind kind ts)
unfolding match_kind
match_kind-Uses kind [] = left (omega arith)
match_kind-Uses kind (t ∷ ts) =
    if_both (Uses _) (kind_eq t.kind kind) (λ _. left (omega arith)) λ _. left (omega arith)

type_of-Uses :
    (o : Option ValueType) (t : Token) (ts : Tokens) → Uses (suc (length ts)) (typed o t ts)
type_of-Uses none t ts = failed
type_of-Uses (some type) t ts = left (omega arith)

pub type_keyword-Uses : (ts : Tokens) → Uses (length ts) (type_keyword ts)
unfolding type_keyword
type_keyword-Uses [] = failed
type_keyword-Uses (t ∷ ts) = type_of-Uses (type_of_kind t.kind) t ts
