-- ===== src/Script/Parser/State.antt =====
-- The token cursor of `Parser` in script/src/parser.cpp: `pos_` is the list of the tokens that are
-- left, and a `ScriptError` ends the parse.
use Prim.Native.String.{String}
use homeworldz.Common.{
  ℕ, zero, suc, Bool, true, false, Option, none, some, List, [], ◌∷◌, if◌then◌else◌,
}
use homeworldz.Script.Bytecode.{ValueType, integer, string}
use homeworldz.Script.Lexer.Token.{TokenKind, Token, kind_eq}

abbrev pub Tokens : Type 0
Tokens = List Token

-- A value and the tokens left; the message of a `ScriptError`, with the line that it names if it
-- names one; `out_of_fuel` is no result of the program.
pub data Parsed (A : Type 0) : Type 0 where
  parsed : A → Tokens → Parsed A
  syntax_error : String → Option ℕ → Parsed A
  out_of_fuel : Parsed A

abbrev pub P : Type 0 → Type 0
P A = Tokens → Parsed A

abbrev pub and_then : {A B : Type 0} → Parsed A → (A → P B) → Parsed B
and_then (parsed a rest) f = f a rest
and_then (syntax_error e line) f = syntax_error e line
and_then out_of_fuel f = out_of_fuel

infixl 5 ◌>>=◌ ◌>>◌
abbrev pub ◌>>=◌ : {A B : Type 0} → P A → (A → P B) → P B
◌>>=◌ m f ts = and_then (m ts) f

abbrev pub ◌>>◌ : {A B : Type 0} → P A → P B → P B
m >> k = m >>= λ _. k

abbrev pub give : {A : Type 0} → A → P A
give a ts = parsed a ts

-- `peek(n).kind`: past the end stands the end token, on which every token list ends.
abbrev pub peek : ℕ → Tokens → TokenKind
peek n [] = TokenKind.end
peek zero (t ∷ ts) = t.kind
peek (suc n) (t ∷ ts) = peek n ts

abbrev pub peek_line : Tokens → ℕ
peek_line [] = 0
peek_line (t ∷ ts) = t.line

abbrev pub check : TokenKind → Tokens → Bool
check kind ts = kind_eq (peek 0 ts) kind

abbrev pub end_token : Token
end_token = record { kind = TokenKind.end; text = []; integer = 0; line = 0 }

-- `advance`
unfoldable pub advance : P Token
advance [] = parsed end_token []
advance (t ∷ ts) = parsed t ts

-- An error that names the line of the next token.
abbrev pub fail_here : {A : Type 0} → String → P A
fail_here message ts = syntax_error message (some (peek_line ts))

unfoldable pub expect : TokenKind → String → P Token
expect kind message ts = if check kind ts then advance ts else fail_here message ts

-- `match`: whether the next token is of the kind, and if it is, past it.
unfoldable pub match_kind : TokenKind → P Bool
match_kind kind [] = parsed (check kind []) []
match_kind kind (t ∷ ts) = if kind_eq t.kind kind then parsed true ts else parsed false (t ∷ ts)

-- A type keyword.
abbrev pub type_of_kind : TokenKind → Option ValueType
type_of_kind TokenKind.kw_integer = some integer
type_of_kind TokenKind.kw_string = some string
type_of_kind _ = none

abbrev pub typed : Option ValueType → Token → P ValueType
typed (some type) t ts = parsed type ts
typed none t ts = fail_here "expected a type" (t ∷ ts)

unfoldable pub type_keyword : P ValueType
type_keyword [] = fail_here "expected a type" []
type_keyword (t ∷ ts) = typed (type_of_kind t.kind) t ts
