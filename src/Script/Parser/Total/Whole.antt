-- ===== src/Script/Parser/Total/Whole.antt =====
-- A script that is accepted was read to its end token.
use Prim.Native.String.{String}
use homeworldz.Common.{ℕ, true, List, [], ◌∷◌, ◌≡◌, ◌≢◌, refl, arith, if_both}
use homeworldz.Common.Bytes.{Bytes}
use homeworldz.Script.Ast.{EventHandler, GlobalVar, ScriptTree}
use homeworldz.Script.Lexer.Token.{TokenKind, kind_eq}
use homeworldz.Script.Lexer.Scan.{Lexed, tokens, lex_error, tokenize}
use homeworldz.Script.Lexer.Total.{IsStream, Ended, tokenize-Ended}
use homeworldz.Script.Parser.State.{
  Tokens, Parsed, parsed, syntax_error, out_of_fuel, P, and_then, check, advance, expect,
}
use homeworldz.Script.Parser.Statement.{
  parse_globals, parse_events, require_events, parse_script, script_fuel, ParseResult, lexical,
  syntactic, stuck, parse_lexed, parse,
}
use homeworldz.Script.Parser.Total.Uses.{Uses-ne-out_of_fuel}
use homeworldz.Script.Parser.Total.Scripts.{parse_script-Uses}
use homeworldz.Script.Parser.Total.Kept.{globals-Keeps, events-Keeps}
use homeworldz.Script.Parser.Total.Stream.{Tail, LeavesTail, expect-Keeps}

is_end : (kind : TokenKind) → kind_eq kind TokenKind.end ≡ true → kind ≡ TokenKind.end
is_end TokenKind.end h = refl
is_end _ h = absurd (ground (arith, h))

-- A parse that succeeded left no token, and an expected end token is the last one of a stream.
abbrev LeavesNone : {A : Type 0} → Parsed A → Type 0
LeavesNone (parsed a rest) = rest ≡ []
LeavesNone (syntax_error e line) = Unit {0}
LeavesNone out_of_fuel = Unit {0}

expect-end : (e : String) (ts : Tokens) → Tail ts → LeavesNone (expect TokenKind.end e ts)
unfolding expect advance
expect-end e [] h = refl
expect-end e (t ∷ []) h = if_both LeavesNone (check TokenKind.end (t ∷ [])) (λ _. refl) λ _. tt
expect-end e (t ∷ (u ∷ ts)) h =
    if_both LeavesNone (check TokenKind.end (t ∷ (u ∷ ts))) (λ q. absurd (h.0.1 (is_end t.kind q)))
      λ _. tt

-- The end of a text's parse: an error with its place, or a script with an event handler, of which no
-- token is left.
abbrev pub ReadWhole : ParseResult → Type 0
ReadWhole (lexical e line column) = Unit {0}
ReadWhole (syntactic (parsed script rest)) = (rest ≡ []) × (script.events ≢ [])
ReadWhole (syntactic (syntax_error e line)) = Unit {0}
ReadWhole (syntactic out_of_fuel) = ⊥
ReadWhole stuck = ⊥

-- What the parser of a script may come to.
abbrev WholeOrNone : Parsed ScriptTree → Type 0
WholeOrNone (parsed script rest) = (rest ≡ []) × (script.events ≢ [])
WholeOrNone (syntax_error e line) = Unit {0}
WholeOrNone out_of_fuel = Unit {0}

require_events-Whole :
    (gs : List GlobalVar) (es : List EventHandler) (ts : Tokens)
    → ts ≡ []
    → WholeOrNone (require_events gs es ts)
require_events-Whole gs [] ts h = tt
require_events-Whole gs (e ∷ es) ts h = (h, λ k. cc)

-- One parser, of which only the end of the stream is asked, and then the rest.
then-Whole :
    {A : Type 0} (r : Parsed A) (f : A → P ScriptTree)
    → LeavesTail r
    → ((a : A) (ts : Tokens) → Tail ts → WholeOrNone (f a ts))
    → WholeOrNone (and_then r f)
then-Whole (parsed a rest) f h k = k a rest h
then-Whole (syntax_error e line) f h k = tt
then-Whole out_of_fuel f h k = tt

end-Whole :
    {A : Type 0} (r : Parsed A) (f : A → P ScriptTree)
    → LeavesNone r
    → ((a : A) (ts : Tokens) → ts ≡ [] → WholeOrNone (f a ts))
    → WholeOrNone (and_then r f)
end-Whole (parsed a rest) f h k = k a rest h
end-Whole (syntax_error e line) f h k = tt
end-Whole out_of_fuel f h k = tt

script-Whole : (f : ℕ) (ts : Tokens) → Tail ts → WholeOrNone (parse_script f ts)
unfolding parse_script
script-Whole f ts h = then-Whole (parse_globals f ts) _ (globals-Keeps f ts h) λ gs a ka.
    then-Whole (expect TokenKind.kw_default _ a) _ (expect-Keeps TokenKind.kw_default _ a ka)
      λ _ b kb.
        then-Whole (expect TokenKind.l_brace _ b) _ (expect-Keeps TokenKind.l_brace _ b kb)
          λ _ c kc. then-Whole (parse_events f c) _ (events-Keeps f c kc) λ es d kd.
            then-Whole (expect TokenKind.r_brace _ d) _ (expect-Keeps TokenKind.r_brace _ d kd)
              λ _ e ke.
                end-Whole (expect TokenKind.end _ e) _ (expect-end _ e ke)
                  λ _. require_events-Whole gs es

ended-ReadWhole :
    (r : Parsed ScriptTree) → r ≢ out_of_fuel → WholeOrNone r → ReadWhole (syntactic r)
ended-ReadWhole (parsed script rest) h w = w
ended-ReadWhole (syntax_error e line) h w = tt
ended-ReadWhole out_of_fuel h w = h refl

stream-Tail : (ts : Tokens) → IsStream ts → Tail ts
stream-Tail [] h = tt
stream-Tail (t ∷ ts) h = h

parse_lexed-ReadWhole : (r : Lexed) → Ended r → ReadWhole (parse_lexed r)
unfolding parse_lexed
parse_lexed-ReadWhole (tokens ts) h =
    ended-ReadWhole (parse_script (script_fuel ts) ts) (Uses-ne-out_of_fuel (parse_script-Uses ts))
      (script-Whole (script_fuel ts) ts (stream-Tail ts h))
parse_lexed-ReadWhole (lex_error e line column) h = tt
parse_lexed-ReadWhole Lexed.out_of_fuel h = h

-- On every text the parse comes to an end: with a lexical error at a line and a column, with a syntax
-- error, or with a script that has an event handler, and then no token of the text is left, not even
-- the end token.
pub parse-ReadWhole : (source : Bytes) → ReadWhole (parse source)
unfolding parse
parse-ReadWhole source = parse_lexed-ReadWhole (tokenize source) (tokenize-Ended source)
