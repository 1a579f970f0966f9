-- ===== src/Script/Parser/Total/Scripts.antt =====
-- Statements, handlers and the script: three units of fuel for each token, and three more.
use homeworldz.Common.{
  ℕ, zero, suc, ◌+◌, ◌*◌, ◌≤◌, ◌<◌, refl, Bool, true, false, Option, none, some, arith, length, [],
  ◌∷◌, List, if_both, ◌||◌,
}
use homeworldz.Common.Bytes.{Bytes}
use homeworldz.Script.Bytecode.{ValueType, integer, string}
use homeworldz.Script.Ast.{Expr, Stmt, Stmts, Param, EventHandler, GlobalVar}
use homeworldz.Script.Lexer.Token.{TokenKind, Token}
use homeworldz.Script.Parser.State.{Tokens, P, check}
use homeworldz.Script.Parser.Statement.{
  initializer, parse_var_decl, parse_while_condition, parse_if_condition, parse_assign,
  parse_expr_stmt, StatementKind, is_decl, is_while, is_if, is_block, is_assign, is_expr,
  statement_kind, at_close, else_block, close_if, statement_of, statements_of, parse_statement,
  parse_block, parse_statements, init_of, global_value, parse_global, if_comma, parse_params,
  parse_event_handler, globals_of, parse_globals, events_of, parse_events, require_events,
  parse_script, script_fuel,
}
use homeworldz.Script.Parser.Total.Uses.{
  Uses, left, failed, Uses-bind, Uses-mono, advance-Uses, expect-Uses, expect-takes,
  match_kind-Uses, type_keyword-Uses,
}
use homeworldz.Script.Parser.Total.Expressions.{expression-Uses}

initializer-Uses : (b : Bool) (ts : Tokens) → Uses (suc (length ts)) (initializer b ts)
initializer-Uses false ts = left (omega arith)
initializer-Uses true ts = Uses-bind (expression-Uses ts) λ e rest k. left (omega arith)

var_decl-Uses : (ts : Tokens) → Uses (length ts) (parse_var_decl ts)
unfolding parse_var_decl
var_decl-Uses ts = Uses-bind (type_keyword-Uses ts) λ type a ka.
    Uses-bind (expect-Uses TokenKind.identifier _ a) λ name b kb.
      Uses-bind (match_kind-Uses TokenKind.assign b) λ assigned c kc.
        Uses-bind (initializer-Uses assigned c)
          λ init d kd. Uses-bind (expect-Uses TokenKind.semicolon _ d) λ _ e ke. left (omega arith)

while_condition-Uses : (ts : Tokens) → Uses (length ts) (parse_while_condition ts)
unfolding parse_while_condition
while_condition-Uses ts = Uses-bind (advance-Uses ts) λ _ a ka.
    Uses-bind (expect-Uses TokenKind.l_paren _ a) λ _ b kb.
      Uses-bind (expression-Uses b)
        λ condition c kc. Uses-bind (expect-Uses TokenKind.r_paren _ c) λ _ d kd. left (omega arith)

if_condition-Uses : (ts : Tokens) → Uses (length ts) (parse_if_condition ts)
unfolding parse_if_condition
if_condition-Uses ts = Uses-bind (advance-Uses ts) λ _ a ka.
    Uses-bind (expect-Uses TokenKind.l_paren _ a) λ _ b kb.
      Uses-bind (expression-Uses b)
        λ condition c kc. Uses-bind (expect-Uses TokenKind.r_paren _ c) λ _ d kd. left (omega arith)

assign-Uses : (ts : Tokens) → Uses (length ts) (parse_assign ts)
unfolding parse_assign
assign-Uses ts = Uses-bind (advance-Uses ts) λ name a ka.
    Uses-bind (expect-Uses TokenKind.assign _ a) λ _ b kb.
      Uses-bind (expression-Uses b)
        λ value c kc. Uses-bind (expect-Uses TokenKind.semicolon _ c) λ _ d kd. left (omega arith)

expr_stmt-Uses : (ts : Tokens) → Uses (length ts) (parse_expr_stmt ts)
unfolding parse_expr_stmt
expr_stmt-Uses ts =
    Uses-bind (expression-Uses ts)
      λ e a ka. Uses-bind (expect-Uses TokenKind.semicolon _ a) λ _ b kb. left (omega arith)

else_block-Uses :
    (sub : P Stmts) (b : Bool) (ts : Tokens)
    → Uses (length ts) (sub ts)
    → Uses (suc (length ts)) (else_block sub b ts)
else_block-Uses sub true ts h = Uses-bind h λ e rest k. left (omega arith)
else_block-Uses sub false ts h = left (omega arith)

close_if-Uses :
    (condition : Expr) (t : Stmts) (e : Option Stmts) (ts : Tokens)
    → Uses (suc (length ts)) (close_if condition t e ts)
close_if-Uses condition t none ts = left (omega arith)
close_if-Uses condition t (some e) ts = left (omega arith)

statement_of-Uses :
    (sub : P Stmts) (kind : StatementKind) (ts : Tokens)
    → ((us : Tokens) → length us ≤ length ts → Uses (length us) (sub us))
    → Uses (length ts) (statement_of sub kind ts)
statement_of-Uses sub is_decl ts h = var_decl-Uses ts
statement_of-Uses sub is_while ts h =
    Uses-bind (while_condition-Uses ts)
      λ condition a ka. Uses-bind (h a (omega arith)) λ body b kb. left (omega arith)
statement_of-Uses sub is_if ts h = Uses-bind (if_condition-Uses ts) λ condition a ka.
    Uses-bind (h a (omega arith)) λ t b kb.
      Uses-bind (match_kind-Uses TokenKind.kw_else b) λ otherwise c kc.
        Uses-bind (else_block-Uses sub otherwise c (h c (omega arith)))
          λ e d kd. Uses-mono (close_if-Uses condition t e d) (omega arith)
statement_of-Uses sub is_block ts h = Uses-bind (h ts (omega arith)) λ ss a ka. left (omega arith)
statement_of-Uses sub is_assign ts h = assign-Uses ts
statement_of-Uses sub is_expr ts h = expr_stmt-Uses ts

statements_of-Uses :
    (first : P Stmt) (again : P Stmts) (b : Bool) (ts : Tokens)
    → Uses (length ts) (first ts)
    → ((us : Tokens) → length us < length ts → Uses (length us) (again us))
    → Uses (length ts) (statements_of first again b ts)
statements_of-Uses first again true ts hf ha =
    Uses-bind (expect-takes TokenKind.r_brace _ ts refl) λ _ a ka. left ka
statements_of-Uses first again false ts hf ha =
    Uses-bind hf λ s a ka. Uses-bind (ha a ka) λ rest b kb. left (omega arith)

mutual
  unfolding parse_statement

  statement-Uses :
      (f : ℕ) (ts : Tokens) → 3 * length ts + 1 < f → Uses (length ts) (parse_statement f ts)
  statement-Uses zero ts h = absurd (omega arith)
  statement-Uses (suc f) ts h =
      statement_of-Uses (parse_block f) (statement_kind ts) ts
        (λ us k. block-Uses f us (omega arith))

  block-Uses : (f : ℕ) (ts : Tokens) → 3 * length ts < f → Uses (length ts) (parse_block f ts)
  block-Uses zero ts h = absurd (omega arith)
  block-Uses (suc f) ts h =
      Uses-bind (expect-takes TokenKind.l_brace _ ts refl)
        λ _ a ka. Uses-mono (statements-Uses f a (omega arith)) (omega arith)

  statements-Uses :
      (f : ℕ) (ts : Tokens) → 3 * length ts + 2 < f → Uses (length ts) (parse_statements f ts)
  statements-Uses zero ts h = absurd (omega arith)
  statements-Uses (suc f) ts h =
      statements_of-Uses (parse_statement f) (parse_statements f) (at_close ts) ts
        (statement-Uses f ts (omega arith)) (λ us k. statements-Uses f us (omega arith))

init_of-Uses :
    (kind : TokenKind) (type : ValueType) (name : Bytes) (t : Token) (ts : Tokens)
    → Uses (suc (length ts)) (init_of kind type name t ts)
init_of-Uses TokenKind.int_literal integer name t ts = left (omega arith)
init_of-Uses TokenKind.int_literal _ name t ts = failed
init_of-Uses TokenKind.string_literal string name t ts = left (omega arith)
init_of-Uses TokenKind.string_literal _ name t ts = failed
init_of-Uses _ type name t ts = failed

global_value-Uses :
    (type : ValueType) (name : Bytes) (b : Bool) (ts : Tokens)
    → Uses (suc (length ts)) (global_value type name b ts)
global_value-Uses type name false ts = left (omega arith)
global_value-Uses type name true [] = failed
global_value-Uses type name true (t ∷ ts) =
    Uses-mono (init_of-Uses t.kind type name t ts) (omega arith)

global-Uses : (ts : Tokens) → Uses (length ts) (parse_global ts)
unfolding parse_global
global-Uses ts = Uses-bind (type_keyword-Uses ts) λ type a ka.
    Uses-bind (expect-Uses TokenKind.identifier _ a) λ name b kb.
      Uses-bind (match_kind-Uses TokenKind.assign b) λ assigned c kc.
        Uses-bind (global_value-Uses type name.text assigned c)
          λ g d kd. Uses-bind (expect-Uses TokenKind.semicolon _ d) λ _ e ke. left (omega arith)

globals_of-Uses :
    (again : P (List GlobalVar)) (b : Bool) (ts : Tokens)
    → ((us : Tokens) → length us < length ts → Uses (suc (length us)) (again us))
    → Uses (suc (length ts)) (globals_of again b ts)
globals_of-Uses again true ts h =
    Uses-bind (global-Uses ts) λ g a ka. Uses-bind (h a ka) λ gs b kb. left (omega arith)
globals_of-Uses again false ts h = left (omega arith)

globals-Uses : (f : ℕ) (ts : Tokens) → length ts < f → Uses (suc (length ts)) (parse_globals f ts)
unfolding parse_globals
globals-Uses zero ts h = absurd (omega arith)
globals-Uses (suc f) ts h =
    globals_of-Uses (parse_globals f)
      (check TokenKind.kw_integer ts || check TokenKind.kw_string ts) ts
      (λ us k. globals-Uses f us (omega arith))

if_comma-Uses :
    (again : P (List Param)) (b : Bool) (ts : Tokens)
    → Uses (suc (length ts)) (again ts)
    → Uses (suc (length ts)) (if_comma again b ts)
if_comma-Uses again true ts h = h
if_comma-Uses again false ts h = left (omega arith)

params-Uses : (f : ℕ) (ts : Tokens) → length ts < f → Uses (suc (length ts)) (parse_params f ts)
unfolding parse_params
params-Uses zero ts h = absurd (omega arith)
params-Uses (suc f) ts h = Uses-bind (type_keyword-Uses ts) λ type a ka.
    Uses-bind (expect-Uses TokenKind.identifier _ a) λ name b kb.
      Uses-bind (match_kind-Uses TokenKind.comma b) λ comma c kc.
        Uses-bind (if_comma-Uses (parse_params f) comma c (params-Uses f c (omega arith)))
          λ rest d kd. left (omega arith)

handler-Uses :
    (f : ℕ) (ts : Tokens) → 3 * length ts < f → Uses (length ts) (parse_event_handler f ts)
unfolding parse_event_handler
handler-Uses f ts h = Uses-bind (expect-takes TokenKind.identifier _ ts refl) λ name a ka.
    Uses-bind (expect-Uses TokenKind.l_paren _ a) λ _ b kb.
      Uses-bind
        (if_both (Uses (suc (length b))) (check TokenKind.r_paren b) (λ _. left (omega arith))
          λ _. params-Uses f b (omega arith))
        λ params c kc.
          Uses-bind (expect-Uses TokenKind.r_paren _ c)
            λ _ d kd. Uses-bind (block-Uses f d (omega arith)) λ body e ke. left (omega arith)

events_of-Uses :
    (handler : P EventHandler) (again : P (List EventHandler)) (b : Bool) (ts : Tokens)
    → Uses (length ts) (handler ts)
    → ((us : Tokens) → length us < length ts → Uses (suc (length us)) (again us))
    → Uses (suc (length ts)) (events_of handler again b ts)
events_of-Uses handler again true ts hh ha = left (omega arith)
events_of-Uses handler again false ts hh ha =
    Uses-bind hh λ e a ka. Uses-bind (ha a ka) λ es b kb. left (omega arith)

events-Uses :
    (f : ℕ) (ts : Tokens) → 3 * length ts + 1 < f → Uses (suc (length ts)) (parse_events f ts)
unfolding parse_events
events-Uses zero ts h = absurd (omega arith)
events-Uses (suc f) ts h =
    events_of-Uses (parse_event_handler f) (parse_events f) (at_close ts) ts
      (handler-Uses f ts (omega arith)) (λ us k. events-Uses f us (omega arith))

require_events-Uses :
    (gs : List GlobalVar) (es : List EventHandler) (ts : Tokens)
    → Uses (suc (length ts)) (require_events gs es ts)
require_events-Uses gs [] ts = failed
require_events-Uses gs (e ∷ es) ts = left (omega arith)

-- With the fuel that `parse` hands out the parser ends on every list of tokens, ill-formed ones
-- included: with an error or with a script, never for want of fuel.
pub parse_script-Uses : (ts : Tokens) → Uses (suc (length ts)) (parse_script (script_fuel ts) ts)
unfolding parse_script
parse_script-Uses ts = Uses-bind (globals-Uses (script_fuel ts) ts (omega arith)) λ gs a ka.
    Uses-bind (expect-Uses TokenKind.kw_default _ a) λ _ b kb.
      Uses-bind (expect-Uses TokenKind.l_brace _ b) λ _ c kc.
        Uses-bind (events-Uses (script_fuel ts) c (omega arith)) λ es d kd.
          Uses-bind (expect-Uses TokenKind.r_brace _ d) λ _ e ke.
            Uses-bind (expect-Uses TokenKind.end _ e)
              λ _ g kg. Uses-mono (require_events-Uses gs es g) (omega arith)
