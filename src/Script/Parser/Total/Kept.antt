-- ===== src/Script/Parser/Total/Kept.antt =====
-- Statements, handlers and globals leave an end of their tokens.
use homeworldz.Common.{
  ℕ, zero, suc, Bool, true, false, Option, none, some, List, [], ◌∷◌, ◌||◌, if_both,
}
use homeworldz.Common.Bytes.{Bytes}
use homeworldz.Script.Bytecode.{ValueType, integer, string}
use homeworldz.Script.Ast.{Expr, Stmt, Stmts, Param, EventHandler, GlobalVar}
use homeworldz.Script.Lexer.Token.{TokenKind, Token}
use homeworldz.Script.Parser.State.{P, and_then, check, advance, expect, match_kind, type_keyword}
use homeworldz.Script.Parser.Expression.{expression}
use homeworldz.Script.Parser.Statement.{
  initializer, parse_var_decl, parse_while_condition, parse_if_condition, parse_assign,
  parse_expr_stmt, StatementKind, is_decl, is_while, is_if, is_block, is_assign, is_expr,
  statement_kind, at_close, else_block, close_if, statement_of, statements_of, parse_statement,
  parse_block, parse_statements, init_of, global_value, parse_global, if_comma, params_of,
  parse_params, parse_event_handler, globals_of, parse_globals, events_of, parse_events,
}
use homeworldz.Script.Parser.Total.Stream.{
  Tail-next, LeavesTail, Keeps, bind-LeavesTail, advance-Keeps, expect-Keeps, match_kind-Keeps,
  type_keyword-Keeps, expression-Keeps,
}

-- A parser in a row with others.
then-Keeps :
    {A B : Type 0} (p : P A) (f : A → P B)
    → Keeps p
    → ((a : A) → Keeps (f a))
    → Keeps (λ ts. and_then (p ts) f)
then-Keeps p f kp kf ts h = bind-LeavesTail (p ts) f (kp ts h) kf

initializer-Keeps : (b : Bool) → Keeps (initializer b)
initializer-Keeps false ts h = h
initializer-Keeps true ts h = then-Keeps expression _ expression-Keeps (λ e ts h. h) ts h

var_decl-Keeps : Keeps parse_var_decl
unfolding parse_var_decl
var_decl-Keeps = then-Keeps type_keyword _ type_keyword-Keeps λ type.
    then-Keeps (expect TokenKind.identifier _) _ (expect-Keeps TokenKind.identifier _) λ name.
      then-Keeps (match_kind TokenKind.assign) _ (match_kind-Keeps TokenKind.assign) λ assigned.
        then-Keeps (initializer assigned) _ (initializer-Keeps assigned) λ init.
          then-Keeps (expect TokenKind.semicolon _) _ (expect-Keeps TokenKind.semicolon _)
            λ _ ts h. h

while_condition-Keeps : Keeps parse_while_condition
unfolding parse_while_condition
while_condition-Keeps = then-Keeps advance _ advance-Keeps λ _.
    then-Keeps (expect TokenKind.l_paren _) _ (expect-Keeps TokenKind.l_paren _) λ _.
      then-Keeps expression _ expression-Keeps λ condition.
        then-Keeps (expect TokenKind.r_paren _) _ (expect-Keeps TokenKind.r_paren _) λ _ ts h. h

if_condition-Keeps : Keeps parse_if_condition
unfolding parse_if_condition
if_condition-Keeps = then-Keeps advance _ advance-Keeps λ _.
    then-Keeps (expect TokenKind.l_paren _) _ (expect-Keeps TokenKind.l_paren _) λ _.
      then-Keeps expression _ expression-Keeps λ condition.
        then-Keeps (expect TokenKind.r_paren _) _ (expect-Keeps TokenKind.r_paren _) λ _ ts h. h

assign-Keeps : Keeps parse_assign
unfolding parse_assign
assign-Keeps = then-Keeps advance _ advance-Keeps λ name.
    then-Keeps (expect TokenKind.assign _) _ (expect-Keeps TokenKind.assign _) λ _.
      then-Keeps expression _ expression-Keeps λ value.
        then-Keeps (expect TokenKind.semicolon _) _ (expect-Keeps TokenKind.semicolon _) λ _ ts h. h

expr_stmt-Keeps : Keeps parse_expr_stmt
unfolding parse_expr_stmt
expr_stmt-Keeps = then-Keeps expression _ expression-Keeps λ e.
    then-Keeps (expect TokenKind.semicolon _) _ (expect-Keeps TokenKind.semicolon _) λ _ ts h. h

else_block-Keeps : (sub : P Stmts) (b : Bool) → Keeps sub → Keeps (else_block sub b)
else_block-Keeps sub true k = then-Keeps sub _ k λ e ts h. h
else_block-Keeps sub false k = λ ts h. h

close_if-Keeps : (condition : Expr) (t : Stmts) (e : Option Stmts) → Keeps (close_if condition t e)
close_if-Keeps condition t none ts h = h
close_if-Keeps condition t (some e) ts h = h

statement_of-Keeps :
    (sub : P Stmts) (kind : StatementKind) → Keeps sub → Keeps (statement_of sub kind)
statement_of-Keeps sub is_decl k = var_decl-Keeps
statement_of-Keeps sub is_while k =
    then-Keeps parse_while_condition _ while_condition-Keeps
      λ condition. then-Keeps sub _ k λ body ts h. h
statement_of-Keeps sub is_if k = then-Keeps parse_if_condition _ if_condition-Keeps λ condition.
    then-Keeps sub _ k λ t.
      then-Keeps (match_kind TokenKind.kw_else) _ (match_kind-Keeps TokenKind.kw_else) λ otherwise.
        then-Keeps (else_block sub otherwise) _ (else_block-Keeps sub otherwise k)
          λ e. close_if-Keeps condition t e
statement_of-Keeps sub is_block k = then-Keeps sub _ k λ ss ts h. h
statement_of-Keeps sub is_assign k = assign-Keeps
statement_of-Keeps sub is_expr k = expr_stmt-Keeps

statements_of-Keeps :
    (first : P Stmt) (again : P Stmts) (b : Bool)
    → Keeps first
    → Keeps again
    → Keeps (statements_of first again b)
statements_of-Keeps first again true kf ka =
    then-Keeps (expect TokenKind.r_brace _) _ (expect-Keeps TokenKind.r_brace _) λ _ ts h. h
statements_of-Keeps first again false kf ka =
    then-Keeps first _ kf λ s. then-Keeps again _ ka λ rest ts h. h

mutual
  unfolding parse_statement

  statement-Keeps : (f : ℕ) → Keeps (parse_statement f)
  statement-Keeps zero ts h = tt
  statement-Keeps (suc f) ts h =
      statement_of-Keeps (parse_block f) (statement_kind ts) (block-Keeps f) ts h

  block-Keeps : (f : ℕ) → Keeps (parse_block f)
  block-Keeps zero ts h = tt
  block-Keeps (suc f) ts h =
      then-Keeps (expect TokenKind.l_brace _) _ (expect-Keeps TokenKind.l_brace _)
        (λ _. statements-Keeps f) ts h

  statements-Keeps : (f : ℕ) → Keeps (parse_statements f)
  statements-Keeps zero ts h = tt
  statements-Keeps (suc f) ts h =
      statements_of-Keeps (parse_statement f) (parse_statements f) (at_close ts) (statement-Keeps f)
        (statements-Keeps f) ts h

init_of-Keeps :
    (kind : TokenKind) (type : ValueType) (name : Bytes) (t : Token)
    → Keeps (init_of kind type name t)
init_of-Keeps TokenKind.int_literal integer name t ts h = h
init_of-Keeps TokenKind.int_literal _ name t ts h = tt
init_of-Keeps TokenKind.string_literal string name t ts h = h
init_of-Keeps TokenKind.string_literal _ name t ts h = tt
init_of-Keeps _ type name t ts h = tt

global_value-Keeps : (type : ValueType) (name : Bytes) (b : Bool) → Keeps (global_value type name b)
global_value-Keeps type name false ts h = h
global_value-Keeps type name true [] h = tt
global_value-Keeps type name true (t ∷ ts) h =
    init_of-Keeps t.kind type name t ts (Tail-next t ts h)

global-Keeps : Keeps parse_global
unfolding parse_global
global-Keeps = then-Keeps type_keyword _ type_keyword-Keeps λ type.
    then-Keeps (expect TokenKind.identifier _) _ (expect-Keeps TokenKind.identifier _) λ name.
      then-Keeps (match_kind TokenKind.assign) _ (match_kind-Keeps TokenKind.assign) λ assigned.
        then-Keeps (global_value type name.text assigned) _
          (global_value-Keeps type name.text assigned)
          λ g.
            then-Keeps (expect TokenKind.semicolon _) _ (expect-Keeps TokenKind.semicolon _)
              λ _ ts h. h

globals_of-Keeps :
    (again : P (List GlobalVar)) (b : Bool) → Keeps again → Keeps (globals_of again b)
globals_of-Keeps again true k =
    then-Keeps parse_global _ global-Keeps λ g. then-Keeps again _ k λ gs ts h. h
globals_of-Keeps again false k = λ ts h. h

pub globals-Keeps : (f : ℕ) → Keeps (parse_globals f)
unfolding parse_globals
globals-Keeps zero ts h = tt
globals-Keeps (suc f) ts h =
    globals_of-Keeps (parse_globals f)
      (check TokenKind.kw_integer ts || check TokenKind.kw_string ts) (globals-Keeps f) ts h

if_comma-Keeps : (again : P (List Param)) (b : Bool) → Keeps again → Keeps (if_comma again b)
if_comma-Keeps again true k = k
if_comma-Keeps again false k = λ ts h. h

params-Keeps : (f : ℕ) → Keeps (parse_params f)
unfolding parse_params
params-Keeps zero ts h = tt
params-Keeps (suc f) ts h =
    then-Keeps type_keyword _ type_keyword-Keeps
      (λ type.
        then-Keeps (expect TokenKind.identifier _) _ (expect-Keeps TokenKind.identifier _) λ name.
          then-Keeps (match_kind TokenKind.comma) _ (match_kind-Keeps TokenKind.comma) λ comma.
            then-Keeps (if_comma (parse_params f) comma) _
              (if_comma-Keeps (parse_params f) comma (params-Keeps f)) λ rest ts h. h)
      ts h

params_of-Keeps : (params : P (List Param)) → Keeps params → Keeps (params_of params)
params_of-Keeps params k ts h = if_both LeavesTail (check TokenKind.r_paren ts) (λ _. h) λ _. k ts h

handler-Keeps : (f : ℕ) → Keeps (parse_event_handler f)
unfolding parse_event_handler
handler-Keeps f =
    then-Keeps (expect TokenKind.identifier _) _ (expect-Keeps TokenKind.identifier _) λ name.
      then-Keeps (expect TokenKind.l_paren _) _ (expect-Keeps TokenKind.l_paren _) λ _.
        then-Keeps (params_of (parse_params f)) _
          (params_of-Keeps (parse_params f) (params-Keeps f))
          λ params.
            then-Keeps (expect TokenKind.r_paren _) _ (expect-Keeps TokenKind.r_paren _)
              λ _. then-Keeps (parse_block f) _ (block-Keeps f) λ body ts h. h

events_of-Keeps :
    (handler : P EventHandler) (again : P (List EventHandler)) (b : Bool)
    → Keeps handler
    → Keeps again
    → Keeps (events_of handler again b)
events_of-Keeps handler again true kh ka = λ ts h. h
events_of-Keeps handler again false kh ka =
    then-Keeps handler _ kh λ e. then-Keeps again _ ka λ es ts h. h

pub events-Keeps : (f : ℕ) → Keeps (parse_events f)
unfolding parse_events
events-Keeps zero ts h = tt
events-Keeps (suc f) ts h =
    events_of-Keeps (parse_event_handler f) (parse_events f) (at_close ts) (handler-Keeps f)
      (events-Keeps f) ts h
