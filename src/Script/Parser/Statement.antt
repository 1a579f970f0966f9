-- ===== src/Script/Parser/Statement.antt =====
-- The statements, declarations and the script of script/src/parser.cpp.
use homeworldz.Common.{
  ℕ, zero, suc, ◌+◌, ◌*◌, Bool, true, false, Option, none, some, List, [], ◌∷◌, ◌&&◌, ◌||◌,
  if◌then◌else◌, length,
}
use homeworldz.Common.Int.{pos}
use homeworldz.Common.Bytes.{Bytes}
use homeworldz.Script.Bytecode.{ValueType, integer, string}
use homeworldz.Script.Ast.{
  Expr, Stmt, block, var_decl, assign, expr_stmt, while_loop, if_then, if_else, Stmts, no_stmts,
  stmt, Param, EventHandler, GlobalVar, ScriptTree,
}
use homeworldz.Script.Lexer.Token.{TokenKind, Token, kind_eq}
use homeworldz.Script.Lexer.Scan.{LexError, Lexed, tokens, lex_error, tokenize}
use homeworldz.Script.Parser.State.{
  Tokens, Parsed, parsed, syntax_error, out_of_fuel, P, ◌>>=◌, ◌>>◌, give, peek, check, advance,
  expect, match_kind, type_keyword,
}
use homeworldz.Script.Parser.Expression.{expression}

-- An optional initializer behind a declared name.
abbrev pub initializer : Bool → P (Option Expr)
initializer true = do e ← expression; give (some e)
initializer false = give none

unfoldable pub parse_var_decl : P Stmt
parse_var_decl = do
  type ← type_keyword
  name ← expect TokenKind.identifier "expected variable name"
  assigned ← match_kind TokenKind.assign
  init ← initializer assigned
  expect TokenKind.semicolon "expected ';' after declaration"
  give (var_decl type name.text init)

-- The condition of `while` or `if`, with the message for a missing '('.
unfoldable pub parse_while_condition : P Expr
parse_while_condition = do
  advance
  expect TokenKind.l_paren "expected '(' after 'while'"
  condition ← expression
  expect TokenKind.r_paren "expected ')' after condition"
  give condition

unfoldable pub parse_if_condition : P Expr
parse_if_condition = do
  advance
  expect TokenKind.l_paren "expected '(' after 'if'"
  condition ← expression
  expect TokenKind.r_paren "expected ')' after condition"
  give condition

unfoldable pub parse_assign : P Stmt
parse_assign = do
  name ← advance
  expect TokenKind.assign "expected '='"
  value ← expression
  expect TokenKind.semicolon "expected ';' after assignment"
  give (assign name.text value)

unfoldable pub parse_expr_stmt : P Stmt
parse_expr_stmt = do
  e ← expression
  expect TokenKind.semicolon "expected ';' after expression"
  give (expr_stmt e)

-- Which of the statements begins here, by the tests of `parse_statement` in their order.
pub data StatementKind : Type 0 where
  is_decl is_while is_if is_block is_assign is_expr : StatementKind

abbrev pub statement_kind : Tokens → StatementKind
statement_kind ts =
    if check TokenKind.kw_integer ts || check TokenKind.kw_string ts
    then is_decl
    else if check TokenKind.kw_while ts
    then is_while
    else if check TokenKind.kw_if ts
    then is_if
    else if check TokenKind.l_brace ts
    then is_block
    else if check TokenKind.identifier ts && kind_eq (peek 1 ts) TokenKind.assign
    then is_assign
    else is_expr

-- The test on which the loops over statements and over handlers stop.
abbrev pub at_close : Tokens → Bool
at_close ts = check TokenKind.r_brace ts || check TokenKind.end ts

abbrev pub else_block : P Stmts → Bool → P (Option Stmts)
else_block sub true = do e ← sub; give (some e)
else_block sub false = give none

abbrev pub close_if : Expr → Stmts → Option Stmts → P Stmt
close_if condition t none = give (if_then condition t)
close_if condition t (some e) = give (if_else condition t e)

-- `parse_statement` by what begins, over the parser of a block.
abbrev pub statement_of : P Stmts → StatementKind → P Stmt
statement_of sub is_decl = parse_var_decl
statement_of sub is_while = do
  condition ← parse_while_condition
  body ← sub
  give (while_loop condition body)
statement_of sub is_if = do
  condition ← parse_if_condition
  then_branch ← sub
  otherwise ← match_kind TokenKind.kw_else
  else_branch ← else_block sub otherwise
  close_if condition then_branch else_branch
statement_of sub is_block = do ss ← sub; give (block ss)
statement_of sub is_assign = parse_assign
statement_of sub is_expr = parse_expr_stmt

-- The end of a block, or a statement and the loop again.
abbrev pub statements_of : P Stmt → P Stmts → Bool → P Stmts
statements_of first again true = do expect TokenKind.r_brace "expected '}'"; give no_stmts
statements_of first again false = do s ← first; rest ← again; give (stmt s rest)

unfoldable mutual
  pub parse_statement : ℕ → P Stmt
  parse_statement zero ts = out_of_fuel
  parse_statement (suc f) ts = statement_of (parse_block f) (statement_kind ts) ts

  pub parse_block : ℕ → P Stmts
  parse_block zero ts = out_of_fuel
  parse_block (suc f) ts = (do expect TokenKind.l_brace "expected '{'"; parse_statements f) ts

  -- The loop of `parse_block`, with the '}' behind it.
  pub parse_statements : ℕ → P Stmts
  parse_statements zero ts = out_of_fuel
  parse_statements (suc f) ts =
      statements_of (parse_statement f) (parse_statements f) (at_close ts) ts

-- The token behind the '=' of a global, by its kind and the global's type.
abbrev pub init_of : TokenKind → ValueType → Bytes → Token → P GlobalVar
init_of TokenKind.int_literal integer name t ts =
    parsed
      (record {
        type = integer;
        name = name;
        has_init = true;
        int_init = pos t.integer;
        string_init = [];
      })
      ts
init_of TokenKind.int_literal _ name t ts =
    syntax_error "cannot initialize a string global with an integer literal" none
init_of TokenKind.string_literal string name t ts =
    parsed
      (record {
        type = string;
        name = name;
        has_init = true;
        int_init = pos 0;
        string_init = t.text;
      })
      ts
init_of TokenKind.string_literal _ name t ts =
    syntax_error "cannot initialize an integer global with a string literal" none
init_of _ type name t ts = syntax_error "global initializers must be a literal in this PoC" none

abbrev pub global_init : ValueType → Bytes → P GlobalVar
global_init type name [] = syntax_error "global initializers must be a literal in this PoC" none
global_init type name (t ∷ ts) = init_of t.kind type name t ts

abbrev pub global_value : ValueType → Bytes → Bool → P GlobalVar
global_value type name true = global_init type name
global_value type name false =
    give (record { type = type; name = name; has_init = false; int_init = pos 0; string_init = [] })

unfoldable pub parse_global : P GlobalVar
parse_global = do
  type ← type_keyword
  name ← expect TokenKind.identifier "expected global variable name"
  assigned ← match_kind TokenKind.assign
  g ← global_value type name.text assigned
  expect TokenKind.semicolon "expected ';' after global declaration"
  give g

abbrev pub if_comma : P (List Param) → Bool → P (List Param)
if_comma again true = again
if_comma again false = give []

-- One parameter, and those behind a comma. The loops from here on take a unit of fuel a round.
unfoldable pub parse_params : ℕ → P (List Param)
parse_params zero ts = out_of_fuel
parse_params (suc f) ts =
    (do
      type ← type_keyword
      name ← expect TokenKind.identifier "expected parameter name"
      comma ← match_kind TokenKind.comma
      rest ← if_comma (parse_params f) comma
      give (record { type = type; name = name.text } ∷ rest))
      ts

abbrev pub params_of : P (List Param) → P (List Param)
params_of params ts = if check TokenKind.r_paren ts then parsed [] ts else params ts

unfoldable pub parse_event_handler : ℕ → P EventHandler
parse_event_handler f = do
  name ← expect TokenKind.identifier "expected an event name"
  expect TokenKind.l_paren "expected '(' after event name"
  params ← params_of (parse_params f)
  expect TokenKind.r_paren "expected ')' after event parameters"
  body ← parse_block f
  give (record { name = name.text; params = params; body = body })

abbrev pub globals_of : P (List GlobalVar) → Bool → P (List GlobalVar)
globals_of again true = do g ← parse_global; gs ← again; give (g ∷ gs)
globals_of again false = give []

unfoldable pub parse_globals : ℕ → P (List GlobalVar)
parse_globals zero ts = out_of_fuel
parse_globals (suc f) ts =
    globals_of (parse_globals f) (check TokenKind.kw_integer ts || check TokenKind.kw_string ts) ts

abbrev pub events_of : P EventHandler → P (List EventHandler) → Bool → P (List EventHandler)
events_of handler again true = give []
events_of handler again false = do e ← handler; es ← again; give (e ∷ es)

unfoldable pub parse_events : ℕ → P (List EventHandler)
parse_events zero ts = out_of_fuel
parse_events (suc f) ts = events_of (parse_event_handler f) (parse_events f) (at_close ts) ts

abbrev pub require_events : List GlobalVar → List EventHandler → P ScriptTree
require_events globals [] ts = syntax_error "the default state has no event handlers" none
require_events globals (e ∷ es) ts = parsed (record { globals = globals; events = e ∷ es }) ts

unfoldable pub parse_script : ℕ → P ScriptTree
parse_script f = do
  globals ← parse_globals f
  expect TokenKind.kw_default "expected global declarations or 'default'"
  expect TokenKind.l_brace "expected '{' after 'default'"
  events ← parse_events f
  expect TokenKind.r_brace "expected '}' to close default state"
  expect TokenKind.end "unexpected trailing tokens after default state"
  require_events globals events

-- `parse`: the lexical error, or the parser's result with fuel for the tokens.
pub data ParseResult : Type 0 where
  lexical : LexError → ℕ → ℕ → ParseResult
  syntactic : Parsed ScriptTree → ParseResult
  stuck : ParseResult

abbrev pub script_fuel : Tokens → ℕ
script_fuel ts = 3 * length ts + 3

unfoldable pub parse_lexed : Lexed → ParseResult
parse_lexed (tokens ts) = syntactic (parse_script (script_fuel ts) ts)
parse_lexed (lex_error e line column) = lexical e line column
parse_lexed Lexed.out_of_fuel = stuck

unfoldable pub parse : Bytes → ParseResult
unfolding parse_lexed
parse source = parse_lexed (tokenize source)
