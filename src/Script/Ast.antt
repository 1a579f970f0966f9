-- ===== src/Script/Ast.antt =====
-- script/include/homeworldz/script/ast.h: the syntax tree between the parser and the compiler.
use homeworldz.Common.{Bool, Option, List}
use homeworldz.Common.Int.{ℤ}
use homeworldz.Common.Bytes.{Bytes}
use homeworldz.Script.Bytecode.{ValueType}

pub data BinaryOp : Type 0 where
  add sub mul less greater equal : BinaryOp

-- `Expr` and its subclasses; `Args` is the vector of a call's arguments.
mutual
  pub data Expr : Type 0 where
    int_literal : ℤ → Expr
    string_literal : Bytes → Expr
    var_ref : Bytes → Expr
    binary : BinaryOp → Expr → Expr → Expr
    cast : ValueType → Expr → Expr
    call : Bytes → Args → Expr

  pub data Args : Type 0 where
    no_args : Args
    arg : Expr → Args → Args

-- `Stmt` and its subclasses; `Stmts` is the vector of a block's statements. An `If` whose
-- `else_branch` is null is `if_then`.
mutual
  pub data Stmt : Type 0 where
    block : Stmts → Stmt
    var_decl : ValueType → Bytes → Option Expr → Stmt
    assign : Bytes → Expr → Stmt
    expr_stmt : Expr → Stmt
    while_loop : Expr → Stmts → Stmt
    if_then : Expr → Stmts → Stmt
    if_else : Expr → Stmts → Stmts → Stmt

  pub data Stmts : Type 0 where
    no_stmts : Stmts
    stmt : Stmt → Stmts → Stmts

pub record Param : Type 0 where
  pub type : ValueType
  pub name : Bytes

pub record EventHandler : Type 0 where
  pub name : Bytes
  pub params : List Param
  pub body : Stmts

pub record GlobalVar : Type 0 where
  pub type : ValueType
  pub name : Bytes
  pub has_init : Bool
  pub int_init : ℤ
  pub string_init : Bytes

-- `struct Script`
pub record ScriptTree : Type 0 where
  pub globals : List GlobalVar
  pub events : List EventHandler
