-- ===== src/Script/Tests.antt =====
-- Runs of small scripts through the compiler and the machine.
use homeworldz.Common.{◌≡◌, refl, Option, none, some, List, [], ◌∷◌}
use homeworldz.Common.Int.{pos, ◌+ℤ◌, ◌-ℤ◌, ◌*ℤ◌}
use homeworldz.Common.Words.{to_i32, to_size}
use homeworldz.Script.Decimal.{int_to_string}
use homeworldz.Common.Bytes.{codes, bytes_eq}
use homeworldz.Script.Bytecode.{Value, int, str, integer, string, Program, find_event}
use homeworldz.Script.Ast.{
  Expr, int_literal, string_literal, var_ref, binary, cast, call, no_args, arg, BinaryOp, Stmt,
  var_decl, assign, expr_stmt, while_loop, if_then, Stmts, no_stmts, stmt, ScriptTree,
}
use homeworldz.Script.Vm.State.{HostFunction, VmFault, pop_args}
use homeworldz.Script.Vm.Step.{
  RunStatus, RunResult, done, undefined_run, exec, first_mismatch, run, seed, step, dispatch,
  Dispatched, positioned, refused, new_vm,
}
use homeworldz.Script.Compiler.State.{
  CompileError, lookup_event, here, find_symbol, add_constant, pool_constant, index_from, emit,
  add_host, emit_load, emit_store, emplace, lookup_host, patch_target, pool_host, resolve,
  set_target, value_eq,
}
use homeworldz.Script.Compiler.Generate.{
  compile_globals, compile_events, compile_event, compile_handler, compile_block, compile_var_decl,
  initial_value, declare_params, while_code, if_then_code, if_else_code, binary_code, cast_code,
  compile, compile_assign, compile_condition, compile_expr_stmt, compile_expression, declare_global,
  CompileResult, program, failed, integers_op, call_code,
}

-- A host that records the calls, last first, and returns nothing.
abbrev recorder : HostFunction (List (List Value))
recorder name args log = (none, args ∷ log)

abbrev one_handler : Stmts → ScriptTree
one_handler body = record {
  globals = [];
  events = record { name = codes "state_entry"; params = []; body = body } ∷ [];
}

abbrev say : Expr → Stmt
say e = expr_stmt (call (codes "llOwnerSay") (arg e no_args))

data Seen : Type 0 where
  saw : RunStatus → List (List Value) → Option VmFault → Seen
  not_compiled : CompileError → Seen
  not_run : Seen

observe : RunResult (List (List Value)) → Seen
observe (done s vm w) = saw s w vm.error
observe undefined_run = not_run

run_dispatched : Program → Dispatched → Seen
unfolding observe run
run_dispatched p (positioned vm) = observe (run p (some recorder) 200 vm [])
run_dispatched p (refused e) = not_run

run_compiled : CompileResult → Seen
unfolding run_dispatched dispatch
run_compiled (program p) = run_dispatched p (dispatch p (codes "state_entry") [] (new_vm p))
run_compiled (failed e) = not_compiled e

run_script : Stmts → Seen
unfolding run_compiled integers_op call_code compile_globals compile_events compile_event
    compile_handler compile_block compile_var_decl initial_value declare_params while_code
    if_then_code if_else_code binary_code cast_code compile compile_assign compile_condition
    compile_expr_stmt compile_expression declare_global lookup_event here find_symbol add_constant
    pool_constant index_from emit add_host emit_load emit_store emplace lookup_host patch_target
    pool_host resolve set_target value_eq find_event bytes_eq to_i32 to_size int_to_string pop_args
    ◌+ℤ◌ ◌-ℤ◌ ◌*ℤ◌ dispatch exec first_mismatch run seed step
run_script body = run_compiled (compile (one_handler body))

abbrev count_to_two : Stmts
count_to_two = stmt (var_decl integer (codes "i") none) (
    stmt
      (while_loop (binary BinaryOp.less (var_ref (codes "i")) (int_literal (pos 2))) (
        stmt (say (cast string (var_ref (codes "i")))) (
          stmt
            (assign (codes "i") (binary BinaryOp.add (var_ref (codes "i")) (int_literal (pos 1))))
            no_stmts)))
      no_stmts)

-- integer i; while (i < 2) { say (string) i; i = i + 1; }
counts :
    run_script count_to_two
    ≡ saw RunStatus.finished ((str (codes "1") ∷ []) ∷ (str (codes "0") ∷ []) ∷ []) none
unfolding run_script
counts = refl

-- if (0) { string s = "a"; } say s: the branch is skipped and the slot of `s` still holds the
-- integer 0, so the host gets an integer where the compiler has checked a string.
leaked_declaration :
    run_script (
      stmt
        (if_then
          (int_literal (pos 0))
          (stmt (var_decl string (codes "s") (some (string_literal (codes "a")))) no_stmts))
        (stmt (say (var_ref (codes "s"))) no_stmts))
    ≡ saw RunStatus.finished ((int (pos 0) ∷ []) ∷ []) none
unfolding run_script
leaked_declaration = refl
