-- ===== src/Script/Witnesses.antt =====
-- The theorems about the script engine on small scripts and programs.
use homeworldz.Common.{ℕ, ◌+◌, ◌≡◌, refl, false, none, some, [], ◌∷◌, arith}
use homeworldz.Common.Int.{pos, ◌+ℤ◌, ◌-ℤ◌}
use homeworldz.Common.Words.{to_i32, to_size}
use homeworldz.Common.Bytes.{codes, bytes_eq}
use homeworldz.Script.Parser.Statement.{parse}
use homeworldz.Script.Parser.Total.Whole.{parse-ReadWhole, ReadWhole}
use homeworldz.Script.Decimal.{int_to_string, nat_to_string, digits_onto}
use homeworldz.Script.Bytecode.{int, str, integer, string, Program, Op, Instruction}
use homeworldz.Script.Ast.{Expr, int_literal, var_ref, binary, cast, BinaryOp}
use homeworldz.Script.Vm.State.{Vm, HostFunction}
use homeworldz.Script.Vm.Step.{RunStatus, done, exec, step, run, new_vm}
use homeworldz.Script.Vm.Runs.{Runs}
use homeworldz.Script.Vm.Dispatch.{Begun, dispatch-Begun}
use homeworldz.Script.Vm.Step.{dispatch}
use homeworldz.Script.Bytecode.{find_event}
use homeworldz.Script.Vm.Budget.{run-add, run-Ends, Ends, resume}
use homeworldz.Script.Snapshot.Format.{snapshot}
use homeworldz.Script.Snapshot.Restore.{restore, restored}
use homeworldz.Script.Snapshot.RoundTrip.{IsSnapshotable, restore-snapshot}
use homeworldz.Script.Migration.{run-restore}
use homeworldz.Script.Lexer.Scan.{tokenize}
use homeworldz.Script.Lexer.Token.{Token, TokenKind}
use homeworldz.Script.Lexer.Total.{Ended, tokenize-Ended}
use homeworldz.Script.Compiler.State.{
  Compiler, Scope, new_compiler, ok as compiled_ok, find_symbol, add_constant, pool_constant,
  index_from, emit, emit_load, resolve, value_eq,
}
use homeworldz.Script.Compiler.Generate.{compile_expression, integers_op, binary_code, cast_code}
use homeworldz.Script.Compiler.Meaning.{eval, variables, VarsTyped}
use homeworldz.Script.Compiler.Correct.Computes.{Holds}
use homeworldz.Script.Compiler.Correct.Expressions.{Runs-compile_expression}

abbrev quiet : HostFunction ℕ
quiet name args calls = (none, calls + 1)

abbrev instruction : Op → ℕ → Instruction
instruction op a = record { op = op; a = pos a; b = pos 0 }

-- Counts a global up for ever.
abbrev counter : Program
counter = record {
  code =
      instruction Op.load_global 0
      ∷ instruction Op.push_const 0
      ∷ instruction Op.add_int 0
      ∷ instruction Op.store_global 0
      ∷ instruction Op.jump 0
      ∷ [];
  constants = int (pos 1) ∷ [];
  host_names = [];
  global_defaults = int (pos 7) ∷ [];
  events = [];
  compiler_version = 2;
  abi_version = 2;
}

abbrev started : Vm
started = record (new_vm counter) { finished = false }

abbrev after_two : Vm
after_two = record started { ip = 2; stack = int (pos 1) ∷ int (pos 7) ∷ []; total = 2 }

after_two-IsSnapshotable : IsSnapshotable counter after_two
after_two-IsSnapshotable = record {
  ip_fits = omega arith;
  total_fits = omega arith;
  stack_fits = ((omega arith, (omega arith, tt)), omega arith);
  locals_fit = (tt, omega arith);
  globals_fit = ((omega arith, tt), omega arith);
  same_globals = refl;
}

two_steps : run counter (some quiet) 2 started 0 ≡ done RunStatus.yielded after_two 0
unfolding run step exec to_size to_i32
two_steps = refl

run-restore_example :
    (there : Vm) × (restore counter (snapshot counter after_two) (new_vm counter) ≡ restored there)
    × (run counter (some quiet) 5 there 0 ≡ run counter (some quiet) (2 + 5) started 0)
run-restore_example =
    run-restore counter (some quiet) 2 5 started after_two 0 0 (omega arith) (omega arith) refl
      two_steps after_two-IsSnapshotable

restore-snapshot_example :
    restore counter (snapshot counter after_two) (new_vm counter) ≡ restored after_two
restore-snapshot_example =
    restore-snapshot counter after_two (new_vm counter) (omega arith) after_two-IsSnapshotable

run-add_example :
    run counter (some quiet) (2 + 9) started 0
    ≡ resume counter (some quiet) 9 (run counter (some quiet) 2 started 0)
run-add_example = run-add counter (some quiet) 2 9 started 0

run-Ends_example : Ends 2 started (run counter (some quiet) 2 started 0)
run-Ends_example = run-Ends counter (some quiet) 2 started 0 (omega arith)

tokenize-Ended_example : Ended (tokenize (codes "integer n = 0; // \"count\""))
tokenize-Ended_example = tokenize-Ended (codes "integer n = 0; // \"count\"")

abbrev plain_token : TokenKind → ℕ → Token
plain_token kind n = record { kind = kind; text = codes "n"; integer = n; line = 1 }

-- (string) (n + 2), for a local integer `n` in slot 0.
abbrev shown_sum : Expr
shown_sum = cast string (binary BinaryOp.add (var_ref (codes "n")) (int_literal (pos 2)))

abbrev with_n : Compiler
with_n = record new_compiler {
  locals = (codes "n", record { scope = Scope.local; slot = 0; type = integer }) ∷ [];
  local_count = 1;
}

abbrev sum_program : Program
sum_program = record with_n.program {
  code =
      instruction Op.load_local 0
      ∷ instruction Op.push_const 0
      ∷ instruction Op.add_int 0
      ∷ instruction Op.cast_int_to_str 0
      ∷ [];
  constants = int (pos 2) ∷ [];
}

abbrev with_sum : Compiler
with_sum = record with_n { program = sum_program }

abbrev at_sum : Vm
at_sum = record (new_vm sum_program) { locals = int (pos 40) ∷ []; finished = false }

sum_compiled : compile_expression shown_sum with_n ≡ compiled_ok string with_sum
unfolding compile_expression resolve find_symbol emit_load emit add_constant pool_constant
    index_from binary_code integers_op cast_code to_i32 value_eq bytes_eq ◌-ℤ◌
sum_compiled = refl

sum-Holds : Holds sum_program (some quiet) with_n with_sum
sum-Holds = record { code = λ i x le e. e; constants = λ i x e. e; in_range = omega arith }

n_typed : VarsTyped with_n at_sum
unfolding find_symbol
n_typed name s v found read = ground arith

sum_value : eval (variables with_n at_sum) shown_sum ≡ some (str (codes "42"))
unfolding eval find_symbol bytes_eq ◌+ℤ◌ int_to_string nat_to_string digits_onto
sum_value = refl

Runs-compile_expression_example :
    Runs sum_program
      (some quiet)
      at_sum
      0
      (record at_sum { ip = 4; stack = str (codes "42") ∷ [] })
      0
    × (string ≡ string)
Runs-compile_expression_example =
    Runs-compile_expression sum_program (some quiet) shown_sum with_n string with_sum at_sum 0
      (str (codes "42")) sum_compiled sum-Holds n_typed refl sum_value

-- A handler of `touch_start` with one more local.
abbrev touched : Program
touched = record counter {
  events =
      record {
        name = codes "touch_start";
        entry_ip = pos 3;
        param_types = integer ∷ [];
        local_count = pos 2;
      }
      ∷ [];
}

dispatch-Begun_example :
    Begun
      (find_event touched.events (codes "touch_start"))
      (int (pos 1) ∷ [])
      started
      (dispatch touched (codes "touch_start") (int (pos 1) ∷ []) started)
dispatch-Begun_example = dispatch-Begun touched (codes "touch_start") (int (pos 1) ∷ []) started

parse-ReadWhole_example : ReadWhole (parse (codes "default { state_entry() { llSay(0, \"a\"); } }"))
parse-ReadWhole_example = parse-ReadWhole (codes "default { state_entry() { llSay(0, \"a\"); } }")
