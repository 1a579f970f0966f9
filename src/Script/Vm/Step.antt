-- ===== src/Script/Vm/Step.antt =====
-- `VM::step`, `VM::run` and `VM::dispatch` of script/src/vm.cpp.
use homeworldz.Common.{
  ℕ, zero, suc, ◌+◌, ◌%◌, ◌^◌, Bool, true, false, Option, none, some, List, [], ◌∷◌, if◌then◌else◌,
  length, get_elem?, replicate, ◌==◌,
}
use homeworldz.Common.Int.{ℤ, pos, ◌+ℤ◌, ◌-ℤ◌, ◌*ℤ◌, ltb_ℤ}
use homeworldz.Common.Bytes.{Bytes}
use homeworldz.Common.Words.{to_size}
use homeworldz.Script.Decimal.{int_to_string}
use homeworldz.Script.Bytecode.{
  Value, int, str, Op, Instruction, EventEntry, Program, find_event, type_eq, type_of, ValueType,
}
use homeworldz.Script.Vm.State.{
  VmFault, Vm, HostFunction, M, Outcome, ok, fault, undefined, ◌>>=◌, throw, push, pop_value,
  pop_int, read_slot, push_read, store_local, store_global, push_checked, push_bool, int_eq, concat,
  set_ip, jump_if_zero, name_at, call_host,
}

module _ {W : Type 0} (p : Program) (host : Option (HostFunction W)) where
  -- The `switch` of `step`, by the opcode and its operands.
  unfoldable pub exec : Op → ℤ → ℤ → M W (Unit {0})
  unfolding int_to_string ◌+ℤ◌ ◌-ℤ◌ ◌*ℤ◌
  exec Op.push_const a b = push_read VmFault.const_range (read_slot p.constants a)
  exec Op.load_local a b = λ vm. push_read VmFault.local_range (read_slot vm.locals a) vm
  exec Op.store_local a b = do v ← pop_value; store_local a v
  exec Op.load_global a b = λ vm. push_read VmFault.global_range (read_slot vm.globals a) vm
  exec Op.store_global a b = do v ← pop_value; store_global a v
  exec Op.add_int a b = do y ← pop_int; x ← pop_int; push_checked (x +ℤ y)
  exec Op.sub_int a b = do y ← pop_int; x ← pop_int; push_checked (x -ℤ y)
  exec Op.mul_int a b = do y ← pop_int; x ← pop_int; push_checked (x *ℤ y)
  exec Op.concat_str a b = do y ← pop_value; x ← pop_value; concat x y
  exec Op.less_int a b = do y ← pop_int; x ← pop_int; push_bool (ltb_ℤ x y)
  exec Op.greater_int a b = do y ← pop_int; x ← pop_int; push_bool (ltb_ℤ y x)
  exec Op.equal_int a b = do y ← pop_int; x ← pop_int; push_bool (int_eq x y)
  exec Op.cast_int_to_str a b = do x ← pop_int; push (str (int_to_string x))
  exec Op.jump a b = set_ip a
  exec Op.jump_if_zero a b = do x ← pop_int; jump_if_zero a x
  exec Op.call_host a b = call_host host (name_at p.host_names a) b
  exec Op.pop a b = do v ← pop_value; λ vm w. ok tt vm w
  exec Op.halt a b = λ vm w. ok tt (record vm { finished = true }) w

  step_at : Option Instruction → M W (Unit {0})
  step_at none = throw VmFault.ip_range
  step_at (some i) = λ vm. exec i.op i.a i.b (record vm { ip = vm.ip + 1 })

  unfoldable pub step : M W (Unit {0})
  unfolding step_at
  step vm = step_at (get_elem? p.code vm.ip) vm

-- `enum class RunStatus`, and `run`'s result with the machine it leaves.
pub data RunStatus : Type 0 where
  finished yielded error : RunStatus

pub data RunResult (W : Type 0) : Type 0 where
  done : RunStatus → Vm → W → RunResult W
  undefined_run : RunResult W

abbrev pub status_of : Bool → RunStatus
status_of b = if b then RunStatus.finished else RunStatus.yielded

abbrev pub count_step : Vm → Vm
count_step vm = record vm { total = (vm.total + 1) % 2 ^ 64 }

-- The rest of a round of `run`'s loop, once `step` has returned or thrown: a fault stops the script
-- and is recorded, and any other step is counted before the next round, `continue`.
abbrev pub after_step : {W : Type 0} → (Vm → W → RunResult W) → Outcome W (Unit {0}) → RunResult W
after_step continue (ok _ vm w) = continue (count_step vm) w
after_step continue (fault e vm w) =
    done RunStatus.error (record vm { error = some e; finished = true }) w
after_step continue undefined = undefined_run

module _ {W : Type 0} (p : Program) (host : Option (HostFunction W)) where
  -- The loop of `run`, on the budget left.
  unfoldable pub run : ℕ → Vm → W → RunResult W
  run zero vm w = done (status_of vm.finished) vm w
  run (suc budget) vm w = elim vm.finished [
    | true ↦ done RunStatus.finished vm w
    | false ↦ after_step (run budget) (step p host vm w)
  ]

-- `VM::VM`
abbrev pub new_vm : Program → Vm
new_vm p = record {
  ip = 0;
  stack = [];
  locals = [];
  globals = p.global_defaults;
  finished = true;
  error = none;
  total = 0;
}

-- The messages of `ScriptError` that `dispatch` throws; `bad_locals` stands for a local count with
-- too little room for the arguments, where the C++ writes past the end of `locals_`.
pub data DispatchError : Type 0 where
  no_such_event bad_locals : DispatchError
  argument_count : ℕ → DispatchError
  argument_type : ℕ → DispatchError

pub data Dispatched : Type 0 where
  positioned : Vm → Dispatched
  refused : DispatchError → Dispatched

-- The first argument, counted from 1, whose type is not the parameter's.
unfoldable pub first_mismatch : ℕ → List Value → List ValueType → Option ℕ
first_mismatch i [] ts = none
first_mismatch i (v ∷ vs) [] = none
first_mismatch i (v ∷ vs) (t ∷ ts) =
    if type_eq (type_of v) t then first_mismatch (i + 1) vs ts else some i

-- `locals_.assign(count, 0)`, then the arguments over the first slots.
unfoldable pub seed : List Value → ℕ → Option (List Value)
seed [] n = some (replicate n (int (pos 0)))
seed (v ∷ vs) zero = none
seed (v ∷ vs) (suc n) = elim (seed vs n) [ none ↦ none | some rest ↦ some (v ∷ rest) ]

unfoldable pub position : EventEntry → Vm → Option (List Value) → Dispatched
position e vm none = refused DispatchError.bad_locals
position e vm (some locals) = positioned (record vm {
  ip = to_size e.entry_ip;
  stack = [];
  locals = locals;
  finished = false;
  error = none;
})

unfoldable pub check_types : EventEntry → List Value → Vm → Option ℕ → Dispatched
unfolding position
check_types e args vm (some i) = refused (DispatchError.argument_type i)
check_types e args vm none = position e vm (seed args (to_size e.local_count))

unfoldable pub dispatch_to : Option EventEntry → List Value → Vm → Dispatched
unfolding check_types first_mismatch
dispatch_to none args vm = refused DispatchError.no_such_event
dispatch_to (some e) args vm =
    if length args == length e.param_types
    then check_types e args vm (first_mismatch 1 args e.param_types)
    else refused (DispatchError.argument_count (length e.param_types))

unfoldable pub dispatch : Program → Bytes → List Value → Vm → Dispatched
unfolding dispatch_to
dispatch p event args vm = dispatch_to (find_event p.events event) args vm
