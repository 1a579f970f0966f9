-- ===== src/Script/Vm/HostCall.antt =====
-- `CallHost`: the arguments that a call takes off the operand stack, and what it leaves there.
use homeworldz.Common.{ℕ, zero, suc, ◌≤◌, ◌≡◌, refl, Option, List, [], ◌∷◌, arith, length, drop}
use homeworldz.Common.Int.{pos}
use homeworldz.Common.Bytes.{Bytes}
use homeworldz.Script.Bytecode.{Value}
use homeworldz.Script.Vm.State.{Vm, HostFunction, ok, pop_args, invoke_host, call_named}

-- The `n` values on top of the stack, deepest first, in front of `args`.
abbrev pub args_of : ℕ → List Value → List Value → List Value
args_of zero stack args = args
args_of (suc n) [] args = args
args_of (suc n) (v ∷ stack) args = args_of n stack (v ∷ args)

module _ {W : Type 0} where
  pub pop_args_lem :
      (n : ℕ) (args : List Value) (stack : List Value) (vm : Vm) (w : W)
      → n ≤ length stack
      → pop_args n args (record vm { stack = stack }) w
        ≡ ok (args_of n stack args) (record vm { stack = drop n stack }) w
  unfolding pop_args
  pop_args_lem zero args stack vm w h = refl
  pop_args_lem (suc n) args [] vm w h = elim h [ ]
  pop_args_lem (suc n) args (v ∷ stack) vm w h = pop_args_lem n (v ∷ args) stack vm w (omega arith)

  -- With enough values on the stack a call passes exactly those arguments to the host.
  pub call_named_lem :
      (host : Option (HostFunction W)) (name : Bytes) (n : ℕ) (vm : Vm) (w : W)
      → n ≤ length vm.stack
      → call_named host name (pos n) vm w
        ≡ invoke_host host name (args_of n vm.stack []) (record vm { stack = drop n vm.stack }) w
  call_named_lem host name n vm w h = ground (arith, pop_args_lem n [] vm.stack vm w h)
