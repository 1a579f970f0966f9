-- ===== src/Script/Vm/State.antt =====
-- script/include/homeworldz/script/vm.h and script/src/vm.cpp: the explicit-stack machine. A member
-- function is a step of a state monad over the machine and the region's world `W`, which only the
-- host function changes. A `VmFault` keeps the state in which it was thrown. `undefined` stands
-- where the C++ has no defined result: an `int32_t` operation that overflows, a write past the end.
use homeworldz.Common.{
  ℕ, zero, suc, Bool, false, Option, none, some, List, [], ◌∷◌, ◌++◌, ltb, leb, ◌==◌, if◌then◌else◌,
  length, get_elem?, set,
}
use homeworldz.Common.Int.{ℤ, pos, negsuc}
use homeworldz.Common.Bytes.{Bytes}
use homeworldz.Common.Words.{is_int32, to_size}
use homeworldz.Script.Bytecode.{Value, int, str}

-- The messages of `VmFault`, one for each place that throws.
pub data VmFault : Type 0 where
  ip_range stack_underflow expected_int local_range global_range const_range : VmFault
  concat_types host_range host_args no_host : VmFault

-- The members of `VM` that hold script state. The back of `stack_` is the head of `stack`, and an
-- empty `error_` is `none`.
pub record Vm : Type 0 where
  pub ip : ℕ
  pub stack : List Value
  pub locals : List Value
  pub globals : List Value
  pub finished : Bool
  pub error : Option VmFault
  pub total : ℕ

-- `HostFunction`: a call may change the world and may return a value.
abbrev pub HostFunction : Type 0 → Type 0
HostFunction W = Bytes → List Value → W → Option Value × W

pub data Outcome (W : Type 0) (A : Type 0) : Type 0 where
  ok : A → Vm → W → Outcome W A
  fault : VmFault → Vm → W → Outcome W A
  undefined : Outcome W A

abbrev pub M : Type 0 → Type 0 → Type 0
M W A = Vm → W → Outcome W A

infixl 5 ◌>>=◌ ◌>>◌
abbrev pub ◌>>=◌ : {W A B : Type 0} → M W A → (A → M W B) → M W B
◌>>=◌ m f vm w = elim (m vm w) [
  | ok a vm' w' ↦ f a vm' w'
  | fault e vm' w' ↦ fault e vm' w'
  | undefined ↦ undefined
]

abbrev pub ◌>>◌ : {W B : Type 0} → M W (Unit {0}) → M W B → M W B
m >> k = m >>= λ _. k

abbrev pub throw : {W A : Type 0} → VmFault → M W A
throw e vm w = fault e vm w

abbrev pub push : {W : Type 0} → Value → M W (Unit {0})
push v vm w = ok tt (record vm { stack = v ∷ vm.stack }) w

-- The lambda `pop` of `VM::step`.
abbrev pub pop_value : {W : Type 0} → M W Value
pop_value vm w = elim vm.stack [
  | [] ↦ fault VmFault.stack_underflow vm w
  | v ∷ rest ↦ ok v (record vm { stack = rest }) w
]

-- The lambda `pop_int`.
abbrev pub pop_int : {W : Type 0} → M W ℤ
pop_int vm w = elim vm.stack [
  | [] ↦ fault VmFault.stack_underflow vm w
  | v ∷ rest ↦ elim v [
    | int i ↦ ok i (record vm { stack = rest }) w
    | str s ↦ fault VmFault.expected_int (record vm { stack = rest }) w
  ]
]

-- The lambda `slot_ref`: the slot's index if it is in the bank.
abbrev pub slot_index : List Value → ℤ → Option ℕ
slot_index bank (pos n) = if ltb n (length bank) then some n else none
slot_index bank (negsuc n) = none

-- The element that `slot_ref` refers to, read.
abbrev pub read_slot : List Value → ℤ → Option Value
read_slot bank (pos n) = get_elem? bank n
read_slot bank (negsuc n) = none

abbrev pub push_read : {W : Type 0} → VmFault → Option Value → M W (Unit {0})
push_read e none = throw e
push_read e (some v) = push v

abbrev pub store_local : {W : Type 0} → ℤ → Value → M W (Unit {0})
store_local slot v vm w = elim (slot_index vm.locals slot) [
  | none ↦ fault VmFault.local_range vm w
  | some i ↦ ok tt (record vm { locals = set vm.locals i v }) w
]

abbrev pub store_global : {W : Type 0} → ℤ → Value → M W (Unit {0})
store_global slot v vm w = elim (slot_index vm.globals slot) [
  | none ↦ fault VmFault.global_range vm w
  | some i ↦ ok tt (record vm { globals = set vm.globals i v }) w
]

-- `push_back(make_integer(z))` for the exact result `z` of a signed operation, which overflows
-- unless `z` is an `int32_t`.
abbrev pub push_checked : {W : Type 0} → ℤ → M W (Unit {0})
push_checked z vm w =
    if is_int32 z then ok tt (record vm { stack = int z ∷ vm.stack }) w else undefined

abbrev pub int_eq : ℤ → ℤ → Bool
int_eq (pos a) (pos b) = a == b
int_eq (negsuc a) (negsuc b) = a == b
int_eq _ _ = false

abbrev pub push_bool : {W : Type 0} → Bool → M W (Unit {0})
push_bool b = push (int (if b then pos 1 else pos 0))

-- `ConcatStr`, once both operands are popped.
abbrev pub concat : {W : Type 0} → Value → Value → M W (Unit {0})
concat (str a) (str b) = push (str (a ++ b))
concat _ _ = throw VmFault.concat_types

abbrev pub set_ip : {W : Type 0} → ℤ → M W (Unit {0})
set_ip a vm w = ok tt (record vm { ip = to_size a }) w

abbrev pub jump_if_zero : {W : Type 0} → ℤ → ℤ → M W (Unit {0})
jump_if_zero a i vm w =
    if int_eq i (pos 0) then ok tt (record vm { ip = to_size a }) w else ok tt vm w

-- The loop of `CallHost`: `args[i] = pop()` for i from argc - 1 down to 0.
unfoldable pub pop_args : {W : Type 0} → ℕ → List Value → M W (List Value)
pop_args zero args vm w = ok args vm w
pop_args (suc n) args vm w = elim vm.stack [
  | [] ↦ fault VmFault.stack_underflow vm w
  | v ∷ rest ↦ pop_args n (v ∷ args) (record vm { stack = rest }) w
]

abbrev pub push_result : {W : Type 0} → Option Value × W → Vm → Outcome W (Unit {0})
push_result (none, w) vm = ok tt vm w
push_result (some v, w) vm = ok tt (record vm { stack = v ∷ vm.stack }) w

abbrev pub name_at : List Bytes → ℤ → Option Bytes
name_at names (pos n) = get_elem? names n
name_at names (negsuc n) = none

module _ {W : Type 0} (host : Option (HostFunction W)) where
  abbrev pub invoke_host : Bytes → List Value → M W (Unit {0})
  invoke_host name args vm w = elim host [
    | none ↦ fault VmFault.no_host vm w
    | some f ↦ push_result (f name args w) vm
  ]

  -- `CallHost` once the function's name is found.
  abbrev pub call_named : Bytes → ℤ → M W (Unit {0})
  call_named name (negsuc n) = throw VmFault.host_args
  call_named name (pos argc) = λ vm w.
      if leb argc (length vm.stack)
      then (pop_args argc [] >>= invoke_host name) vm w
      else fault VmFault.host_args vm w

  abbrev pub call_host : Option Bytes → ℤ → M W (Unit {0})
  call_host none b = throw VmFault.host_range
  call_host (some name) b = call_named name b
