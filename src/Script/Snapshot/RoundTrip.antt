-- ===== src/Script/Snapshot/RoundTrip.antt =====
-- What `snapshot` writes, `restore` reads back.
use homeworldz.Common.{
  if◌then◌else◌, ℕ, zero, suc, ◌/◌, ◌^◌, ◌≤◌, ◌<◌, ◌≡◌, refl, List, [], ◌∷◌, ◌++◌, arith, length,
  append_assoc, append-nil,
}
use native.Mathlib.Nat.{pow-suc}
use mathlib.Core.List.{reverse, reverse-reverse}
use homeworldz.Common.Bytes.{Bytes}
use homeworldz.Common.Words.{IsInt32, to_u32, to_i32-to_u32, to_u32-lt}
use homeworldz.Script.Bytecode.{Value, int, str, Program}
use homeworldz.Script.Vm.State.{Vm}
use homeworldz.Script.Snapshot.Format.{
  put_le, get_le, got, put_value, get_value, get_bytes, put_each, get_each, put_values, get_values,
  put_banks, put_counters, snapshot,
}
use homeworldz.Script.Snapshot.Restore.{
  restore_banks, restore_globals, restore_counters, restore_magic, restore_abi, restore, restored,
}

shrinks : (k v : ℕ) → v < 256 ^ suc k → v / 256 < 256 ^ k
shrinks k v h = omega (arith, pow-suc 256 k)

get_le-put_le : (k v : ℕ) (rest : Bytes) → v < 256 ^ k → get_le k (put_le k v ++ rest) ≡ got v rest
unfolding get_le put_le
get_le-put_le zero v rest h = ground arith
get_le-put_le (suc k) v rest h = ground (arith, get_le-put_le k (v / 256) rest, shrinks k v h)

get_bytes-append : (s rest : Bytes) → get_bytes (length s) (s ++ rest) ≡ got s rest
unfolding get_bytes
get_bytes-append [] rest = refl
get_bytes-append (b ∷ s) rest = rw (get_bytes-append s rest)

-- The values that a snapshot can carry: an `int32_t`, a string within the reader's limit.
abbrev pub Fits : Value → Type 0
Fits (int i) = IsInt32 i
Fits (str s) = length s ≤ 1_000_000

abbrev pub AllFit : List Value → Type 0
AllFit [] = Unit {0}
AllFit (v ∷ vs) = Fits v × AllFit vs

get_value-put_value :
    (v : Value) (rest : Bytes) → Fits v → get_value (put_value v ++ rest) ≡ got v rest
unfolding get_value put_value
get_value-put_value (int i) rest h =
    ground (arith, get_le-put_le 4 (to_u32 i) rest (to_u32-lt i), to_i32-to_u32 i h)
get_value-put_value (str s) rest h = ground (
  arith,
  append_assoc (put_le 4 (length s)) s rest,
  get_le-put_le 4 (length s) (s ++ rest) (omega arith),
  get_bytes-append s rest,
)

get_each-put_each :
    (vs : List Value) (rest : Bytes)
    → AllFit vs
    → get_each (length vs) (put_each vs ++ rest) ≡ got vs rest
unfolding get_each put_each
get_each-put_each [] rest h = refl
get_each-put_each (v ∷ vs) rest (h, hs) = ground (
  arith,
  append_assoc (put_value v) (put_each vs) rest,
  get_value-put_value v (put_each vs ++ rest) h,
  get_each-put_each vs rest hs,
)

pub get_values-put_values :
    (vs : List Value) (rest : Bytes)
    → AllFit vs
    → length vs ≤ 1_000_000
    → get_values (put_values vs ++ rest) ≡ got vs rest
unfolding get_values put_values
get_values-put_values vs rest h n = ground (
  arith,
  append_assoc (put_le 4 (length vs)) (put_each vs) rest,
  get_le-put_le 4 (length vs) (put_each vs ++ rest) (omega arith),
  get_each-put_each vs rest h,
)

-- A machine whose state the format can carry.
pub record IsSnapshotable (p : Program) (vm : Vm) : Type 0 where
  pub ip_fits : vm.ip < 2 ^ 64
  pub total_fits : vm.total < 2 ^ 64
  pub stack_fits : AllFit (reverse vm.stack) × (length (reverse vm.stack) ≤ 1_000_000)
  pub locals_fit : AllFit vm.locals × (length vm.locals ≤ 1_000_000)
  pub globals_fit : AllFit vm.globals × (length vm.globals ≤ 1_000_000)
  pub same_globals : length vm.globals ≡ length p.global_defaults

restore_banks-put_banks :
    (p : Program) (vm other : Vm)
    → IsSnapshotable p vm
    → restore_banks p (put_banks vm) other
      ≡ restored (record other { stack = vm.stack; locals = vm.locals; globals = vm.globals })
unfolding restore_banks restore_globals put_banks
restore_banks-put_banks p vm other h = ground (
  arith,
  get_values-put_values (reverse vm.stack) (put_values vm.locals ++ put_values vm.globals)
      h.stack_fits.0 h.stack_fits.1,
  get_values-put_values vm.locals (put_values vm.globals) h.locals_fit.0 h.locals_fit.1,
  get_values-put_values vm.globals [] h.globals_fit.0 h.globals_fit.1,
  append-nil (put_values vm.globals),
  reverse-reverse vm.stack,
)

abbrev flag_of : Vm → ℕ
flag_of vm = if vm.finished then 1 else 0

restore_counters-put_counters :
    (p : Program) (vm other : Vm)
    → IsSnapshotable p vm
    → restore_counters p (put_counters vm) other ≡ restored (record vm { error = other.error })
unfolding restore_counters put_counters
restore_counters-put_counters p vm other h = ground (
  arith,
  get_le-put_le 8 vm.ip (flag_of vm ∷ (put_le 8 vm.total ++ put_banks vm))
      (omega (arith, h.ip_fits)),
  get_le-put_le 8 vm.total (put_banks vm) (omega (arith, h.total_fits)),
  restore_banks-put_banks p vm
      (record other { ip = vm.ip; finished = vm.finished; total = vm.total }) h,
)

-- A snapshot of a state that the format can carry (numbers in the range of their fields, at most
-- 1,000,000 values in a bank and bytes in a string, the program's number of globals, a version of
-- the bytecode that fits 32 bits), restored into any machine for the same program, gives back the
-- whole state but the message of an earlier fault, which `restore` leaves as the machine has it.
pub restore-snapshot :
    (p : Program) (vm other : Vm)
    → p.abi_version < 2 ^ 32
    → IsSnapshotable p vm
    → restore p (snapshot p vm) other ≡ restored (record vm { error = other.error })
unfolding restore restore_magic restore_abi snapshot
restore-snapshot p vm other abi h = ground (
  arith,
  get_le-put_le 2 2 (put_le 4 p.abi_version ++ put_counters vm) (omega arith),
  get_le-put_le 4 p.abi_version (put_counters vm) (omega arith),
  restore_counters-put_counters p vm other h,
)
