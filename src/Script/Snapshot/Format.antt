-- ===== src/Script/Snapshot/Format.antt =====
-- `ByteWriter`, `ByteReader`, `VM::snapshot` and `VM::restore` of script/src/vm.cpp. The reader's
-- position in its bytes is the list of the bytes that are left.
use homeworldz.Common.{
  ℕ, zero, suc, ◌+◌, ◌*◌, ◌/◌, ◌%◌, List, [], ◌∷◌, ◌++◌, ltb, ◌==◌, if◌then◌else◌, length,
}
use mathlib.Core.List.{reverse}
use homeworldz.Common.Bytes.{Bytes, codes}
use homeworldz.Common.Words.{to_u32, to_i32}
use homeworldz.Script.Bytecode.{Value, int, str, Program}
use homeworldz.Script.Vm.State.{Vm}

abbrev pub snapshot_version : ℕ
snapshot_version = 2

abbrev pub magic : Bytes
magic = codes "HWZS"

abbrev pub max_snapshot_values : ℕ
max_snapshot_values = 1_000_000

-- `u16`, `u32` and `u64` of the writer: the `k` low bytes of `v`, lowest first.
unfoldable pub put_le : ℕ → ℕ → Bytes
put_le zero v = []
put_le (suc k) v = (v % 256) ∷ put_le k (v / 256)

unfoldable pub put_value : Value → Bytes
put_value (str s) = 2 ∷ (put_le 4 (length s) ++ s)
put_value (int i) = 1 ∷ put_le 4 (to_u32 i)

unfoldable pub put_each : List Value → Bytes
put_each [] = []
put_each (v ∷ vs) = put_value v ++ put_each vs

unfoldable pub put_values : List Value → Bytes
put_values vs = put_le 4 (length vs) ++ put_each vs

unfoldable pub put_banks : Vm → Bytes
put_banks vm = put_values (reverse vm.stack) ++ (put_values vm.locals ++ put_values vm.globals)

unfoldable pub put_counters : Vm → Bytes
put_counters vm =
    put_le 8 vm.ip ++ ((if vm.finished then 1 else 0) ∷ (put_le 8 vm.total ++ put_banks vm))

unfoldable pub snapshot : Program → Vm → Bytes
snapshot p vm = magic ++ (put_le 2 snapshot_version ++ (put_le 4 p.abi_version ++ put_counters vm))

-- The messages of the `ScriptError`s that the reader and `restore` throw.
pub data RestoreError : Type 0 where
  truncated too_many_values string_too_long unknown_tag : RestoreError
  bad_magic bad_version abi_mismatch global_count : RestoreError

pub data Read {ℓ} (A : Type ℓ) : Type ℓ where
  got : A → Bytes → Read A
  threw : RestoreError → Read A

abbrev pub Reader : Type 0 → Type 0
Reader A = Bytes → Read A

infixl 5 ◌>>=◌
abbrev pub ◌>>=◌ : {A B : Type 0} → Reader A → (A → Reader B) → Reader B
◌>>=◌ m f bs = elim (m bs) [ got a rest ↦ f a rest | threw e ↦ threw e ]

abbrev pub give : {A : Type 0} → A → Reader A
give a bs = got a bs

abbrev pub fail : {A : Type 0} → RestoreError → Reader A
fail e bs = threw e

abbrev pub get_u8 : Reader ℕ
get_u8 [] = threw RestoreError.truncated
get_u8 (b ∷ bs) = got b bs

-- `u16`, `u32` and `u64` of the reader.
unfoldable pub get_le : ℕ → Reader ℕ
get_le zero bs = got 0 bs
get_le (suc k) [] = threw RestoreError.truncated
get_le (suc k) (b ∷ bs) = elim (get_le k bs) [
  | got v rest ↦ got (b + 256 * v) rest
  | threw e ↦ threw e
]

unfoldable pub get_bytes : ℕ → Reader Bytes
get_bytes zero bs = got [] bs
get_bytes (suc n) [] = threw RestoreError.truncated
get_bytes (suc n) (b ∷ bs) = elim (get_bytes n bs) [
  | got s rest ↦ got (b ∷ s) rest
  | threw e ↦ threw e
]

get_string : ℕ → Reader Value
get_string len bs =
    if ltb max_snapshot_values len
    then threw RestoreError.string_too_long
    else (get_bytes len >>= λ s. give (str s)) bs

get_tagged : ℕ → Reader Value
unfolding get_string
get_tagged tag bs =
    if tag == 2
    then (get_le 4 >>= get_string) bs
    else if tag == 1
    then (get_le 4 >>= λ w. give (int (to_i32 w))) bs
    else threw RestoreError.unknown_tag

unfoldable pub get_value : Reader Value
unfolding get_tagged
get_value bs = (get_u8 >>= get_tagged) bs

unfoldable pub get_each : ℕ → Reader (List Value)
get_each zero bs = got [] bs
get_each (suc n) bs = elim (get_value bs) [
  | threw e ↦ threw e
  | got v rest ↦ elim (get_each n rest) [ threw e ↦ threw e | got vs rest' ↦ got (v ∷ vs) rest' ]
]

get_counted : ℕ → Reader (List Value)
get_counted count bs =
    if ltb max_snapshot_values count then threw RestoreError.too_many_values else get_each count bs

unfoldable pub get_values : Reader (List Value)
unfolding get_counted
get_values bs = (get_le 4 >>= get_counted) bs
