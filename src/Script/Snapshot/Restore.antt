-- ===== src/Script/Snapshot/Restore.antt =====
-- `VM::restore` of script/src/vm.cpp. It assigns the members one by one as it reads, so that a
-- snapshot which is refused half way leaves the members read so far changed.
use homeworldz.Common.{Bool, true, false, List, [], ◌∷◌, ◌==◌, length, not}
use mathlib.Core.List.{reverse}
use homeworldz.Common.Bytes.{Bytes}
use homeworldz.Script.Bytecode.{Value, Program}
use homeworldz.Script.Vm.State.{Vm}
use homeworldz.Script.Snapshot.Format.{
  RestoreError, Read, got, threw, get_u8, get_le, get_values, magic, snapshot_version,
}

pub data Restored : Type 0 where
  restored : Vm → Restored
  rejected : RestoreError → Vm → Restored

-- A statement of `restore` that reads: what is thrown leaves the machine as it stands.
abbrev pub reading : {A : Type 0} → Read A → Vm → (A → Bytes → Restored) → Restored
reading (got a rest) vm continue = continue a rest
reading (threw e) vm continue = rejected e vm

abbrev pub require : Bool → RestoreError → Vm → Restored → Restored
require true e vm continue = continue
require false e vm continue = rejected e vm

unfoldable pub restore_globals : Program → List Value → Vm → Restored
restore_globals p globals vm =
    require (length globals == length p.global_defaults) RestoreError.global_count vm
      (restored (record vm { globals = globals }))

unfoldable pub restore_banks : Program → Bytes → Vm → Restored
restore_banks p bs vm = reading (get_values bs) vm λ stack bs₁.
    let vm₁ = record vm { stack = reverse stack } in
    reading (get_values bs₁) vm₁ λ locals bs₂.
      let vm₂ = record vm₁ { locals = locals } in
      reading (get_values bs₂) vm₂ λ globals _. restore_globals p globals vm₂

unfoldable pub restore_counters : Program → Bytes → Vm → Restored
restore_counters p bs vm = reading (get_le 8 bs) vm λ ip bs₁.
    let vm₁ = record vm { ip = ip } in
    reading (get_u8 bs₁) vm₁ λ flag bs₂.
      let vm₂ = record vm₁ { finished = not (flag == 0) } in
      reading (get_le 8 bs₂) vm₂ λ total bs₃. restore_banks p bs₃ (record vm₂ { total = total })

unfoldable pub restore_abi : Program → Bytes → Vm → Restored
restore_abi p bs vm = reading (get_le 2 bs) vm λ version bs₁.
    require (version == snapshot_version) RestoreError.bad_version vm (
      reading (get_le 4 bs₁) vm λ abi bs₂.
        require (abi == p.abi_version) RestoreError.abi_mismatch vm (restore_counters p bs₂ vm))

unfoldable pub restore_magic : Bytes → Program → Bytes → Vm → Restored
restore_magic [] p bs vm = restore_abi p bs vm
restore_magic (c ∷ expected) p [] vm = rejected RestoreError.truncated vm
restore_magic (c ∷ expected) p (b ∷ bs) vm =
    require (b == c) RestoreError.bad_magic vm (restore_magic expected p bs vm)

unfoldable pub restore : Program → Bytes → Vm → Restored
restore p bytes vm = restore_magic magic p bytes vm
