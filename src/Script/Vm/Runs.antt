-- ===== src/Script/Vm/Runs.antt =====
-- Several steps of the machine, one after the other, none of which faults.
use homeworldz.Common.{◌+◌, ◌≡◌, Option, some, get_elem?}
use homeworldz.Script.Bytecode.{Program, Instruction}
use homeworldz.Script.Vm.State.{Vm, HostFunction, ok}
use homeworldz.Script.Vm.Step.{step, exec}

module _ {W : Type 0} (p : Program) (host : Option (HostFunction W)) where
  pub data Runs (vm : Vm) (w : W) : Vm → W → Type 0 where
    here : Runs vm w vm w
    next :
        {vm' vm'' : Vm} {w' w'' : W}
        → Runs vm w vm' w'
        → step p host vm' w' ≡ ok tt vm'' w''
        → Runs vm w vm'' w''

  pub Runs-trans :
      {a b : Vm} {u v : W} {c : Vm} {w : W} → Runs a u b v → Runs b v c w → Runs a u c w
  Runs-trans r here = r
  Runs-trans r (next s e) = next (Runs-trans r s) e

  -- The instruction at `ip` is executed with `ip` already past it.
  pub Runs-exec :
      (i : Instruction) (vm : Vm) (w : W) {vm' : Vm} {w' : W}
      → get_elem? p.code vm.ip ≡ some i
      → exec p host i.op i.a i.b (record vm { ip = vm.ip + 1 }) w ≡ ok tt vm' w'
      → Runs vm w vm' w'
  unfolding step
  Runs-exec i vm w at e = next here (simp at e)
