-- ===== src/Script/Migration.antt =====
-- A script that crosses to another region: a snapshot between two slices, restored into a machine
-- built there from the same program.
use homeworldz.Common.{ℕ, ◌+◌, ◌^◌, ◌<◌, ◌≡◌, sym, ap, ◌∙◌, Option, none}
use mathlib.Core.Path.{subst}
use homeworldz.Script.Bytecode.{Program}
use homeworldz.Script.Vm.State.{Vm, HostFunction}
use homeworldz.Script.Vm.Step.{run, RunStatus, done, new_vm}
use homeworldz.Script.Vm.Budget.{run-add, run-Ends, Ends, resume}
use homeworldz.Script.Snapshot.Format.{snapshot}
use homeworldz.Script.Snapshot.Restore.{restore, restored}
use homeworldz.Script.Snapshot.RoundTrip.{IsSnapshotable, restore-snapshot}

module _ {W : Type 0} (p : Program) (host : Option (HostFunction W)) where
  -- A script whose slice of `m` instructions yields in a state that a snapshot can carry, and that
  -- is restored into a new machine for the program, goes on exactly as if it had never been moved:
  -- `n` more instructions there have the result of one slice of m + n here. The count must not
  -- wrap, no fault may be on record, and the version of the bytecode must fit 32 bits.
  pub run-restore :
      (m n : ℕ) (vm vm' : Vm) (w w' : W)
      → p.abi_version < 2 ^ 32
      → vm.total + m < 2 ^ 64
      → vm.error ≡ none
      → run p host m vm w ≡ done RunStatus.yielded vm' w'
      → IsSnapshotable p vm'
      → (there : Vm) × (restore p (snapshot p vm') (new_vm p) ≡ restored there)
        × (run p host n there w' ≡ run p host (m + n) vm w)
  run-restore m n vm vm' w w' abi fits clean slice h = (
    vm',
    restore-snapshot p vm' (new_vm p) abi h
        ∙ (λ i. restored (record vm' { error = sym still_clean i })),
    sym (run-add p host m n vm w ∙ ap (resume p host n) slice),
  )
    where
      ends : Ends m vm (done RunStatus.yielded vm' w')
      ends = subst (Ends m vm) slice (run-Ends p host m vm w fits)

      still_clean : vm'.error ≡ none
      still_clean = ends.2 ∙ clean
