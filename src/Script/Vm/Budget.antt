-- ===== src/Script/Vm/Budget.antt =====
-- `VM::run`: instruction slices, and what a slice may change.
use Prim.Native.Nat.add
use homeworldz.Common.{
  get_elem?, Option-cases, length-set, List, [], ◌∷◌, length, ℕ, zero, suc, ◌+◌, ◌^◌, ◌≤◌, ◌<◌, ◌≡◌,
  ◌≢◌, refl, sym, ap, ◌∙◌, true, false, Option, none, some, arith, Bool-cases, inl, inr,
}
use homeworldz.Common.Int.{ℤ, pos, negsuc}
use homeworldz.Common.Bytes.{Bytes}
use native.Mathlib.Decide.{dec_le}
use homeworldz.Script.Vm.HostCall.{call_named_lem}
use homeworldz.Script.Bytecode.{Program, Op, Value}
use homeworldz.Script.Vm.State.{
  Vm, HostFunction, ◌>>=◌, pop_value, store_global, invoke_host, call_host, name_at, Outcome, ok,
  fault, undefined,
}
use homeworldz.Script.Vm.Step.{
  step, exec, run, finished, yielded, error, RunResult, done, undefined_run, after_step, count_step,
}

-- `run` called again with a further budget where the slice before it yielded.
abbrev pub resume : {W : Type 0} → Program → Option (HostFunction W) → ℕ → RunResult W → RunResult W
resume p host n (done yielded vm w) = run p host n vm w
resume p host n r = r

module _ {W : Type 0} (p : Program) (host : Option (HostFunction W)) where
  run_finished :
      (n : ℕ) (vm : Vm) (w : W) → vm.finished ≡ true → run p host n vm w ≡ done finished vm w
  unfolding run
  run_finished zero vm w h = ground arith
  run_finished (suc n) vm w h = ground arith

  run_exhausted : (vm : Vm) (w : W) → vm.finished ≡ false → run p host zero vm w ≡ done yielded vm w
  unfolding run
  run_exhausted vm w h = ground arith

  run_active :
      (n : ℕ) (vm : Vm) (w : W)
      → vm.finished ≡ false
      → run p host (suc n) vm w ≡ after_step (run p host n) (step p host vm w)
  unfolding run
  run_active n vm w h = ground arith

  resume-after_step :
      (m n : ℕ) (r : Outcome W (Unit {0}))
      → ((vm : Vm) (w : W) → run p host (m + n) vm w ≡ resume p host n (run p host m vm w))
      → after_step (run p host (m + n)) r ≡ resume p host n (after_step (run p host m) r)
  unfolding run
  resume-after_step m n (ok _ vm w) ih = ih (count_step vm) w
  resume-after_step m n (fault e vm w) ih = refl
  resume-after_step m n undefined ih = refl

  -- A slice of m + n instructions is a slice of m, and if that yields a slice of n from where it
  -- stopped; a slice that finished or failed is not resumed.
  pub run-add :
      (m n : ℕ) (vm : Vm) (w : W) → run p host (m + n) vm w ≡ resume p host n (run p host m vm w)
  run-add zero n vm w = elim (Bool-cases vm.finished) [
    | inl h ↦
        rw add.zero (run_finished n vm w h ∙ ap (resume p host n) (sym (run_finished zero vm w h)))
    | inr h ↦ rw add.zero (sym (ap (resume p host n) (run_exhausted vm w h)))
  ]
  run-add (suc m) n vm w = elim (Bool-cases vm.finished) [
    | inl h ↦
        run_finished (suc m + n) vm w h ∙ ap (resume p host n) (sym (run_finished (suc m) vm w h))
    | inr h ↦ rw add.suc (
        run_active (m + n) vm w h
        ∙ resume-after_step m n (step p host vm w) (run-add m n)
        ∙ ap (resume p host n) (sym (run_active m vm w h)))
  ]

-- What a slice of `n` instructions begun in `vm` leaves behind, by the status it returns.
abbrev pub Ends : {W : Type 0} → ℕ → Vm → RunResult W → Type 0
Ends n vm (done finished vm' w) = (vm'.finished ≡ true) × (vm'.total ≤ vm.total + n)
Ends n vm (done yielded vm' w) =
    (vm'.finished ≡ false)
    × (vm'.total ≡ vm.total + n)
    × (vm'.error ≡ vm.error)
    × (length vm'.globals ≡ length vm.globals)
Ends n vm (done error vm' w) =
    (vm'.finished ≡ true) × (vm'.total < vm.total + n) × (vm'.error ≢ none)
Ends n vm undefined_run = Unit {0}

module _ {W : Type 0} (p : Program) (host : Option (HostFunction W)) where
  -- An instruction leaves the count, a recorded error and the number of globals alone.
  abbrev Kept : Vm → Vm → Type 0
  Kept v vm = (vm.total ≡ v.total) × (vm.error ≡ v.error) × (length vm.globals ≡ length v.globals)

  abbrev Keeps : Vm → Outcome W (Unit {0}) → Type 0
  Keeps v (ok _ vm w) = Kept v vm
  Keeps v (fault e vm w) = Kept v vm
  Keeps v undefined = Unit {0}

  invoke_host-Keeps :
      (name : Bytes) (args : List Value) (vm : Vm) (w : W)
      → Keeps vm (invoke_host host name args vm w)
  invoke_host-Keeps name args vm w = ground arith

  call_host-Keeps :
      (name : Option Bytes) (b : ℤ) (vm : Vm) (w : W) → Keeps vm (call_host host name b vm w)
  call_host-Keeps none b vm w = (refl, refl, refl)
  call_host-Keeps (some name) (negsuc n) vm w = (refl, refl, refl)
  call_host-Keeps (some name) (pos n) vm w = elim (dec_le n (length vm.stack)) [
    | yes h ↦ rw (call_named_lem host name n vm w h) (invoke_host-Keeps name _ _ w)
    | no h ↦ ground arith
  ]

  store_global-Keeps :
      (stack : List Value) (slot : ℤ) (vm : Vm) (w : W)
      → Keeps vm ((pop_value >>= store_global slot) (record vm { stack = stack }) w)
  store_global-Keeps [] slot vm w = (refl, refl, refl)
  store_global-Keeps (v ∷ stack) (negsuc n) vm w = (refl, refl, refl)
  store_global-Keeps (v ∷ stack) (pos n) vm w = ground (arith, length-set vm.globals n v)

  exec-Keeps : (op : Op) (a b : ℤ) (vm : Vm) (w : W) → Keeps vm (exec p host op a b vm w)
  unfolding exec
  exec-Keeps Op.push_const a b vm w = ground arith
  exec-Keeps Op.call_host a b vm w = call_host-Keeps (name_at p.host_names a) b vm w
  exec-Keeps Op.store_global a b vm w = store_global-Keeps vm.stack a vm w
  exec-Keeps _ a b vm w = ground arith

  step-Keeps : (vm : Vm) (w : W) → Keeps vm (step p host vm w)
  unfolding step
  step-Keeps vm w = elim (Option-cases (get_elem? p.code vm.ip)) [
    | inl e ↦ rw e (refl, refl, refl)
    | inr (i, e) ↦ rw e (exec-Keeps i.op i.a i.b (record vm { ip = vm.ip + 1 }) w)
  ]

  after_step-Ends :
      (n : ℕ) (vm : Vm) (r : Outcome W (Unit {0}))
      → vm.total + suc n < 2 ^ 64
      → Keeps vm r
      → ((vm' : Vm) (w : W) → vm'.total + n < 2 ^ 64 → Ends n vm' (run p host n vm' w))
      → Ends (suc n) vm (after_step (run p host n) r)
  after_step-Ends n vm (ok _ vm' w) fits k ih =
      grow (run p host n (count_step vm') w) (ih (count_step vm') w (omega arith))
    where
      grow : (r : RunResult W) → Ends n (count_step vm') r → Ends (suc n) vm r
      grow (done finished v u) e = (e.0, omega arith)
      grow (done yielded v u) e = (e.0, omega arith, e.2 ∙ k.1, e.3 ∙ k.2)
      grow (done error v u) e = (e.0, omega arith, e.2)
      grow undefined_run e = tt
  after_step-Ends n vm (fault e vm' w) fits k ih = (refl, omega arith, λ q. cc)
  after_step-Ends n vm undefined fits k ih = tt

  -- A slice with a budget of `n` instructions, on a count that does not wrap, ends in one of these
  -- ways: the handler is finished after at most `n` counted instructions; it yields, unfinished,
  -- after exactly `n`; or a fault stops it for good and is recorded, after fewer than `n`. Nothing
  -- is said where it comes to an overflow or another state that C++ leaves undefined.
  pub run-Ends : (n : ℕ) (vm : Vm) (w : W) → vm.total + n < 2 ^ 64 → Ends n vm (run p host n vm w)
  run-Ends zero vm w fits = elim (Bool-cases vm.finished) [
    | inl h ↦ rw (run_finished p host zero vm w h) (h, omega arith)
    | inr h ↦ rw (run_exhausted p host vm w h) (h, omega arith, refl, refl)
  ]
  run-Ends (suc n) vm w fits = elim (Bool-cases vm.finished) [
    | inl h ↦ rw (run_finished p host (suc n) vm w h) (h, omega arith)
    | inr h ↦
        rw (run_active p host n vm w h)
          (after_step-Ends n vm (step p host vm w) fits (step-Keeps vm w) (run-Ends n))
  ]
