-- ===== src/Script/Vm/Dispatch.antt =====
-- What `VM::dispatch` leaves behind.
use homeworldz.Common.{
  ℕ, zero, suc, ◌+◌, ◌≡◌, refl, ap, true, false, Option, none, some, List, [], ◌∷◌, map, arith,
  length, take, length-replicate, if_both, Bool-cases, inl, inr, ◌==◌,
}
use homeworldz.Common.Int.{pos}
use homeworldz.Common.Bytes.{Bytes}
use homeworldz.Common.Words.{to_size}
use homeworldz.Script.Bytecode.{
  ValueType, Value, int, type_of, type_eq, EventEntry, Program, find_event,
}
use homeworldz.Script.Vm.State.{Vm}
use homeworldz.Script.Vm.Step.{
  Dispatched, positioned, refused, first_mismatch, seed, position, check_types, dispatch_to,
  dispatch,
}

-- The arguments stand in the first of `n` slots.
abbrev pub Seeded : List Value → ℕ → Option (List Value) → Type 0
Seeded args n none = Unit {0}
Seeded args n (some locals) = (take (length args) locals ≡ args) × (length locals ≡ n)

seed-Seeded : (args : List Value) (n : ℕ) → Seeded args n (seed args n)
unfolding seed
seed-Seeded [] n = (refl, length-replicate n (int (pos 0)))
seed-Seeded (v ∷ vs) zero = tt
seed-Seeded (v ∷ vs) (suc n) = more (seed vs n) (seed-Seeded vs n)
  where
    more :
        (o : Option (List Value))
        → Seeded vs n o
        → Seeded (v ∷ vs) (suc n) (elim o [ none ↦ none | some rest ↦ some (v ∷ rest) ])
    more none h = tt
    more (some rest) h = (ap (λ r. v ∷ r) h.0, ap suc h.1)

type_eq-eq : (a b : ValueType) → type_eq a b ≡ true → a ≡ b
type_eq-eq a b h = ground arith

first_mismatch-none :
    (i : ℕ) (args : List Value) (types : List ValueType)
    → length args ≡ length types
    → first_mismatch i args types ≡ none
    → map type_of args ≡ types
unfolding first_mismatch
first_mismatch-none i [] [] e h = refl
first_mismatch-none i [] (t ∷ ts) e h = absurd (omega arith)
first_mismatch-none i (v ∷ vs) [] e h = absurd (omega arith)
first_mismatch-none i (v ∷ vs) (t ∷ ts) e h = elim (Bool-cases (type_eq (type_of v) t)) [
  | inl q ↦
      let same : type_of v ≡ t = type_eq-eq (type_of v) t q in
      let rest : map type_of vs ≡ ts =
        first_mismatch-none (i + 1) vs ts (omega arith) (ground (arith, h, q)) in
      cc
  | inr q ↦ ground (arith, h, q)
]

-- The machine stands at the handler of the event, ready to run, with the arguments in its first slots.
abbrev pub AtHandler : EventEntry → List Value → Vm → Vm → Type 0
AtHandler e args vm vm' =
    (map type_of args ≡ e.param_types)
    × (vm'.ip ≡ to_size e.entry_ip)
    × (take (length args) vm'.locals ≡ args)
    × (length vm'.locals ≡ to_size e.local_count)
    × (vm'.globals ≡ vm.globals)
    × (vm'.stack ≡ [])
    × (vm'.finished ≡ false)
    × (vm'.total ≡ vm.total)

abbrev pub Begun : Option EventEntry → List Value → Vm → Dispatched → Type 0
Begun entry args vm (refused error) = Unit {0}
Begun entry args vm (positioned vm') = (e : EventEntry) × (entry ≡ some e) × AtHandler e args vm vm'

position-Begun :
    (e : EventEntry) (args : List Value) (vm : Vm) (o : Option (List Value))
    → map type_of args ≡ e.param_types
    → Seeded args (to_size e.local_count) o
    → Begun (some e) args vm (position e vm o)
unfolding position
position-Begun e args vm none t h = tt
position-Begun e args vm (some locals) t h = (e, refl, (t, refl, h.0, h.1, refl, refl, refl, refl))

check_types-Begun :
    (e : EventEntry) (args : List Value) (vm : Vm) (o : Option ℕ)
    → (o ≡ none → map type_of args ≡ e.param_types)
    → Begun (some e) args vm (check_types e args vm o)
unfolding check_types
check_types-Begun e args vm none t =
    position-Begun e args vm (seed args (to_size e.local_count)) (t refl)
      (seed-Seeded args (to_size e.local_count))
check_types-Begun e args vm (some i) t = tt

dispatch_to-Begun :
    (entry : Option EventEntry) (args : List Value) (vm : Vm)
    → Begun entry args vm (dispatch_to entry args vm)
unfolding dispatch_to
dispatch_to-Begun none args vm = tt
dispatch_to-Begun (some e) args vm =
    if_both (Begun (some e) args vm) (length args == length e.param_types)
      (λ q.
        check_types-Begun e args vm (first_mismatch 1 args e.param_types)
          (first_mismatch-none 1 args e.param_types (ground (arith, q))))
      λ _. tt

-- Where `dispatch` does not throw, the program has a handler of the event whose parameters have the
-- types of the arguments, and the machine stands at its first instruction, unfinished, with the
-- arguments in the first of the handler's slots, an empty stack, and globals and count as before.
pub dispatch-Begun :
    (p : Program) (event : Bytes) (args : List Value) (vm : Vm)
    → Begun (find_event p.events event) args vm (dispatch p event args vm)
unfolding dispatch
dispatch-Begun p event args vm = dispatch_to-Begun (find_event p.events event) args vm
