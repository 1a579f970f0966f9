-- ===== src/Scene/Calls.antt =====
-- The class `Scene` as a map from ids to objects: a row of calls, answered as on the map.
use homeworldz.Common.{
  ℕ, ◌+◌, ◌≤◌, ◌≡◌, refl, ap, sym, ◌∙◌, Bool, true, false, Option, none, some, List, [], ◌∷◌, arith,
  ◌==◌, ==_iff, if◌then◌else◌, Bool-cases, inl, inr,
}
use homeworldz.Common.Bytes.{Bytes}
use homeworldz.Scene.Entity.{Entity}
use homeworldz.Scene.Store.{new_entity, find_in, erase, move_all, Scene, create, remove, step}
use homeworldz.Scene.Restore.{is_some}

pub data Call (V : Type 0) : Type 0 where
  creates : Bytes → V → V → Call V
  removes : ℕ → Call V
  steps : (V → V → V) → Call V

pub data Answer : Type 0 where
  created : ℕ → Answer
  removed : Bool → Answer
  stepped : Answer

module _ {V : Type 0} where
  abbrev pub handle : Call V → Scene V → Scene V × Answer
  handle (creates name position velocity) s =
      let r = create s name position velocity in (r.0, created r.1)
  handle (removes id) s = let r = remove s id in (r.0, removed r.1)
  handle (steps advance) s = (step advance s, stepped)

  unfoldable pub handle_all : List (Call V) → Scene V → Scene V × List Answer
  handle_all [] s = (s, [])
  handle_all (c ∷ cs) s =
      let once = handle c s in let rest = handle_all cs once.0 in (rest.0, once.1 ∷ rest.1)

  -- An object with its position moved.
  abbrev pub moved : (V → V → V) → Option (Entity V) → Option (Entity V)
  moved advance none = none
  moved advance (some e) = some (record e { position = advance e.position e.velocity })

-- The id of the next object, and the objects by their ids.
abbrev pub Objects : Type 0 → Type 0
Objects V = ℕ × (ℕ → Option (Entity V))

module _ {V : Type 0} where
  abbrev pub meant : Call V → Objects V → Objects V × Answer
  meant (creates name position velocity) (next, f) = (
    (next + 1, λ id. if next == id then some (new_entity next name position velocity) else f id),
    created next,
  )
  meant (removes k) (next, f) =
      ((next, λ id. if k == id then none else f id), removed (is_some (f k)))
  meant (steps advance) (next, f) = ((next, λ id. moved advance (f id)), stepped)

  unfoldable pub meant_all : List (Call V) → Objects V → Objects V × List Answer
  meant_all [] o = (o, [])
  meant_all (c ∷ cs) o =
      let once = meant c o in let rest = meant_all cs once.0 in (rest.0, once.1 ∷ rest.1)

  abbrev pub KeysDistinct : List (ℕ × Entity V) → Type 0
  KeysDistinct [] = Unit {0}
  KeysDistinct ((k, e) ∷ es) = (find_in k es ≡ none) × KeysDistinct es

  -- A scene has these objects, all with ids below the next one, and no id twice.
  pub record Shows (s : Scene V) (o : Objects V) : Type 0 where
    pub next : s.next_id ≡ o.0
    pub same : (id : ℕ) → find_in id s.entities ≡ o.1 id
    pub below : (id : ℕ) → s.next_id ≤ id → find_in id s.entities ≡ none
    pub distinct : KeysDistinct s.entities

pub find_in-erase :
    {V : Type 0} (k id : ℕ) (es : List (ℕ × Entity V))
    → KeysDistinct es
    → find_in id (erase k es) ≡ (if k == id then none else find_in id es)
unfolding find_in erase
find_in-erase k id [] d = ground arith
find_in-erase k id ((j, e) ∷ es) d = elim (Bool-cases (j == k)) [
  | inl q ↦ elim (Bool-cases (k == id)) [
    | inl r ↦ rw (q, r) (ap (λ i. find_in i es) (sym ((==_iff j k).0 q ∙ (==_iff k id).0 r)) ∙ d.0)
    | inr r ↦ let other : (j == id) ≡ false = ground (arith, q, r) in rw (q, r, other) refl
  ]
  | inr q ↦ elim (Bool-cases (j == id)) [
    | inl r ↦ let other : (k == id) ≡ false = ground (arith, q, r) in rw (q, r, other) refl
    | inr r ↦ rw (q, r) (find_in-erase k id es d.1)
  ]
]

pub erase-KeysDistinct :
    {V : Type 0} (k : ℕ) (es : List (ℕ × Entity V)) → KeysDistinct es → KeysDistinct (erase k es)
unfolding erase
erase-KeysDistinct k [] d = tt
erase-KeysDistinct k ((j, e) ∷ es) d = elim (Bool-cases (j == k)) [
  | inl q ↦ rw q d.1
  | inr q ↦ rw q (
    find_in-erase k j es d.1 ∙ (if_none (k == j) (find_in j es) d.0),
    erase-KeysDistinct k es d.1,
  )
]
  where
    if_none : {A : Type 0} (b : Bool) (o : Option A) → o ≡ none → (if b then none else o) ≡ none
    if_none true o h = refl
    if_none false o h = h

pub find_in-move_all :
    {V : Type 0} (advance : V → V → V) (id : ℕ) (es : List (ℕ × Entity V))
    → find_in id (move_all advance es) ≡ moved advance (find_in id es)
unfolding find_in move_all
find_in-move_all advance id [] = refl
find_in-move_all advance id ((j, e) ∷ es) = elim (Bool-cases (j == id)) [
  | inl q ↦ rw q refl
  | inr q ↦ rw q (find_in-move_all advance id es)
]

pub move_all-KeysDistinct :
    {V : Type 0} (advance : V → V → V) (es : List (ℕ × Entity V))
    → KeysDistinct es
    → KeysDistinct (move_all advance es)
unfolding move_all
move_all-KeysDistinct advance [] d = tt
move_all-KeysDistinct advance ((j, e) ∷ es) d =
    (find_in-move_all advance j es ∙ ap (moved advance) d.0, move_all-KeysDistinct advance es d.1)
