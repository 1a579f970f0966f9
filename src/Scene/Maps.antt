-- ===== src/Scene/Maps.antt =====
-- A row of calls on a scene, answered as on a map from ids to objects.
use mathlib.Core.Path.{subst}
use homeworldz.Common.{
  ℕ, ◌+◌, ◌^◌, ◌<◌, ◌≤◌, ◌≡◌, refl, ap, sym, ◌∙◌, Bool, true, false, Option, none, some, List, [],
  ◌∷◌, arith, ◌==◌, ==_iff, if◌then◌else◌, Bool-cases, Option-cases, inl, inr, length,
}
use homeworldz.Common.Bytes.{Bytes}
use homeworldz.Scene.Entity.{Entity}
use homeworldz.Scene.Store.{
  new_entity, next_count, find_in, emplace, erase, Scene, create, remove, step,
}
use homeworldz.Scene.Restore.{is_some}
use homeworldz.Scene.Calls.{
  Call, creates, removes, steps, created, removed, handle, handle_all, moved, Objects, meant,
  meant_all, KeysDistinct, Shows, find_in-erase, erase-KeysDistinct, find_in-move_all,
  move_all-KeysDistinct,
}

abbrev Keeps : {V : Type 0} → Call V → Scene V → Objects V → Type 0
Keeps c s o = Shows (handle c s).0 (meant c o).0 × ((handle c s).1 ≡ (meant c o).1)

if_none : {A : Type 0} (b : Bool) (o : Option A) → o ≡ none → (if b then none else o) ≡ none
if_none true o h = refl
if_none false o h = h

at_none :
    {A B : Type 0} (o : Option A) (x : B) (y : A → B)
    → o ≡ none
    → elim o [ none ↦ x | some a ↦ y a ] ≡ x
at_none none x y h = refl
at_none (some a) x y h = absurd (ground (arith, h))

at_some :
    {A B : Type 0} (o : Option A) (x y : B) (a : A)
    → o ≡ some a
    → elim o [ none ↦ x | some b ↦ y ] ≡ y
at_some none x y a h = absurd (ground (arith, h))
at_some (some b) x y a h = refl

module _ {V : Type 0} (s : Scene V) (n : ℕ) (f : ℕ → Option (Entity V)) (m : Shows s (n, f)) where
  creates-Keeps :
      (name : Bytes) (position velocity : V)
      → s.next_id + 1 < 2 ^ 64
      → Keeps (creates name position velocity) s (n, f)
  unfolding create find_in
  creates-Keeps name position velocity h =
      let free = m.below s.next_id (omega arith) in
      let new = new_entity s.next_id name position velocity in
      let counted : next_count s.next_id ≡ s.next_id + 1 = omega (arith, h) in
      let placed : emplace s.next_id new s.entities ≡ (s.next_id, new) ∷ s.entities =
        at_none (find_in s.next_id s.entities) ((s.next_id, new) ∷ s.entities) (λ e. s.entities)
          free in
      (
        record {
          next = counted ∙ ap (λ k. k + 1) m.next;
          same = λ id. ap (find_in id) placed ∙ (λ i.
              if m.next i == id
              then some (new_entity (m.next i) name position velocity)
              else m.same id i);
          below = λ id g.
              let other : (s.next_id == id) ≡ false = ground (arith, g, counted) in
              ap (find_in id) placed ∙ rw other (m.below id (omega (arith, g, counted)));
          distinct = subst KeysDistinct (sym placed) (free, m.distinct);
        },
        ap created m.next,
      )

  removes-Keeps : (k : ℕ) → Keeps (removes k) s (n, f)
  unfolding remove
  removes-Keeps k =
      let less : Scene V = record s {
        revision = next_count s.revision;
        entities = erase k s.entities;
      } in
      elim (Option-cases (find_in k s.entities)) [
        | inl e ↦
            subst
              (λ (r : Scene V × Bool).
                Shows r.0 (meant (removes k) (n, f)).0 × (removed r.1 ≡ removed (is_some (f k))))
              (sym (at_none (find_in k s.entities) (s, false) (λ b. (less, true)) e))
              (
                record {
                  next = m.next;
                  same = λ id. elim (Bool-cases (k == id)) [
                    | inl q ↦ rw q (ap (λ j. find_in j s.entities) (sym ((==_iff k id).0 q)) ∙ e)
                    | inr q ↦ rw q (m.same id)
                  ];
                  below = m.below;
                  distinct = m.distinct;
                },
                ap (λ r. removed (is_some r)) (sym e ∙ m.same k),
              )
        | inr (there, e) ↦
            subst
              (λ (r : Scene V × Bool).
                Shows r.0 (meant (removes k) (n, f)).0 × (removed r.1 ≡ removed (is_some (f k))))
              (sym (at_some (find_in k s.entities) (s, false) (less, true) there e))
              (
                record {
                  next = m.next;
                  same = λ id.
                      find_in-erase k id s.entities m.distinct
                      ∙ ap (λ r. if k == id then none else r) (m.same id);
                  below = λ id g.
                      find_in-erase k id s.entities m.distinct
                      ∙ if_none (k == id) (find_in id s.entities) (m.below id g);
                  distinct = erase-KeysDistinct k s.entities m.distinct;
                },
                ap (λ r. removed (is_some r)) (sym e ∙ m.same k),
              )
      ]

  steps-Keeps : (advance : V → V → V) → Keeps (steps advance) s (n, f)
  unfolding step
  steps-Keeps advance = (
    record {
      next = m.next;
      same = λ id. find_in-move_all advance id s.entities ∙ ap (moved advance) (m.same id);
      below = λ id g. find_in-move_all advance id s.entities ∙ ap (moved advance) (m.below id g);
      distinct = move_all-KeysDistinct advance s.entities m.distinct;
    },
    refl,
  )

handle-Keeps :
    {V : Type 0} (c : Call V) (s : Scene V) (o : Objects V)
    → Shows s o
    → s.next_id + 1 < 2 ^ 64
    → Keeps c s o
handle-Keeps (creates name position velocity) s (n, f) m h =
    creates-Keeps s n f m name position velocity h
handle-Keeps (removes k) s (n, f) m h = removes-Keeps s n f m k
handle-Keeps (steps advance) s (n, f) m h = steps-Keeps s n f m advance

handle-next : {V : Type 0} (c : Call V) (o : Objects V) → (meant c o).0.0 ≤ o.0 + 1
handle-next (creates name position velocity) (n, f) = omega arith
handle-next (removes k) (n, f) = omega arith
handle-next (steps advance) (n, f) = omega arith

-- A row of calls on a scene that shows a map from ids to objects, with fewer calls than there are ids
-- left of 64 bits, is answered as on the map, and leaves a scene that shows the map that is left: a
-- creation gives a new object the next id, which is higher than all ids before, a removal tells whether
-- there was an object, and a step moves all.
pub handle_all-Shows :
    {V : Type 0} (cs : List (Call V)) (s : Scene V) (o : Objects V)
    → Shows s o
    → s.next_id + length cs < 2 ^ 64
    → ((handle_all cs s).1 ≡ (meant_all cs o).1) × Shows (handle_all cs s).0 (meant_all cs o).0
unfolding handle_all meant_all
handle_all-Shows [] s o m h = (refl, m)
handle_all-Shows (c ∷ cs) s o m h =
    let once = handle-Keeps c s o m (omega (arith, h)) in
    let rest =
      handle_all-Shows cs (handle c s).0 (meant c o).0 once.0
        (omega (arith, h, once.0.next, handle-next c o, m.next)) in
    ((λ i. once.1 i ∷ rest.0 i), rest.1)
