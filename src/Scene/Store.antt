-- ===== src/Scene/Store.antt =====
-- The objects of a region by their ids, as the class `Scene` keeps them.
use Prim.Native.Nat.{max}
use homeworldz.Common.{
  ℕ, ◌+◌, ◌-◌, ◌%◌, ◌^◌, Bool, true, false, Option, none, some, List, [], ◌∷◌, ◌||◌, ◌==◌,
  if◌then◌else◌,
}
use homeworldz.Common.Bytes.{Bytes}
use homeworldz.Common.Bits.{with_bit}
use homeworldz.Scene.Entity.{Entity, permission_creator}

abbrev pub max_id : ℕ
max_id = 2 ^ 64 - 1

abbrev pub permission_all : ℕ
permission_all = with_bit 13 (with_bit 14 (with_bit 15 (with_bit 19 0)))

abbrev pub next_count : ℕ → ℕ
next_count n = (n + 1) % 2 ^ 64

module _ {V : Type 0} where
  -- A new object, with the defaults of its members.
  abbrev pub new_entity : ℕ → Bytes → V → V → Entity V
  new_entity id name position velocity = record {
    id = id;
    name = name;
    position = position;
    velocity = velocity;
    owner_id = [];
    base_permissions = permission_creator;
    owner_permissions = permission_creator;
    group_permissions = 0;
    everyone_permissions = 0;
    next_owner_permissions = permission_all;
    parent_id = 0;
    task_inventory = [];
  }

  unfoldable pub find_in : ℕ → List (ℕ × Entity V) → Option (Entity V)
  find_in id [] = none
  find_in id ((k, e) ∷ es) = if k == id then some e else find_in id es

  -- An object that is there stays.
  abbrev pub emplace : ℕ → Entity V → List (ℕ × Entity V) → List (ℕ × Entity V)
  emplace id e es = elim (find_in id es) [ none ↦ (id, e) ∷ es | some other ↦ es ]

  unfoldable pub erase : ℕ → List (ℕ × Entity V) → List (ℕ × Entity V)
  erase id [] = []
  erase id ((k, e) ∷ es) = if k == id then es else (k, e) ∷ erase id es

pub record Scene (V : Type 0) : Type 0 where
  pub next_id : ℕ
  pub revision : ℕ
  pub simulation_steps : ℕ
  pub entities : List (ℕ × Entity V)

pub data RestoreError : Type 0 where
  id_out_of_range : RestoreError
  duplicate_id : RestoreError
  invalid_parent : RestoreError
  nested_links : RestoreError

pub data Restored (A : Type 0) : Type 0 where
  refused : RestoreError → Restored A
  accepted : A → Restored A

module _ {V : Type 0} where
  unfoldable pub find : Scene V → ℕ → Option (Entity V)
  find s id = find_in id s.entities

  -- The scene with a new object, and the object's id.
  unfoldable pub create : Scene V → Bytes → V → V → Scene V × ℕ
  create s name position velocity =
      let id = s.next_id in
      (
        record s {
          next_id = next_count id;
          revision = next_count s.revision;
          entities = emplace id (new_entity id name position velocity) s.entities;
        },
        id,
      )

  unfoldable pub remove : Scene V → ℕ → Scene V × Bool
  remove s id = elim (find_in id s.entities) [
    | none ↦ (s, false)
    | some e ↦ (record s { revision = next_count s.revision; entities = erase id s.entities }, true)
  ]

  -- Each position, moved by the velocity in some seconds.
  unfoldable pub move_all : (V → V → V) → List (ℕ × Entity V) → List (ℕ × Entity V)
  move_all advance [] = []
  move_all advance ((k, e) ∷ es) =
      (k, record e { position = advance e.position e.velocity }) ∷ move_all advance es

  unfoldable pub step : (V → V → V) → Scene V → Scene V
  step advance s = record s {
    entities = move_all advance s.entities;
    simulation_steps = next_count s.simulation_steps;
    revision = next_count s.revision;
  }

  -- The first loop of `restore`: the next id, and the objects by their ids.
  unfoldable pub collect :
      ℕ → List (ℕ × Entity V) → List (Entity V) → Restored (ℕ × List (ℕ × Entity V))
  collect next found [] = accepted (next, found)
  collect next found (e ∷ es) =
      let rest = collect (max next (e.id + 1)) ((e.id, e) ∷ found) es in
      if e.id == 0 || e.id == max_id
      then refused id_out_of_range
      else elim (find_in e.id found) [ none ↦ rest | some other ↦ refused duplicate_id ]

  abbrev pub parent_error : ℕ → Entity V → Option (Entity V) → Option RestoreError
  parent_error id e none = some invalid_parent
  parent_error id e (some parent) =
      if e.parent_id == id
      then some invalid_parent
      else (if parent.parent_id == 0 then none else some nested_links)

  abbrev pub link_error : List (ℕ × Entity V) → ℕ → Entity V → Option RestoreError
  link_error found id e =
      if e.parent_id == 0 then none else parent_error id e (find_in e.parent_id found)

  -- The second loop, over the objects in any order.
  unfoldable pub links_error : List (ℕ × Entity V) → List (ℕ × Entity V) → Option RestoreError
  links_error found [] = none
  links_error found ((id, e) ∷ es) = elim (link_error found id e) [
    | some error ↦ some error
    | none ↦ links_error found es
  ]

  abbrev pub with_links : ℕ → ℕ → List (ℕ × Entity V) → Option RestoreError → Restored (Scene V)
  with_links revision next found (some error) = refused error
  with_links revision next found none =
      accepted
        (record { next_id = next; revision = revision; simulation_steps = 0; entities = found })

  abbrev pub with_collected : ℕ → Restored (ℕ × List (ℕ × Entity V)) → Restored (Scene V)
  with_collected revision (refused error) = refused error
  with_collected revision (accepted (next, found)) =
      with_links revision next found (links_error found found)

  unfoldable pub restore : ℕ → List (Entity V) → Restored (Scene V)
  restore revision entities = with_collected revision (collect 1 [] entities)
