-- ===== src/Scene/Tests.antt =====
-- A chair with a note in it, linked to a table.
use homeworldz.Common.{ℕ, List, none, ◌+◌, ◌<◌, ◌≡◌, refl, true, false, [], ◌∷◌, ◌&&◌, arith}
use homeworldz.Common.Int.{pos}
use homeworldz.Common.Bytes.{Bytes, codes}
use homeworldz.Common.Bits.{has_bit, has_bit-with_bit, has_bit-zero}
use homeworldz.Scene.Entity.{Entity, TaskInventoryItem}
use homeworldz.Scene.Granted.{IsGuarded, Update, apply_all, any_by, updates-IsGuarded}
use homeworldz.Scene.Effective.{effective_linkset}
use homeworldz.Scene.Bitwise.{of_next_owner, side_of, all_parts, allows, has_bit-effective_linkset}
use homeworldz.Scene.Effective.{apply_task_inventory_update}
use homeworldz.Scene.Items.{IsGranted, is_unfit, update-IsGranted}
use homeworldz.Scene.Calls.{
  Call, creates, removes, steps, created, removed, stepped, handle_all, Objects, meant_all, Shows,
}
use homeworldz.Scene.Maps.{handle_all-Shows}
use homeworldz.Scene.Store.{
  find_in, create, remove, step, erase, move_all, Scene, RestoreError, refused, accepted,
  new_entity, find, restore,
}
use homeworldz.Scene.Restore.{is_some, entity_of, ids_valid, links_valid, restore_refines}

abbrev owner : Bytes
owner = codes "a3"

abbrev table : Entity ℕ
table = record (new_entity 1 (codes "table") 0 0) { owner_id = owner }

abbrev note : TaskInventoryItem
note = record {
  name = codes "note";
  description = [];
  flags = 0;
  base_permissions = 647168;
  current_permissions = 647168;
  group_permissions = 0;
  everyone_permissions = 0;
  next_permissions = 16384;
  sale_type = 0;
  sale_price = pos 0;
}

abbrev chair : Entity ℕ
chair = record (new_entity 2 (codes "chair") 0 0) {
  owner_id = owner;
  parent_id = 1;
  task_inventory = note ∷ [];
}

table-IsGuarded : IsGuarded table
table-IsGuarded = record {
  owner_within = λ i h. rw (has_bit-with_bit i 19 table.base_permissions) (ground (arith, h));
  group_within = λ i h. absurd (ground (arith, h, has_bit-zero i));
  everyone_within = λ i h. absurd (ground (arith, h, has_bit-zero i));
  export_next = λ h. absurd (ground (arith, h, has_bit-zero 16));
}

abbrev share : Update
share = record { agent_id = owner; field = 8; is_set = true; mask = 32768 }

abbrev steal : Update
steal = record { agent_id = codes "b4"; field = 2; is_set = false; mask = 16384 }

updates-IsGuarded_example :
    IsGuarded (apply_all table (share ∷ steal ∷ []))
    × ((apply_all table (share ∷ steal ∷ [])).base_permissions ≡ table.base_permissions)
    × (any_by owner (share ∷ steal ∷ []) ≡ false → apply_all table (share ∷ steal ∷ []) ≡ table)
updates-IsGuarded_example = updates-IsGuarded table (share ∷ steal ∷ []) table-IsGuarded

has_bit-effective_linkset_example :
    has_bit 15 (side_of of_next_owner (effective_linkset ((2, chair) ∷ (1, table) ∷ []) chair))
    ≡ (true && all_parts 1 (allows of_next_owner 15) ((2, chair) ∷ (1, table) ∷ []) && true)
has_bit-effective_linkset_example =
    has_bit-effective_linkset of_next_owner 15 ((2, chair) ∷ (1, table) ∷ []) chair (omega arith)

furniture_valid :
    (ids_valid (chair ∷ table ∷ [])
      && links_valid (λ p. entity_of p (chair ∷ table ∷ [])) (chair ∷ table ∷ []))
    ≡ true
unfolding ids_valid links_valid entity_of
furniture_valid = refl

restore_refines_example :
    ((ids_valid (chair ∷ table ∷ [])
          && links_valid (λ p. entity_of p (chair ∷ table ∷ [])) (chair ∷ table ∷ []))
        ≡ true
      → (s : Scene ℕ) × (restore 7 (chair ∷ table ∷ []) ≡ accepted s)
        × (s.revision ≡ 7)
        × ((id : ℕ) → find s id ≡ entity_of id (chair ∷ table ∷ []))
        × ((id : ℕ) → is_some (find s id) ≡ true → id < s.next_id))
    × ((ids_valid (chair ∷ table ∷ [])
            && links_valid (λ p. entity_of p (chair ∷ table ∷ [])) (chair ∷ table ∷ []))
          ≡ false
        → (error : RestoreError) × (restore 7 (chair ∷ table ∷ []) ≡ refused error))
restore_refines_example = restore_refines 7 (chair ∷ table ∷ [])

update-IsGranted_example :
    (is_unfit (codes "pad") [] 0 (pos 5) ≡ true
      → apply_task_inventory_update note (codes "pad") [] 0 16384 0 32768 16384 0 (pos 5)
        ≡ (note, false))
    × (is_unfit (codes "pad") [] 0 (pos 5) ≡ false
        → (updated : TaskInventoryItem) × (apply_task_inventory_update note
              (codes "pad")
              []
              0
              16384
              0
              32768
              16384
              0
              (pos 5)
            ≡ (updated, true))
          × (updated.base_permissions ≡ note.base_permissions)
          × IsGranted updated)
update-IsGranted_example = update-IsGranted note (codes "pad") [] 0 16384 0 32768 16384 0 (pos 5)

abbrev empty_room : Scene ℕ
empty_room = record { next_id = 1; revision = 0; simulation_steps = 0; entities = [] }

abbrev no_objects : Objects ℕ
no_objects = (1, λ id. none)

empty_room-Shows : Shows empty_room no_objects
unfolding find_in
empty_room-Shows = record { next = refl; same = λ id. refl; below = λ id g. refl; distinct = tt }

abbrev room_calls : List (Call ℕ)
room_calls =
    creates (codes "table") 5 1
    ∷ creates (codes "lamp") 7 0
    ∷ steps (λ p v. p + v)
    ∷ removes 2
    ∷ removes 2
    ∷ []

room_answers :
    (handle_all room_calls empty_room).1
    ≡ created 1 ∷ created 2 ∷ stepped ∷ removed true ∷ removed false ∷ []
unfolding handle_all create remove step find_in erase move_all
room_answers = refl

handle_all-Shows_example :
    ((handle_all room_calls empty_room).1 ≡ (meant_all room_calls no_objects).1)
    × Shows (handle_all room_calls empty_room).0 (meant_all room_calls no_objects).0
handle_all-Shows_example =
    handle_all-Shows room_calls empty_room no_objects empty_room-Shows (omega arith)
