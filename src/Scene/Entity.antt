-- ===== src/Scene/Entity.antt =====
-- The permissions of an object, and their updates by an agent.
use homeworldz.Common.{ℕ, Bool, true, false, List, ◌&&◌, ◌||◌, not, ◌==◌, if◌then◌else◌}
use homeworldz.Common.Int.{ℤ}
use homeworldz.Common.Bytes.{Bytes, bytes_eq}
use homeworldz.Common.Bits.{has_bit, with_bit, without_bit}
use homeworldz.Scene.Masks.{mask_and, mask_or, mask_without}

-- The bits of `permission_transfer`, `permission_modify`, `permission_copy`, `permission_export` and
-- `permission_move`.
abbrev pub transfer_bit : ℕ
transfer_bit = 13

abbrev pub modify_bit : ℕ
modify_bit = 14

abbrev pub copy_bit : ℕ
copy_bit = 15

abbrev pub export_bit : ℕ
export_bit = 16

abbrev pub move_bit : ℕ
move_bit = 19

-- `(mask & permission_all) == permission_all`
abbrev pub has_all : ℕ → Bool
has_all mask =
    has_bit transfer_bit mask
    && has_bit modify_bit mask
    && has_bit copy_bit mask
    && has_bit move_bit mask

abbrev pub permission_creator : ℕ
permission_creator =
    with_bit transfer_bit
      (with_bit modify_bit (with_bit copy_bit (with_bit export_bit (with_bit move_bit 0))))

-- The members that the operations on permissions read or write, and the sale.
pub record TaskInventoryItem : Type 0 where
  pub name : Bytes
  pub description : Bytes
  pub flags : ℕ
  pub base_permissions : ℕ
  pub current_permissions : ℕ
  pub group_permissions : ℕ
  pub everyone_permissions : ℕ
  pub next_permissions : ℕ
  pub sale_type : ℕ
  pub sale_price : ℤ

-- The members of an object that the operations here read or write, with its velocity. Left out are
-- object_id, creator_id, creation_date, description and task_inventory_serial, the position and the
-- rotation within a linkset, and the shape with its physics. `V` is the type of vectors.
pub record Entity (V : Type 0) : Type 0 where
  pub id : ℕ
  pub name : Bytes
  pub position : V
  pub velocity : V
  pub owner_id : Bytes
  pub base_permissions : ℕ
  pub owner_permissions : ℕ
  pub group_permissions : ℕ
  pub everyone_permissions : ℕ
  pub next_owner_permissions : ℕ
  pub parent_id : ℕ
  pub task_inventory : List TaskInventoryItem

abbrev pub changed : Bool → ℕ → ℕ → ℕ
changed set mask value = if set then mask_or value mask else mask_without value mask

abbrev pub with_move : ℕ → ℕ
with_move next = if next == 0 then next else with_bit move_bit next

abbrev pub with_transfer : ℕ → ℕ
with_transfer next = if has_bit copy_bit next then next else with_bit transfer_bit next

-- The case of each field, with false where the update is refused.
module _ {V : Type 0} where
  unfoldable pub update_owner : Bool → ℕ → Entity V → Entity V × Bool
  update_owner set mask e =
      let owner =
        with_bit move_bit (mask_and (changed set mask e.owner_permissions) e.base_permissions) in
      if not (without_bit move_bit (without_bit modify_bit mask) == 0) then (e, false) else (
        record e {
          owner_permissions = owner;
          group_permissions = mask_and e.group_permissions owner;
          everyone_permissions = mask_and e.everyone_permissions owner;
        },
        true,
      )

  unfoldable pub update_group : Bool → ℕ → Entity V → Entity V × Bool
  update_group set mask e =
      if not (without_bit modify_bit (without_bit move_bit (without_bit copy_bit mask)) == 0)
      then (e, false)
      else (
        record e {
          group_permissions = mask_and (changed set mask e.group_permissions) e.owner_permissions;
        },
        true,
      )

  -- Whether everyone may be given the right to export.
  abbrev pub may_export : Entity V → Bool
  may_export e =
      has_bit export_bit e.base_permissions
      && has_bit export_bit e.owner_permissions
      && has_all e.next_owner_permissions

  unfoldable pub update_everyone : Bool → ℕ → Entity V → Entity V × Bool
  update_everyone set mask e =
      if not (without_bit move_bit (without_bit copy_bit (without_bit export_bit mask)) == 0)
      then (e, false)
      else (if set && has_bit export_bit mask && not (may_export e) then (e, false) else (
        record e {
          everyone_permissions =
              without_bit modify_bit
                (mask_and (changed set mask e.everyone_permissions) e.owner_permissions);
        },
        true,
      ))

  unfoldable pub update_next_owner : Bool → ℕ → Entity V → Entity V × Bool
  update_next_owner set mask e =
      let next =
        with_transfer
          (with_move (mask_and (changed set mask e.next_owner_permissions) e.base_permissions)) in
      if not (without_bit modify_bit (without_bit copy_bit (without_bit transfer_bit mask)) == 0)
      then (e, false)
      else (
        record e {
          next_owner_permissions = next;
          everyone_permissions =
              if has_all next
              then e.everyone_permissions
              else without_bit export_bit e.everyone_permissions;
        },
        true,
      )

  -- Of the field's numbers, 1 is the base permissions, which are never changed.
  unfoldable pub update_field : ℕ → Bool → ℕ → Entity V → Entity V × Bool
  update_field field set mask e =
      if field == 2
      then update_owner set mask e
      else (if field == 4
          then update_group set mask e
          else (if field == 8
              then update_everyone set mask e
              else (if field == 16 then update_next_owner set mask e else (e, false))))

  -- The object after an update, and whether the update was taken.
  unfoldable pub apply_permission_update : Entity V → Bytes → ℕ → Bool → ℕ → Entity V × Bool
  apply_permission_update e agent_id field set mask =
      if not (bytes_eq agent_id e.owner_id) || mask == 0
      then (e, false)
      else update_field field set mask e
