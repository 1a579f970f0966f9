-- ===== src/Scene/Effective.antt =====
-- The update of an item in an object, and the permissions that an object and a linkset have in effect.
use homeworldz.Common.{
  ℕ, Bool, true, false, List, [], ◌∷◌, ◌&&◌, ◌||◌, ltb, ◌==◌, length, if◌then◌else◌,
}
use homeworldz.Common.Int.{ℤ, pos, ltb_ℤ}
use homeworldz.Common.Bytes.{Bytes}
use homeworldz.Common.Bits.{has_bit, with_bit, without_bit}
use homeworldz.Scene.Masks.{mask_and}
use homeworldz.Scene.Entity.{Entity, TaskInventoryItem, has_all, permission_creator}

-- `value |= permission & base`, for one permission.
abbrev pub with_bit_of : ℕ → ℕ → ℕ → ℕ
with_bit_of bit base value = if has_bit bit base then with_bit bit value else value

abbrev pub is_item_refused : Bytes → Bytes → ℕ → ℤ → Bool
is_item_refused name description sale_type sale_price =
    ltb 255 (length name)
    || ltb 255 (length description)
    || ltb 3 sale_type
    || ltb_ℤ sale_price (pos 0)

-- The item after an update, and whether the update was taken.
unfoldable pub apply_task_inventory_update :
    TaskInventoryItem → Bytes → Bytes → ℕ → ℕ → ℕ → ℕ → ℕ → ℕ → ℤ → TaskInventoryItem × Bool
apply_task_inventory_update item name description flags owner group everyone next sale_type
      sale_price =
    let base = item.base_permissions in
    let current = with_bit_of 19 base (mask_and owner base) in
    let masked = mask_and next base in
    let moved = if masked == 0 then masked else with_bit_of 19 base masked in
    let passed = if has_bit 15 moved then moved else with_bit_of 13 base moved in
    let visible = without_bit 14 (mask_and everyone current) in
    if is_item_refused name description sale_type sale_price then (item, false) else (
      record item {
        name = name;
        description = description;
        flags = flags;
        current_permissions = current;
        group_permissions = mask_and group current;
        everyone_permissions = if has_all passed then visible else without_bit 16 visible;
        next_permissions = passed;
        sale_type = sale_type;
        sale_price = sale_price;
      },
      true,
    )

pub record EffectivePermissions : Type 0 where
  pub owner : ℕ
  pub next_owner : ℕ

abbrev pub kept_if : Bool → ℕ → ℕ → ℕ
kept_if test bit mask = if test then mask else without_bit bit mask

-- One round of the inner loop.
abbrev pub restrict : TaskInventoryItem → ℕ → EffectivePermissions → EffectivePermissions
restrict item bit result = record {
  owner = kept_if (has_bit bit item.current_permissions) bit result.owner;
  next_owner =
      kept_if (has_bit bit item.current_permissions && has_bit bit item.next_permissions) bit
        result.next_owner;
}

unfoldable pub restrict_all : List TaskInventoryItem → EffectivePermissions → EffectivePermissions
restrict_all [] result = result
restrict_all (item ∷ items) result =
    restrict_all items (restrict item 13 (restrict item 15 (restrict item 14 result)))

-- `(mask & restricted) == restricted`
abbrev pub is_unrestricted : ℕ → Bool
is_unrestricted mask = has_bit 14 mask && has_bit 15 mask && has_bit 13 mask

abbrev pub without_export : EffectivePermissions → EffectivePermissions
without_export result = record {
  owner = kept_if (is_unrestricted result.owner) 16 result.owner;
  next_owner = kept_if (is_unrestricted result.next_owner) 16 result.next_owner;
}

module _ {V : Type 0} where
  unfoldable pub effective_permissions : Entity V → EffectivePermissions
  effective_permissions e = without_export (
      restrict_all e.task_inventory
        (record { owner = e.owner_permissions; next_owner = e.next_owner_permissions }))

  abbrev pub is_part : ℕ → ℕ → Entity V → Bool
  is_part root_id id e = id == root_id || e.parent_id == root_id

  unfoldable pub combine : ℕ → List (ℕ × Entity V) → EffectivePermissions → EffectivePermissions
  combine root_id [] result = result
  combine root_id ((id, e) ∷ es) result =
      let part = effective_permissions e in
      combine root_id es (
        if is_part root_id id e
        then record {
          owner = mask_and result.owner part.owner;
          next_owner = mask_and result.next_owner part.next_owner;
        }
        else result)

  abbrev pub root_of : Entity V → ℕ
  root_of selected = if selected.parent_id == 0 then selected.id else selected.parent_id

  unfoldable pub effective_linkset : List (ℕ × Entity V) → Entity V → EffectivePermissions
  effective_linkset entities selected = without_export (
      combine (root_of selected) entities
        (record { owner = permission_creator; next_owner = permission_creator }))
