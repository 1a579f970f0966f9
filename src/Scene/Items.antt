-- ===== src/Scene/Items.antt =====
-- What an update leaves of the permissions of an item in an object.
use homeworldz.Common.{
  ℕ, ◌≡◌, refl, ap, sym, ◌∙◌, Bool, true, false, ◌&&◌, ◌||◌, not, arith, ltb, length, ◌==◌, ==_iff,
  if◌then◌else◌, Bool-cases, inl, inr,
}
use homeworldz.Common.Int.{ℤ, pos, ltb_ℤ}
use homeworldz.Common.Bytes.{Bytes}
use homeworldz.Common.Bits.{has_bit, without_bit, has_bit-with_bit, has_bit-without_bit}
use homeworldz.Scene.Masks.{mask_and, Within, Within-trans, mask_and-Within, without_bit-Within}
use homeworldz.Scene.Entity.{TaskInventoryItem, has_all}
use homeworldz.Scene.Effective.{with_bit_of, apply_task_inventory_update}
use homeworldz.Scene.Granted.{is_full}

-- The owner and the next owner may do at most what the base allows, the group and everyone at most what
-- the owner may, and everyone may not modify, and may export only if the next owner gets full permissions.
pub record IsGranted (item : TaskInventoryItem) : Type 0 where
  pub owner_within : Within item.current_permissions item.base_permissions
  pub next_within : Within item.next_permissions item.base_permissions
  pub group_within : Within item.group_permissions item.current_permissions
  pub everyone_within : Within item.everyone_permissions item.current_permissions
  pub no_modify : has_bit 14 item.everyone_permissions ≡ false
  pub export_next :
      has_bit 16 item.everyone_permissions ≡ true → is_full item.next_permissions ≡ true

with_bit_of-Within :
    (bit base value : ℕ) → Within value base → Within (with_bit_of bit base value) base
with_bit_of-Within bit base value f i h = elim (Bool-cases (has_bit bit base)) [
  | inl q ↦ elim (Bool-cases (i == bit)) [
    | inl e ↦ ap (λ k. has_bit k base) ((==_iff i bit).0 e) ∙ q
    | inr e ↦ f i (ground (arith, e, rw q at h, has_bit-with_bit i bit value))
  ]
  | inr q ↦ f i (rw q at h)
]

if_Within : (test : Bool) (a b c : ℕ) → Within a c → Within b c → Within (if test then a else b) c
if_Within true a b c f g = f
if_Within false a b c f g = g

visible_bit :
    (test : Bool) (visible b : ℕ)
    → has_bit b (if test then visible else without_bit 16 visible)
      ≡ (has_bit b visible && (test || not (b == 16)))
visible_bit true visible b = ground arith
visible_bit false visible b = has_bit-without_bit b 16 visible ∙ ground arith

-- Texts, a type of sale and a price that an item may not have.
abbrev pub is_unfit : Bytes → Bytes → ℕ → ℤ → Bool
is_unfit name description sale_type sale_price =
    ltb 255 (length name)
    || ltb 255 (length description)
    || ltb 3 sale_type
    || ltb_ℤ sale_price (pos 0)

-- An update of an item is refused, and changes nothing, exactly if the name or the description is longer
-- than 255 bytes, the type of the sale is above 3 or the price is negative. An update that is taken
-- leaves the item granted whatever it was before: the owner and the next owner may do at most what the
-- base allows, which is as it was, the group and everyone at most what the owner may, and everyone may
-- not modify, and may export only if the next owner gets full permissions.
pub update-IsGranted :
    (item : TaskInventoryItem) (name description : Bytes)
    (flags owner group everyone next sale_type : ℕ) (sale_price : ℤ)
    → (is_unfit name description sale_type sale_price ≡ true
        → apply_task_inventory_update item name description flags owner group everyone next
            sale_type sale_price
          ≡ (item, false))
      × (is_unfit name description sale_type sale_price ≡ false
          → (updated : TaskInventoryItem) × (apply_task_inventory_update item name description flags
                owner group everyone next sale_type sale_price
              ≡ (updated, true))
            × (updated.base_permissions ≡ item.base_permissions)
            × IsGranted updated)
unfolding apply_task_inventory_update
update-IsGranted item name description flags owner group everyone next sale_type sale_price =
    let base = item.base_permissions in
    let current = with_bit_of 19 base (mask_and owner base) in
    let masked = mask_and next base in
    let moved = if masked == 0 then masked else with_bit_of 19 base masked in
    let passed = if has_bit 15 moved then moved else with_bit_of 13 base moved in
    let seen = mask_and everyone current in
    let visible = without_bit 14 seen in
    let moved_within : Within moved base =
      if_Within (masked == 0) masked (with_bit_of 19 base masked) base (mask_and-Within next base)
        (with_bit_of-Within 19 base masked (mask_and-Within next base)) in
    let visible_within : Within visible current =
      Within-trans visible seen current (without_bit-Within 14 seen)
        (mask_and-Within everyone current) in
    (
      λ h. rw h refl,
      λ h. (
        record item {
          name = name;
          description = description;
          flags = flags;
          current_permissions = current;
          group_permissions = mask_and group current;
          everyone_permissions = if has_all passed then visible else without_bit 16 visible;
          next_permissions = passed;
          sale_type = sale_type;
          sale_price = sale_price;
        },
        rw h refl,
        refl,
        record {
          owner_within =
              with_bit_of-Within 19 base (mask_and owner base) (mask_and-Within owner base);
          next_within =
              if_Within (has_bit 15 moved) moved (with_bit_of 13 base moved) base moved_within
                (with_bit_of-Within 13 base moved moved_within);
          group_within = mask_and-Within group current;
          everyone_within =
              if_Within (has_all passed) visible (without_bit 16 visible) current visible_within (
                Within-trans (without_bit 16 visible) visible current
                  (without_bit-Within 16 visible) visible_within);
          no_modify =
              visible_bit (has_all passed) visible 14
              ∙ ground (arith, has_bit-without_bit 14 14 seen);
          export_next = λ e. ground (arith, sym (visible_bit (has_all passed) visible 16) ∙ e);
        },
      ),
    )
