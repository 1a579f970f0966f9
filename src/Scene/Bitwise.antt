-- ===== src/Scene/Bitwise.antt =====
-- The permissions in effect, bit by bit.
use homeworldz.Common.{
  if◌then◌else◌, ℕ, ◌<◌, ◌≡◌, refl, ap, ◌∙◌, Bool, true, false, List, [], ◌∷◌, ◌&&◌, ◌||◌, not,
  arith, ◌==◌, ==_iff, Bool-cases, inl, inr,
}
use homeworldz.Common.Bits.{has_bit, with_bit, has_bit-without_bit, has_bit-with_bit, has_bit-zero}
use homeworldz.Scene.Masks.{mask_and, has_bit-bitwise}
use homeworldz.Scene.Entity.{Entity, TaskInventoryItem, permission_creator}
use homeworldz.Scene.Effective.{
  EffectivePermissions, kept_if, restrict, restrict_all, is_unrestricted, without_export,
  effective_permissions, is_part, combine, root_of, effective_linkset,
}

-- The two masks of the permissions in effect.
pub data Side : Type 0 where
  of_owner : Side
  of_next_owner : Side

abbrev pub side_of : Side → EffectivePermissions → ℕ
side_of of_owner r = r.owner
side_of of_next_owner r = r.next_owner

abbrev pub item_allows : Side → ℕ → TaskInventoryItem → Bool
item_allows of_owner bit item = has_bit bit item.current_permissions
item_allows of_next_owner bit item =
    has_bit bit item.current_permissions && has_bit bit item.next_permissions

unfoldable pub items_allow : Side → ℕ → List TaskInventoryItem → Bool
items_allow side bit [] = true
items_allow side bit (item ∷ items) = item_allows side bit item && items_allow side bit items

-- The bits that the items of an object limit.
abbrev pub is_limited : ℕ → Bool
is_limited bit = bit == 13 || bit == 14 || bit == 15

module _ {V : Type 0} where
  abbrev pub own_mask : Side → Entity V → ℕ
  own_mask of_owner e = e.owner_permissions
  own_mask of_next_owner e = e.next_owner_permissions

  -- Whether an object's own mask, and for a limited bit all of its items, allow a bit.
  abbrev pub allows : Side → ℕ → Entity V → Bool
  allows side bit e =
      has_bit bit (own_mask side e)
      && (not (is_limited bit) || items_allow side bit e.task_inventory)

  -- Whether an object is the root of a linkset or is linked to it.
  abbrev pub in_linkset : ℕ → ℕ → Entity V → Bool
  in_linkset root_id id e = id == root_id || e.parent_id == root_id

  -- The root of the linkset of an object.
  abbrev pub linkset_of : Entity V → ℕ
  linkset_of selected = if selected.parent_id == 0 then selected.id else selected.parent_id

  -- Whether a test holds of all parts of a linkset.
  unfoldable pub all_parts : ℕ → (Entity V → Bool) → List (ℕ × Entity V) → Bool
  all_parts root_id test [] = true
  all_parts root_id test ((id, e) ∷ es) =
      (not (in_linkset root_id id e) || test e) && all_parts root_id test es

has_bit-kept_if :
    (b bit mask : ℕ) (test : Bool)
    → has_bit b (kept_if test bit mask) ≡ (has_bit b mask && (test || not (b == bit)))
has_bit-kept_if b bit mask true = ground arith
has_bit-kept_if b bit mask false = has_bit-without_bit b bit mask ∙ ground arith

has_bit-restrict :
    (side : Side) (b bit : ℕ) (item : TaskInventoryItem) (r : EffectivePermissions)
    → has_bit b (side_of side (restrict item bit r))
      ≡ (has_bit b (side_of side r) && (item_allows side bit item || not (b == bit)))
has_bit-restrict of_owner b bit item r =
    has_bit-kept_if b bit r.owner (has_bit bit item.current_permissions)
has_bit-restrict of_next_owner b bit item r =
    has_bit-kept_if b bit r.next_owner
      (has_bit bit item.current_permissions && has_bit bit item.next_permissions)

has_bit-restrict_all :
    (side : Side) (b : ℕ) (items : List TaskInventoryItem) (r : EffectivePermissions)
    → has_bit b (side_of side (restrict_all items r))
      ≡ (has_bit b (side_of side r) && (not (is_limited b) || items_allow side b items))
unfolding restrict_all items_allow
has_bit-restrict_all side b [] r = ground arith
has_bit-restrict_all side b (item ∷ items) r =
    let first = restrict item 14 r in
    let second = restrict item 15 first in
    rw
      (
        has_bit-restrict_all side b items (restrict item 13 second),
        has_bit-restrict side b 13 item second,
        has_bit-restrict side b 15 item first,
        has_bit-restrict side b 14 item r,
      )
      (ground (
        arith,
        λ (q : (b == 13) ≡ true). ap (λ k. item_allows side k item) ((==_iff b 13).0 q),
        λ (q : (b == 14) ≡ true). ap (λ k. item_allows side k item) ((==_iff b 14).0 q),
        λ (q : (b == 15) ≡ true). ap (λ k. item_allows side k item) ((==_iff b 15).0 q),
      ))

has_bit-without_export :
    (side : Side) (b : ℕ) (r : EffectivePermissions)
    → has_bit b (side_of side (without_export r))
      ≡ (has_bit b (side_of side r) && (is_unrestricted (side_of side r) || not (b == 16)))
has_bit-without_export of_owner b r = has_bit-kept_if b 16 r.owner (is_unrestricted r.owner)
has_bit-without_export of_next_owner b r =
    has_bit-kept_if b 16 r.next_owner (is_unrestricted r.next_owner)

own_of : {V : Type 0} → Entity V → EffectivePermissions
own_of e = record { owner = e.owner_permissions; next_owner = e.next_owner_permissions }

own_side : {V : Type 0} (side : Side) (e : Entity V) → side_of side (own_of e) ≡ own_mask side e
unfolding own_of
own_side of_owner e = refl
own_side of_next_owner e = refl

has_bit-limited :
    {V : Type 0} (side : Side) (b : ℕ) (e : Entity V)
    → has_bit b (side_of side (restrict_all e.task_inventory (own_of e))) ≡ allows side b e
has_bit-limited side b e =
    has_bit-restrict_all side b e.task_inventory (own_of e) ∙ rw (own_side side e) refl

-- Exporting takes the three limited permissions too.
with_limited : (ℕ → Bool) → ℕ → Bool
with_limited f b = f b && (not (b == 16) || (f 14 && f 15 && f 13))

has_bit-effective_permissions :
    {V : Type 0} (side : Side) (b : ℕ) (e : Entity V)
    → has_bit b (side_of side (effective_permissions e)) ≡ with_limited (λ k. allows side k e) b
unfolding effective_permissions own_of with_limited
has_bit-effective_permissions side b e =
    has_bit-without_export side b (restrict_all e.task_inventory (own_of e))
    ∙ rw
        (
          has_bit-limited side b e,
          has_bit-limited side 14 e,
          has_bit-limited side 15 e,
          has_bit-limited side 13 e,
        )
        (ground arith)

part_step :
    {V : Type 0} (side : Side) (b : ℕ) (e : Entity V) (r : EffectivePermissions)
    → b < 32
    → has_bit b (
        side_of side (record {
          owner = mask_and r.owner (effective_permissions e).owner;
          next_owner = mask_and r.next_owner (effective_permissions e).next_owner;
        }))
      ≡ (has_bit b (side_of side r) && with_limited (λ k. allows side k e) b)
part_step of_owner b e r h =
    has_bit-bitwise (λ p q. p && q) 32 b r.owner (effective_permissions e).owner
    ∙ rw (has_bit-effective_permissions of_owner b e) (ground (arith, h))
part_step of_next_owner b e r h =
    has_bit-bitwise (λ p q. p && q) 32 b r.next_owner (effective_permissions e).next_owner
    ∙ rw (has_bit-effective_permissions of_next_owner b e) (ground (arith, h))

has_bit-combine :
    {V : Type 0} (side : Side) (b root_id : ℕ) (es : List (ℕ × Entity V)) (r : EffectivePermissions)
    → b < 32
    → has_bit b (side_of side (combine root_id es r)) ≡ (
        has_bit b (side_of side r)
        && all_parts root_id (λ e. with_limited (λ k. allows side k e) b) es)
unfolding combine all_parts
has_bit-combine side b root_id [] r h = ground arith
has_bit-combine side b root_id ((id, e) ∷ es) r h = elim (Bool-cases (is_part root_id id e)) [
  | inl q ↦ rw q (
      has_bit-combine side b root_id es
        (record {
          owner = mask_and r.owner (effective_permissions e).owner;
          next_owner = mask_and r.next_owner (effective_permissions e).next_owner;
        })
        h
      ∙ rw (part_step side b e r h) (ground (arith, q)))
  | inr q ↦ rw q (has_bit-combine side b root_id es r h)
]

all_parts-limited :
    {V : Type 0} (side : Side) (b root_id : ℕ) (es : List (ℕ × Entity V))
    → all_parts root_id (λ e. with_limited (λ k. allows side k e) b) es
      ≡ with_limited (λ k. all_parts root_id (allows side k) es) b
unfolding all_parts with_limited
all_parts-limited side b root_id [] = ground arith
all_parts-limited side b root_id ((id, e) ∷ es) =
    rw (all_parts-limited side b root_id es) (ground arith)

whole : EffectivePermissions
whole = record { owner = permission_creator; next_owner = permission_creator }

creator_bit : (b : ℕ) → has_bit b permission_creator ≡ (is_limited b || b == 16 || b == 19)
creator_bit b =
    rw
      (
        has_bit-with_bit b 13 (with_bit 14 (with_bit 15 (with_bit 16 (with_bit 19 0)))),
        has_bit-with_bit b 14 (with_bit 15 (with_bit 16 (with_bit 19 0))),
        has_bit-with_bit b 15 (with_bit 16 (with_bit 19 0)),
        has_bit-with_bit b 16 (with_bit 19 0),
        has_bit-with_bit b 19 0,
        has_bit-zero b,
      )
      (ground arith)

whole_bit :
    (side : Side) (b : ℕ) → has_bit b (side_of side whole) ≡ (is_limited b || b == 16 || b == 19)
unfolding whole
whole_bit of_owner b = creator_bit b
whole_bit of_next_owner b = creator_bit b

has_bit-whole :
    {V : Type 0} (side : Side) (b root_id : ℕ) (es : List (ℕ × Entity V))
    → b < 32
    → has_bit b (side_of side (combine root_id es whole)) ≡ (
        (is_limited b || b == 16 || b == 19)
        && (all_parts root_id (allows side b) es
            && (not (b == 16)
                || (all_parts root_id (allows side 14) es
                    && all_parts root_id (allows side 15) es
                    && all_parts root_id (allows side 13) es))))
unfolding with_limited
has_bit-whole side b root_id es h =
    has_bit-combine side b root_id es whole h
    ∙ rw (whole_bit side b, all_parts-limited side b root_id es) refl

-- A linkset's permissions in effect, of the owner or of the next owner, have a bit exactly if it is one
-- of the five named permissions and every part of the linkset has it, in its own mask and, for the
-- rights to transfer, to modify and to copy, in all of the items in it; and to export all parts and
-- items must have these three as well. The parts are the root and the objects linked to it, of an object
-- selected anywhere in the linkset, in any order.
pub has_bit-effective_linkset :
    {V : Type 0} (side : Side) (b : ℕ) (es : List (ℕ × Entity V)) (selected : Entity V)
    → b < 32
    → has_bit b (side_of side (effective_linkset es selected)) ≡ (
        (is_limited b || b == 16 || b == 19)
        && all_parts (linkset_of selected) (allows side b) es
        && (not (b == 16)
            || (all_parts (linkset_of selected) (allows side 13) es
                && all_parts (linkset_of selected) (allows side 14) es
                && all_parts (linkset_of selected) (allows side 15) es)))
unfolding effective_linkset whole
has_bit-effective_linkset side b es selected h =
    let root_id = root_of selected in
    has_bit-without_export side b (combine root_id es whole)
    ∙ rw
        (
          has_bit-whole side b root_id es h,
          has_bit-whole side 14 root_id es (omega arith),
          has_bit-whole side 15 root_id es (omega arith),
          has_bit-whole side 13 root_id es (omega arith),
        )
        (ground arith)
