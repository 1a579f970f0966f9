-- ===== src/Scene/Granted.antt =====
-- What updates keep of the permissions of an object.
use homeworldz.Common.{
  ℕ, ◌≡◌, refl, ap, ◌∙◌, Bool, true, false, List, [], ◌∷◌, ◌&&◌, ◌||◌, not, arith, ◌==◌, if_both,
  Bool-cases, inl, inr,
}
use homeworldz.Common.Bytes.{Bytes, bytes_eq}
use homeworldz.Common.Bits.{has_bit, with_bit, without_bit, has_bit-without_bit}
use homeworldz.Scene.Masks.{
  mask_and, has_bit-bitwise, Within, Within-trans, mask_and-Within, mask_and-Within_first,
  without_bit-Within, with_bit-Within,
}
use homeworldz.Scene.Entity.{
  Entity, has_all, changed, may_export, with_move, with_transfer, update_owner, update_group,
  update_everyone, update_next_owner, update_field, apply_permission_update,
}

-- The rights to transfer, to modify, to copy and to move.
abbrev pub is_full : ℕ → Bool
is_full mask = has_bit 13 mask && has_bit 14 mask && has_bit 15 mask && has_bit 19 mask

-- The owner may do at most what the base allows, and move; the group and everyone may do at most what
-- the owner may; and everyone may export only if the next owner gets full permissions.
pub record IsGuarded {V : Type 0} (e : Entity V) : Type 0 where
  pub owner_within : Within e.owner_permissions (with_bit 19 e.base_permissions)
  pub group_within : Within e.group_permissions e.owner_permissions
  pub everyone_within : Within e.everyone_permissions e.owner_permissions
  pub export_next :
      has_bit 16 e.everyone_permissions ≡ true → is_full e.next_owner_permissions ≡ true

-- Guarded, with the base and the owner as they were.
abbrev Keeps : {V : Type 0} → Entity V → Entity V → Type 0
Keeps e e' = IsGuarded e' × (e'.base_permissions ≡ e.base_permissions) × (e'.owner_id ≡ e.owner_id)

module _ {V : Type 0} (e : Entity V) (set : Bool) (mask : ℕ) (g : IsGuarded e) where
  update_owner-Keeps : Keeps e (update_owner set mask e).0
  unfolding update_owner
  update_owner-Keeps =
      let owner =
        with_bit 19 (mask_and (changed set mask e.owner_permissions) e.base_permissions) in
      if_both (λ (r : Entity V × Bool). Keeps e r.0)
        (not (without_bit 19 (without_bit 14 mask) == 0)) (λ q. (g, refl, refl))
        (λ q. (
          record {
            owner_within =
                with_bit-Within 19
                  (mask_and (changed set mask e.owner_permissions) e.base_permissions)
                  e.base_permissions
                  (mask_and-Within (changed set mask e.owner_permissions) e.base_permissions);
            group_within = mask_and-Within e.group_permissions owner;
            everyone_within = mask_and-Within e.everyone_permissions owner;
            export_next =
                λ h. g.export_next (mask_and-Within_first e.everyone_permissions owner 16 h);
          },
          refl,
          refl,
        ))

  update_group-Keeps : Keeps e (update_group set mask e).0
  unfolding update_group
  update_group-Keeps =
      if_both (λ (r : Entity V × Bool). Keeps e r.0)
        (not (without_bit 14 (without_bit 19 (without_bit 15 mask)) == 0)) (λ q. (g, refl, refl))
        (λ q. (
          record {
            owner_within = g.owner_within;
            group_within =
                mask_and-Within (changed set mask e.group_permissions) e.owner_permissions;
            everyone_within = g.everyone_within;
            export_next = g.export_next;
          },
          refl,
          refl,
        ))

  exported :
      (set && has_bit 16 mask && not (may_export e)) ≡ false
      → has_bit 16
          (without_bit 14 (mask_and (changed set mask e.everyone_permissions) e.owner_permissions))
        ≡ true
      → has_all e.next_owner_permissions ≡ true
  exported q h =
      let value = changed set mask e.everyone_permissions in
      let changed_bit : has_bit 16 value ≡ true = ground (
        arith,
        h,
        has_bit-without_bit 16 14 (mask_and value e.owner_permissions),
        has_bit-bitwise (λ p q. p && q) 32 16 value e.owner_permissions,
      ) in
      elim (Bool-cases set) [
        | inl s ↦ elim (Bool-cases (has_bit 16 mask)) [
          | inl b ↦ ground (arith, q, s, b)
          | inr b ↦ g.export_next (
              ground (
                arith,
                b,
                rw s at changed_bit,
                has_bit-bitwise (λ p q. p || q) 32 16 e.everyone_permissions mask,
              ))
        ]
        | inr s ↦ g.export_next (
            ground (
              arith,
              rw s at changed_bit,
              has_bit-bitwise (λ p q. p && not q) 32 16 e.everyone_permissions mask,
            ))
      ]

  update_everyone-Keeps : Keeps e (update_everyone set mask e).0
  unfolding update_everyone
  update_everyone-Keeps =
      let everyone = mask_and (changed set mask e.everyone_permissions) e.owner_permissions in
      if_both (λ (r : Entity V × Bool). Keeps e r.0)
        (not (without_bit 19 (without_bit 15 (without_bit 16 mask)) == 0)) (λ q. (g, refl, refl))
        (λ q.
          if_both (λ (r : Entity V × Bool). Keeps e r.0)
            (set && has_bit 16 mask && not (may_export e)) (λ q'. (g, refl, refl))
            (λ q'. (
              record {
                owner_within = g.owner_within;
                group_within = g.group_within;
                everyone_within =
                    Within-trans (without_bit 14 everyone) everyone e.owner_permissions
                      (without_bit-Within 14 everyone)
                      (mask_and-Within (changed set mask e.everyone_permissions)
                        e.owner_permissions);
                export_next = exported q';
              },
              refl,
              refl,
            )))

  update_next_owner-Keeps : Keeps e (update_next_owner set mask e).0
  unfolding update_next_owner
  update_next_owner-Keeps =
      let next =
        with_transfer
          (with_move (mask_and (changed set mask e.next_owner_permissions) e.base_permissions)) in
      if_both (λ (r : Entity V × Bool). Keeps e r.0)
        (not (without_bit 14 (without_bit 15 (without_bit 13 mask)) == 0)) (λ q. (g, refl, refl))
        (λ q. elim (Bool-cases (has_all next)) [
          | inl full ↦ rw full (
            record {
              owner_within = g.owner_within;
              group_within = g.group_within;
              everyone_within = g.everyone_within;
              export_next = λ h. full;
            },
            refl,
            refl,
          )
          | inr less ↦ rw less (
            record {
              owner_within = g.owner_within;
              group_within = g.group_within;
              everyone_within =
                  Within-trans (without_bit 16 e.everyone_permissions) e.everyone_permissions
                    e.owner_permissions (without_bit-Within 16 e.everyone_permissions)
                    g.everyone_within;
              export_next =
                  λ h. absurd (ground (arith, h, has_bit-without_bit 16 16 e.everyone_permissions));
            },
            refl,
            refl,
          )
        ])

update_field-Keeps :
    {V : Type 0} (e : Entity V) (field : ℕ) (set : Bool) (mask : ℕ)
    → IsGuarded e
    → Keeps e (update_field field set mask e).0
unfolding update_field
update_field-Keeps {V} e field set mask g =
    if_both (λ (r : Entity V × Bool). Keeps e r.0) (field == 2)
      (λ q. update_owner-Keeps e set mask g)
      (λ q.
        if_both (λ (r : Entity V × Bool). Keeps e r.0) (field == 4)
          (λ q. update_group-Keeps e set mask g)
          (λ q.
            if_both (λ (r : Entity V × Bool). Keeps e r.0) (field == 8)
              (λ q. update_everyone-Keeps e set mask g)
              (λ q.
                if_both (λ (r : Entity V × Bool). Keeps e r.0) (field == 16)
                  (λ q. update_next_owner-Keeps e set mask g) (λ q. (g, refl, refl)))))

pub record Update : Type 0 where
  pub agent_id : Bytes
  pub field : ℕ
  pub is_set : Bool
  pub mask : ℕ

module _ {V : Type 0} where
  -- The object after some updates, one after the other.
  unfoldable pub apply_all : Entity V → List Update → Entity V
  apply_all e [] = e
  apply_all e (u ∷ us) =
      apply_all (apply_permission_update e u.agent_id u.field u.is_set u.mask).0 us

unfoldable pub any_by : Bytes → List Update → Bool
any_by owner_id [] = false
any_by owner_id (u ∷ us) = bytes_eq u.agent_id owner_id || any_by owner_id us

apply-Keeps :
    {V : Type 0} (e : Entity V) (u : Update)
    → IsGuarded e
    → Keeps e (apply_permission_update e u.agent_id u.field u.is_set u.mask).0
unfolding apply_permission_update
apply-Keeps {V} e u g =
    if_both (λ (r : Entity V × Bool). Keeps e r.0)
      (not (bytes_eq u.agent_id e.owner_id) || u.mask == 0) (λ q. (g, refl, refl))
      (λ q. update_field-Keeps e u.field u.is_set u.mask g)

apply_stranger :
    {V : Type 0} (e : Entity V) (u : Update)
    → bytes_eq u.agent_id e.owner_id ≡ false
    → apply_permission_update e u.agent_id u.field u.is_set u.mask ≡ (e, false)
unfolding apply_permission_update
apply_stranger e u h = rw h refl

-- After any row of updates of an object whose permissions are guarded, by any agents, they are guarded:
-- the owner may do at most what the base allows, and move; the group and everyone may do at most what
-- the owner may; and everyone may export only if the next owner gets full permissions. The base is as
-- it was, and if none of the agents is the owner the object is as it was.
pub updates-IsGuarded :
    {V : Type 0} (e : Entity V) (us : List Update)
    → IsGuarded e
    → IsGuarded (apply_all e us)
      × ((apply_all e us).base_permissions ≡ e.base_permissions)
      × (any_by e.owner_id us ≡ false → apply_all e us ≡ e)
unfolding apply_all any_by
updates-IsGuarded e [] g = (g, refl, λ h. refl)
updates-IsGuarded e (u ∷ us) g =
    let once = apply-Keeps e u g in
    let next = (apply_permission_update e u.agent_id u.field u.is_set u.mask).0 in
    let rest = updates-IsGuarded next us once.0 in
    (
      rest.0,
      rest.1 ∙ once.1,
      λ h.
          rest.2 (ap (λ o. any_by o us) once.2 ∙ ground (arith, h))
          ∙ ap (λ r. r.0) (apply_stranger e u (ground (arith, h))),
    )
