-- ===== src/Parcel/Survivors.antt =====
-- The parcels that a joining leaves.
use homeworldz.Common.{
  ℕ, ◌≡◌, refl, ap, sym, ◌∙◌, Bool, true, false, List, [], ◌∷◌, ◌||◌, ◌&&◌, not, arith, ◌==◌,
  ==_iff, if◌then◌else◌, Bool-cases, inl, inr,
}
use homeworldz.Common.Bytes.{Bytes}
use homeworldz.Parcel.Set.{Parcel, ParcelSet}
use homeworldz.Parcel.Edit.{is_touched, add_touched, update_bitmap, remove_if, is_removed}
use homeworldz.Parcel.Grid.{Grid, Each, has_id, IdsDistinct, IsDrawn, Maps}
use homeworldz.Parcel.Joining.{bit_get-add_touched}

has_id-update_bitmap :
    (k n : ℕ) (f : Bytes → Bytes) (ps : List Parcel) → has_id k (update_bitmap n f ps) ≡ has_id k ps
unfolding has_id update_bitmap
has_id-update_bitmap k n f [] = refl
has_id-update_bitmap k n f (p ∷ ps) = elim (Bool-cases (p.local_id == n)) [
  | inl b ↦ rw b refl
  | inr b ↦ rw (b, has_id-update_bitmap k n f ps) refl
]

removed_too :
    (k master : ℕ) (ns : List ℕ) (p : Parcel) (more : Bool)
    → is_removed master ns p ≡ true
    → (more && not (not (k == master) && is_touched k ns))
      ≡ ((p.local_id == k || more) && not (not (k == master) && is_touched k ns))
removed_too k master ns p more b = elim (Bool-cases (p.local_id == k)) [
  | inl q ↦
      let same : (not (k == master) && is_touched k ns) ≡ true =
        ap (λ j. not (j == master) && is_touched j ns) (sym ((==_iff p.local_id k).0 q)) ∙ b in
      rw same (ground arith)
  | inr q ↦ rw q refl
]

kept_too :
    (k master : ℕ) (ns : List ℕ) (p : Parcel) (more : Bool)
    → is_removed master ns p ≡ false
    → (p.local_id == k || (more && not (not (k == master) && is_touched k ns)))
      ≡ ((p.local_id == k || more) && not (not (k == master) && is_touched k ns))
kept_too k master ns p more b = elim (Bool-cases (p.local_id == k)) [
  | inl q ↦
      let same : (not (k == master) && is_touched k ns) ≡ false =
        ap (λ j. not (j == master) && is_touched j ns) (sym ((==_iff p.local_id k).0 q)) ∙ b in
      rw same (ground arith)
  | inr q ↦ rw q refl
]

has_id-remove_if :
    (k master : ℕ) (ns : List ℕ) (ps : List Parcel)
    → has_id k (remove_if (is_removed master ns) ps)
      ≡ (has_id k ps && not (not (k == master) && is_touched k ns))
unfolding has_id remove_if
has_id-remove_if k master ns [] = refl
has_id-remove_if k master ns (p ∷ ps) = elim (Bool-cases (is_removed master ns p)) [
  | inl b ↦ rw (b, has_id-remove_if k master ns ps) (removed_too k master ns p (has_id k ps) b)
  | inr b ↦ rw (b, has_id-remove_if k master ns ps) (kept_too k master ns p (has_id k ps) b)
]

IdsDistinct-update_bitmap :
    (n : ℕ) (f : Bytes → Bytes) (ps : List Parcel)
    → IdsDistinct ps
    → IdsDistinct (update_bitmap n f ps)
unfolding update_bitmap
IdsDistinct-update_bitmap n f [] h = tt
IdsDistinct-update_bitmap n f (p ∷ ps) h = elim (Bool-cases (p.local_id == n)) [
  | inl b ↦ rw b h
  | inr b ↦
      rw b (has_id-update_bitmap p.local_id n f ps ∙ h.0, IdsDistinct-update_bitmap n f ps h.1)
]

IdsDistinct-remove_if :
    (master : ℕ) (ns : List ℕ) (ps : List Parcel)
    → IdsDistinct ps
    → IdsDistinct (remove_if (is_removed master ns) ps)
unfolding remove_if
IdsDistinct-remove_if master ns [] h = tt
IdsDistinct-remove_if master ns (p ∷ ps) h = elim (Bool-cases (is_removed master ns p)) [
  | inl b ↦ rw b (IdsDistinct-remove_if master ns ps h.1)
  | inr b ↦ rw b (
    has_id-remove_if p.local_id master ns ps ∙ ground (arith, h.0),
    IdsDistinct-remove_if master ns ps h.1,
  )
]

module _ (P Q : Parcel → Type 0) (master : ℕ) (ns : List ℕ)
    (kept : (p : Parcel)
      → (p.local_id == master) ≡ false
      → is_touched p.local_id ns ≡ false
      → P p
      → Q p) where
  Each-others :
      (ps : List Parcel)
      → has_id master ps ≡ false
      → Each P ps
      → Each Q (remove_if (is_removed master ns) ps)
  unfolding remove_if has_id
  Each-others [] e h = tt
  Each-others (p ∷ ps) e h = elim (Bool-cases (is_touched p.local_id ns)) [
    | inl b ↦ rw (b, has_other e) (Each-others ps (ground (arith, e)) h.1)
    | inr b ↦
        rw (b, has_other e) (kept p (has_other e) b h.0, Each-others ps (ground (arith, e)) h.1)
  ]
    where
      has_other :
          (p.local_id == master || has_id master ps) ≡ false → (p.local_id == master) ≡ false
      has_other e = ground (arith, e)

  Each-survivors :
      (f : Bytes → Bytes) (ps : List Parcel)
      → ((p : Parcel) → (p.local_id == master) ≡ true → P p → Q (record p { bitmap = f p.bitmap }))
      → IdsDistinct ps
      → Each P ps
      → Each Q (remove_if (is_removed master ns) (update_bitmap master f ps))
  unfolding remove_if update_bitmap
  Each-survivors f [] changed d h = tt
  Each-survivors f (p ∷ ps) changed d h = elim (Bool-cases (p.local_id == master)) [
    | inl b ↦
        rw (b, b)
          (
            changed p b h.0,
            Each-others ps (ap (λ k. has_id k ps) (sym ((==_iff p.local_id master).0 b)) ∙ d.0) h.1,
          )
    | inr b ↦ elim (Bool-cases (is_touched p.local_id ns)) [
      | inl t ↦ rw (b, b, t) (Each-survivors f ps changed d.1 h.1)
      | inr t ↦ rw (b, b, t) (kept p b t h.0, Each-survivors f ps changed d.1 h.1)
    ]
  ]

-- The parcels that were touched become the surviving one, and nothing else of the grid changes.
pub joined-Maps :
    (s : ParcelSet) (grid : Grid) (master : ℕ) (ns : List ℕ)
    → Maps grid s
    → is_touched master ns ≡ true
    → has_id master s.parcels ≡ true
    → Maps
        (λ c. if is_touched (grid c) ns then master else grid c)
        (record s {
          parcels =
              remove_if
                (is_removed master ns)
                (update_bitmap master (add_touched s.edge_cells s.parcels master ns) s.parcels);
        })
joined-Maps s grid master ns m t e =
    let edge = s.edge_cells in
    let last = s.last_local_id in
    let f = add_touched edge s.parcels master ns in
    let joined : Grid = λ c. if is_touched (grid c) ns then master else grid c in
    record {
      drawn =
          Each-survivors (IsDrawn edge grid last) (IsDrawn edge joined last) master ns
            (λ p o r h. (
              λ c i. h.0 c i ∙ elim (Bool-cases (is_touched (grid c) ns)) [
                | inl q ↦ rw q (
                    ground (
                      arith,
                      o,
                      λ (b : (grid c == p.local_id) ≡ true).
                          sym r
                          ∙ ap (λ j. is_touched j ns) (sym ((==_iff (grid c) p.local_id).0 b))
                          ∙ q,
                    ))
                | inr q ↦ rw q refl
              ],
              h.1,
            ))
            f s.parcels
            (λ p o h. (
              λ c i.
                  bit_get-add_touched s grid master ns p.bitmap c m i
                  ∙ elim (Bool-cases (is_touched (grid c) ns)) [
                    | inl q ↦ rw q (ground (arith, o, h.0 c i))
                    | inr q ↦ rw q (ground (arith, h.0 c i))
                  ],
              h.1,
            ))
            m.distinct m.drawn;
      taken = λ c i.
          has_id-remove_if (joined c) master ns (update_bitmap master f s.parcels)
          ∙ rw (has_id-update_bitmap (joined c) master f s.parcels)
              (elim (Bool-cases (is_touched (grid c) ns)) [
                | inl q ↦ rw (q, e) (ground arith)
                | inr q ↦ rw (q, m.taken c i, q) (ground arith)
              ]);
      distinct =
          IdsDistinct-remove_if master ns (update_bitmap master f s.parcels)
            (IdsDistinct-update_bitmap master f s.parcels m.distinct);
    }
