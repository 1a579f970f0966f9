-- ===== src/Parcel/Refines.antt =====
-- The division of a parcel, as an operation on the grid of the local ids that own the region's cells.
use homeworldz.Common.{
  ℕ, zero, suc, ◌*◌, ◌<◌, ◌≡◌, refl, sym, ◌∙◌, Bool, true, false, none, some, List, [], ◌∷◌, ◌&&◌,
  not, arith, ◌==◌, ==_iff, if◌then◌else◌, Bool-cases, Option-cases, inl, inr, get_elem?,
}
use homeworldz.Common.Bytes.{Bytes}
use homeworldz.Parcel.Bitmap.{Cell, Rect, cells_of, whole}
use homeworldz.Parcel.Bits.{inside, bit_get-inside}
use homeworldz.Parcel.Cells.{in_rect, has_cell-cells_of}
use homeworldz.Parcel.Set.{Parcel, ParcelSet}
use homeworldz.Parcel.Count.{any_if}
use homeworldz.Parcel.Edit.{
  Corners, one_parcel, divided, divide_rect, divide, corner_rect, is_refused,
}
use homeworldz.Parcel.Grid.{Grid, Each, IsDrawn, Maps, one_parcel-covers, first_containing_lem}
use homeworldz.Parcel.Division.{painted, divided-Maps}
use homeworldz.Parcel.Divide.{
  all_if, start, may_divide, all_if-has_cell, all_if-intro, IsProper, corner_rect-IsProper,
  area-same, one_parcel-some, first_containing-owner, first_containing-has_id,
}

pub Each-get_elem? :
    (P : Parcel → Type 0) (i : ℕ) (ps : List Parcel) (p : Parcel)
    → Each P ps
    → get_elem? ps i ≡ some p
    → P p
Each-get_elem? P i [] p h g = absurd cc
Each-get_elem? P zero (q ∷ ps) p h g = let same : q ≡ p = cc in (rw (← same) h.0)
Each-get_elem? P (suc i) (q ∷ ps) p h g = Each-get_elem? P i ps p h.1 g

-- A rectangle that one parcel has, cell by cell.
found-within :
    (s : ParcelSet) (grid : Grid) (r : Rect) (i : ℕ) (source : Parcel)
    → Maps grid s
    → one_parcel s.edge_cells s.parcels none (cells_of r) ≡ some i
    → get_elem? s.parcels i ≡ some source
    → (c : Cell) → in_rect r c ≡ true
    → grid c ≡ source.local_id
found-within s grid r i source m found there c e =
    let edge = s.edge_cells in
    let bit =
      first_containing_lem edge i c s.parcels source
        (one_parcel-covers edge i s.parcels none (cells_of r) c found (has_cell-cells_of r c ∙ e))
        there in
    let draws =
      Each-get_elem? (IsDrawn edge grid s.last_local_id) i s.parcels source m.drawn there in
    (==_iff (grid c) source.local_id).0
      (sym (draws.0 c (bit_get-inside source.bitmap edge c bit)) ∙ bit)

start-in_rect : (edge : ℕ) (r : Rect) → IsProper edge r → in_rect r (start r) ≡ true
unfolding IsProper
start-in_rect edge r h = ground (arith, h.0, h.1)

in_rect-inside :
    (edge : ℕ) (r : Rect) (c : Cell) → IsProper edge r → in_rect r c ≡ true → inside edge c ≡ true
unfolding IsProper
in_rect-inside edge r (x, y) h e = ground (arith, h.2, h.3, e)

abbrev owned_by : Grid → ℕ → Cell → Bool
owned_by grid n c = grid c == n

abbrev owned_outside : Grid → ℕ → Rect → Cell → Bool
owned_outside grid n r c = owned_by grid n c && not (in_rect r c)

module _ (s : ParcelSet) (grid : Grid) (global_id owner_id : Bytes) (claim_date : ℕ) where
  divide_rect-made :
      (r : Rect) (i : ℕ) (source : Parcel)
      → Maps grid s
      → IsProper s.edge_cells r
      → one_parcel s.edge_cells s.parcels none (cells_of r) ≡ some i
      → get_elem? s.parcels i ≡ some source
      → divide_rect s r global_id owner_id claim_date ≡ (
          if any_if (owned_outside grid source.local_id r) (cells_of (whole s.edge_cells))
          then some (divided s r global_id owner_id claim_date i)
          else none)
  unfolding divide_rect
  divide_rect-made r i source m proper found there =
      rw
        (
          found,
          there,
          area-same s grid r source proper
              (Each-get_elem? (IsDrawn s.edge_cells grid s.last_local_id) i s.parcels source m.drawn
                there).0
              (found-within s grid r i source m found there),
        )
        (ground arith)

  one_parcel-found :
      (r : Rect)
      → Maps grid s
      → IsProper s.edge_cells r
      → all_if (owned_by grid (grid (start r))) (cells_of r) ≡ true
      → (i : ℕ) × (source : Parcel) × (one_parcel s.edge_cells s.parcels none (cells_of r) ≡ some i)
        × (get_elem? s.parcels i ≡ some source)
  one_parcel-found r m proper all =
      let edge = s.edge_cells in
      let last = s.last_local_id in
      let here = in_rect-inside edge r (start r) proper (start-in_rect edge r proper) in
      let first =
        first_containing-has_id edge grid last s.parcels (start r) m.drawn here
          (m.taken (start r) here) in
      (
        first.0,
        first.1,
        one_parcel-some edge first.0 s.parcels (cells_of r) (start r)
            (λ d e.
              first_containing-owner edge grid last s.parcels d (start r) m.drawn
                (in_rect-inside edge r d proper (sym (has_cell-cells_of r d) ∙ e)) here
                ((==_iff (grid d) (grid (start r))).0
                  (all_if-has_cell (owned_by grid (grid (start r))) (cells_of r) d all e))
              ∙ first.2)
            (has_cell-cells_of r (start r) ∙ start-in_rect edge r proper),
        first.3,
      )

  divide_rect-allowed :
      (r : Rect)
      → Maps grid s
      → IsProper s.edge_cells r
      → all_if (owned_by grid (grid (start r))) (cells_of r) ≡ true
      → any_if (owned_outside grid (grid (start r)) r) (cells_of (whole s.edge_cells)) ≡ true
      → (t : ParcelSet) × (divide_rect s r global_id owner_id claim_date
          ≡ some (t, suc s.last_local_id))
        × Maps (painted r (suc s.last_local_id) grid) t
  divide_rect-allowed r m proper all more =
      let edge = s.edge_cells in
      let (i, source, found, there) = one_parcel-found r m proper all in
      let within = found-within s grid r i source m found there in
      let same = within (start r) (start-in_rect edge r proper) in
      (
        (divided s r global_id owner_id claim_date i).0,
        divide_rect-made r i source m proper found there ∙ rw (← same, more) refl,
        divided-Maps s grid r global_id owner_id claim_date i source m there within,
      )

  divide_rect-refused :
      (r : Rect)
      → Maps grid s
      → IsProper s.edge_cells r
      → (all_if (owned_by grid (grid (start r))) (cells_of r)
          && any_if (owned_outside grid (grid (start r)) r) (cells_of (whole s.edge_cells)))
        ≡ false
      → divide_rect s r global_id owner_id claim_date ≡ none
  unfolding divide_rect
  divide_rect-refused r m proper e =
      elim (Option-cases (one_parcel s.edge_cells s.parcels none (cells_of r))) [
        | inl n ↦ rw n refl
        | inr (i, found) ↦ elim (Option-cases (get_elem? s.parcels i)) [
          | inl n ↦ rw (found, n) refl
          | inr (source, there) ↦
              let within = found-within s grid r i source m found there in
              let same = within (start r) (start-in_rect s.edge_cells r proper) in
              let all = all_if-intro (owned_by grid (grid (start r))) (cells_of r) (λ c h.
                (==_iff (grid c) (grid (start r))).1
                  (within c (sym (has_cell-cells_of r c) ∙ h) ∙ sym same)) in
              (divide_rect-made r i source m proper found there ∙ rw (← same, (rw all at e)) refl)
        ]
      ]

  pub divide-Grid :
      (k : Corners)
      → Maps grid s
      → (may_divide s.edge_cells grid k ≡ true
          → (t : ParcelSet) × (divide s k global_id owner_id claim_date
              ≡ some (t, suc s.last_local_id))
            × Maps (λ c. if in_rect (corner_rect k) c then suc s.last_local_id else grid c) t)
        × (may_divide s.edge_cells grid k ≡ false → divide s k global_id owner_id claim_date ≡ none)
  unfolding divide
  divide-Grid k m = elim (Bool-cases (is_refused s.edge_cells k)) [
    | inl q ↦ (λ e. absurd (ground (arith, q, e)), λ e. rw q refl)
    | inr q ↦
        let r = corner_rect k in
        let proper = corner_rect-IsProper s.edge_cells k q in
        (
          λ e. rw q (divide_rect-allowed r m proper (ground (arith, q, e)) (ground (arith, q, e))),
          λ e. rw q (divide_rect-refused r m proper (ground (arith, q, e))),
        )
  ]

  -- In a region whose cells have owners, of fewer than 2 ^ 31 square metres and with a last local id
  -- below 2 ^ 31 - 1, a division is the one that the grid of owners allows, and no other: if the
  -- corners are in the region and the rectangle is not empty, one parcel has all of it and has a cell
  -- outside it, the rectangle becomes a parcel of its own with a new local id below 2 ^ 31, which is
  -- returned, and nothing else of the grid changes; if not, the division is refused.
  pub divide_refines :
      (k : Corners)
      → Maps grid s
      → s.last_local_id < 2_147_483_647
      → s.edge_cells * s.edge_cells * 16 < 2_147_483_648
      → (may_divide s.edge_cells grid k ≡ true
          → (t : ParcelSet) × (divide s k global_id owner_id claim_date
              ≡ some (t, suc s.last_local_id))
            × (suc s.last_local_id < 2_147_483_648)
            × Maps (λ c. if in_rect (corner_rect k) c then suc s.last_local_id else grid c) t)
        × (may_divide s.edge_cells grid k ≡ false → divide s k global_id owner_id claim_date ≡ none)
  divide_refines k m room small =
      let (allowed, refused) = divide-Grid k m in
      ((λ e. let (t, made, maps) = allowed e in (t, made, omega arith, maps)), refused)
