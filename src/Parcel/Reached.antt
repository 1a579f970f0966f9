-- ===== src/Parcel/Reached.antt =====
-- The sets of parcels that a new region comes to by divisions and joinings.
use homeworldz.Common.{
  ℕ, zero, suc, ◌*◌, ◌<◌, ◌≡◌, ◌≢◌, refl, ap, sym, ◌∙◌, true, false, some, List, [], ◌∷◌, arith,
  ==_iff, if◌then◌else◌, Bool-cases, Option-cases, inl, inr, get_elem?,
}
use homeworldz.Common.Bytes.{Bytes}
use homeworldz.Parcel.Bitmap.{Rect}
use homeworldz.Parcel.Bits.{inside}
use homeworldz.Parcel.Cells.{bit_get-full_bitmap, in_rect}
use homeworldz.Parcel.Set.{
  Parcel, ParcelSet, cells_for, new_set, default_parcel, contains_cell, first_containing,
  parcel_at_cell,
}
use homeworldz.Parcel.Edit.{Corners, clamped, divide, join, corner_rect}
use homeworldz.Parcel.Grid.{Grid, has_id, IdsDistinct, IsDrawn, Maps, first_containing_lem}
use homeworldz.Parcel.Divide.{may_divide, first_containing-has_id}
use homeworldz.Parcel.Refines.{divide-Grid, Each-get_elem?}
use homeworldz.Parcel.Division.{get_elem?-has_id}
use homeworldz.Parcel.Joins.{may_join, join_refines, touches}

-- A local id is never taken back, so the last one bounds all that were given.
--
-- One edit leads from a set of parcels to another.
pub data Step : ParcelSet → ParcelSet → Type 0 where
  division :
      {s t : ParcelSet} {n : ℕ} (k : Corners) (global_id owner_id : Bytes) (claim_date : ℕ)
      → divide s k global_id owner_id claim_date ≡ some (t, n)
      → Step s t
  joining :
      {s t : ParcelSet} {n : ℕ} (k : Corners) (owner_id : Bytes)
      → join s k owner_id ≡ some (t, n)
      → Step s t

pub data Reached : ParcelSet → Type 0 where
  fresh :
      {s : ParcelSet} (metres : ℕ) (global_id owner_id : Bytes) (claim_date : ℕ)
      → new_set metres global_id owner_id claim_date ≡ some s
      → Reached s
  edited : {s t : ParcelSet} → Reached s → Step s t → Reached t

same_set : {a b : ParcelSet × ℕ} → some a ≡ some b → a.0 ≡ b.0
same_set {a} {b} e = let same : a ≡ b = cc in ap (λ r. r.0) same

some_injective : {a b : ParcelSet} → some a ≡ some b → a ≡ b
some_injective e = cc

Maps-along : (grid : Grid) {s t : ParcelSet} → s ≡ t → Maps grid s → Maps grid t
Maps-along grid e m = rw (← e) m

pub default-Maps :
    (edge metres : ℕ) (global_id owner_id : Bytes) (claim_date : ℕ)
    → Maps
        (λ c. 1)
        (record {
          region_size = metres;
          edge_cells = edge;
          last_local_id = 1;
          parcels = default_parcel edge global_id owner_id claim_date ∷ [];
        })
unfolding has_id
default-Maps edge metres global_id owner_id claim_date = record {
  drawn = ((λ c i. bit_get-full_bitmap edge c ∙ i, omega arith), tt);
  taken = λ c i. refl;
  distinct = (refl, tt);
}

new_set-Maps :
    (s : ParcelSet) (metres : ℕ) (global_id owner_id : Bytes) (claim_date : ℕ)
    → new_set metres global_id owner_id claim_date ≡ some s
    → Maps (λ c. 1) s
unfolding new_set
new_set-Maps s metres global_id owner_id claim_date e = elim (Option-cases (cells_for metres)) [
  | inl n ↦ absurd (ground (arith, rw n at e))
  | inr (edge, n) ↦
      Maps-along (λ c. 1) (some_injective (rw n at e))
        (default-Maps edge metres global_id owner_id claim_date)
]

abbrev MapsSome : ParcelSet → Type 0
MapsSome s = (grid : Grid) × Maps grid s

joined : Grid → Rect → ℕ → Grid
joined grid r n c = if touches grid r (grid c) then n else grid c

Step-Maps : {s t : ParcelSet} → MapsSome s → Step s t → MapsSome t
unfolding joined
Step-Maps {s} {t} (grid, m) (division k global_id owner_id claim_date e) =
    let both = divide-Grid s grid global_id owner_id claim_date k m in
    elim (Bool-cases (may_divide s.edge_cells grid k)) [
      | inl q ↦
          let made = both.0 q in
          (
            (λ c. if in_rect (corner_rect k) c then suc s.last_local_id else grid c),
            Maps-along (λ c. if in_rect (corner_rect k) c then suc s.last_local_id else grid c)
                (same_set (sym made.1 ∙ e)) made.2,
          )
      | inr q ↦ absurd (ground (arith, e, both.1 q))
    ]
Step-Maps {s} {t} (grid, m) (joining k owner_id e) =
    let both = join_refines s grid k owner_id m in
    elim (Bool-cases (may_join s grid k owner_id)) [
      | inl q ↦
          let made = both.0 q in
          (
            joined grid (clamped s.edge_cells k) made.1,
            Maps-along (joined grid (clamped s.edge_cells k) made.1) (same_set (sym made.2 ∙ e))
                made.5,
          )
      | inr q ↦ absurd (ground (arith, e, both.1 q))
    ]

Reached-Maps : {s : ParcelSet} → Reached s → MapsSome s
Reached-Maps {s} (fresh metres global_id owner_id claim_date e) =
    (λ c. 1, new_set-Maps s metres global_id owner_id claim_date e)
Reached-Maps (edited r e) = Step-Maps (Reached-Maps r) e

no_second :
    (j : ℕ) (ps : List Parcel) (r p q : Parcel)
    → has_id r.local_id ps ≡ false
    → some r ≡ some p
    → get_elem? ps j ≡ some q
    → p.local_id ≢ q.local_id
no_second j ps r p q d f g e =
    let same : r ≡ p = cc in
    let there : has_id r.local_id ps ≡ true =
      ap (λ k. has_id k ps) (ap (λ t. t.local_id) same ∙ e) ∙ get_elem?-has_id j ps q g in
    ground (arith, there, d)

-- Parcels of one local id stand at one place.
one_place :
    (i j : ℕ) (ps : List Parcel) (p q : Parcel)
    → IdsDistinct ps
    → get_elem? ps i ≡ some p
    → get_elem? ps j ≡ some q
    → p.local_id ≡ q.local_id
    → i ≡ j
one_place i j [] p q d f g e = absurd cc
one_place zero zero (r ∷ ps) p q d f g e = refl
one_place zero (suc j) (r ∷ ps) p q d f g e = absurd (no_second j ps r p q d.0 f g e)
one_place (suc i) zero (r ∷ ps) p q d f g e = absurd (no_second i ps r q p d.0 g f (sym e))
one_place (suc i) (suc j) (r ∷ ps) p q d f g e = ap suc (one_place i j ps p q d.1 f g e)

pub parcel_at_cell-inside :
    (s : ParcelSet) (x y : ℕ)
    → x < s.edge_cells
    → y < s.edge_cells
    → parcel_at_cell s (x, y) ≡ first_containing s.edge_cells (x, y) s.parcels
unfolding parcel_at_cell
parcel_at_cell-inside s x y h h' = ground (arith, h, h')

-- In a region of fewer than 2 ^ 31 square metres that began with one parcel and whose parcels were
-- divided and joined in any order, where the last local id that a division gave is below 2 ^ 31, each
-- cell belongs to exactly one parcel, which is the one that is found at the cell.
pub Reached-partition :
    (s : ParcelSet) (x y : ℕ)
    → Reached s
    → s.last_local_id < 2_147_483_648
    → s.edge_cells * s.edge_cells * 16 < 2_147_483_648
    → x < s.edge_cells
    → y < s.edge_cells
    → (i : ℕ) × (p : Parcel) × (parcel_at_cell s (x, y) ≡ some i)
      × (get_elem? s.parcels i ≡ some p)
      × (contains_cell s.edge_cells (x, y) p ≡ true)
      × ((j : ℕ) (q : Parcel)
          → get_elem? s.parcels j ≡ some q
          → contains_cell s.edge_cells (x, y) q ≡ true
          → i ≡ j)
Reached-partition s x y reached in_range small h h' =
    let (grid, m) = Reached-Maps reached in
    let edge = s.edge_cells in
    let here : inside edge (x, y) ≡ true = ground (arith, h, h') in
    let owned : (j : ℕ) (q : Parcel)
        → get_elem? s.parcels j ≡ some q
        → contains_cell edge (x, y) q ≡ true
        → grid (x, y) ≡ q.local_id =
      λ j q g b. (==_iff (grid (x, y)) q.local_id).0 (
        sym (
          (Each-get_elem? (IsDrawn edge grid s.last_local_id) j s.parcels q m.drawn g).0 (x, y)
            here)
        ∙ b) in
    let (i, p, found, there) =
      first_containing-has_id edge grid s.last_local_id s.parcels (x, y) m.drawn here
        (m.taken (x, y) here) in
    let has = first_containing_lem edge i (x, y) s.parcels p found there in
    (
      i,
      p,
      parcel_at_cell-inside s x y h h' ∙ found,
      there,
      has,
      λ j q g b.
          one_place i j s.parcels p q m.distinct there g
            (sym (owned i p there has) ∙ owned j q g b),
    )
