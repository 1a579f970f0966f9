-- ===== src/Parcel/Divide.antt =====
-- When a rectangle is divided from a parcel, read on the grid that the parcels of a region mean.
use homeworldz.Common.{
  ℕ, suc, ◌*◌, ◌≤◌, ◌<◌, ◌≡◌, refl, ap, sym, ◌∙◌, Bool, true, false, none, some, List, [], ◌∷◌,
  ◌&&◌, not, arith, ◌==◌, ==_iff, Bool-cases, inl, inr, get_elem?,
}
use homeworldz.Common.Int.{ℤ, pos, negsuc, neg_part, ltb_ℤ}
use homeworldz.Parcel.Bitmap.{Cell, Rect, cells_of, whole}
use homeworldz.Parcel.Bits.{inside, same_cell, same_cell→eq}
use homeworldz.Parcel.Cells.{in_rect, has_cell, has_cell-cells_of, in_rect-whole}
use homeworldz.Parcel.Set.{Parcel, ParcelSet, area, first_containing}
use homeworldz.Parcel.Count.{
  any_if, count_if, count_if-any_if, count_if-cells_of, count_cells_lem, same_cell_refl,
}
use homeworldz.Parcel.Edit.{Corners, one_parcel, corner_rect, is_refused, rect_area}
use homeworldz.Parcel.Grid.{Grid, Each, has_id, Draws, IsDrawn}

unfoldable pub all_if : (Cell → Bool) → List Cell → Bool
all_if test [] = true
all_if test (c ∷ cs) = test c && all_if test cs

abbrev pub start : Rect → Cell
start r = (r.start_x, r.start_y)

-- A rectangle of the region that one parcel has, and that is not all of it.
abbrev pub may_divide : ℕ → Grid → Corners → Bool
may_divide edge grid k =
    let r = corner_rect k in
    let owned : Cell → Bool = λ c. grid c == grid (start r) in
    not (is_refused edge k)
    && all_if owned (cells_of r)
    && any_if (λ c. owned c && not (in_rect r c)) (cells_of (whole edge))

pub head_cell : (c : Cell) (cs : List Cell) → has_cell (c ∷ cs) c ≡ true
unfolding has_cell
head_cell c cs = rw (same_cell_refl c) refl

pub all_if-has_cell :
    (test : Cell → Bool) (cs : List Cell) (c : Cell)
    → all_if test cs ≡ true
    → has_cell cs c ≡ true
    → test c ≡ true
unfolding all_if has_cell
all_if-has_cell test [] c a h = absurd (ground (arith, h))
all_if-has_cell test (d ∷ cs) c a h = elim (Bool-cases (same_cell d c)) [
  | inl q ↦ ap test (sym (same_cell→eq d c q)) ∙ ground (arith, a)
  | inr q ↦ all_if-has_cell test cs c (ground (arith, a)) (ground (arith, h, q))
]

pub all_if-intro :
    (test : Cell → Bool) (cs : List Cell)
    → ((c : Cell) → has_cell cs c ≡ true → test c ≡ true)
    → all_if test cs ≡ true
unfolding all_if has_cell
all_if-intro test [] h = refl
all_if-intro test (c ∷ cs) h =
    ground (arith, h c (head_cell c cs), all_if-intro test cs (λ d e. h d (ground (arith, e))))

-- Cells of one owner have the same first parcel.
pub first_containing-owner :
    (edge : ℕ) (grid : Grid) (last : ℕ) (ps : List Parcel) (c d : Cell)
    → Each (IsDrawn edge grid last) ps
    → inside edge c ≡ true
    → inside edge d ≡ true
    → grid c ≡ grid d
    → first_containing edge c ps ≡ first_containing edge d ps
unfolding first_containing
first_containing-owner edge grid last [] c d h i j e = refl
first_containing-owner edge grid last (p ∷ ps) c d h i j e =
    rw (h.0.0 c i, h.0.0 d j, e, first_containing-owner edge grid last ps c d h.1 i j e) refl

pub first_containing-has_id :
    (edge : ℕ) (grid : Grid) (last : ℕ) (ps : List Parcel) (c : Cell)
    → Each (IsDrawn edge grid last) ps
    → inside edge c ≡ true
    → has_id (grid c) ps ≡ true
    → (i : ℕ) × (p : Parcel) × (first_containing edge c ps ≡ some i) × (get_elem? ps i ≡ some p)
unfolding first_containing has_id
first_containing-has_id edge grid last [] c h i e = absurd (ground (arith, e))
first_containing-has_id edge grid last (p ∷ ps) c h i e = elim (Bool-cases (grid c == p.local_id)) [
  | inl q ↦ (0, p, (rw (h.0.0 c i, q) refl), refl)
  | inr q ↦
      let more = first_containing-has_id edge grid last ps c h.1 i (ground (arith, q, e)) in
      (suc more.0, more.1, (rw (h.0.0 c i, q, more.2) refl), more.3)
]

one_parcel-same :
    (edge k : ℕ) (ps : List Parcel) (cs : List Cell)
    → ((c : Cell) → has_cell cs c ≡ true → first_containing edge c ps ≡ some k)
    → one_parcel edge ps (some k) cs ≡ some k
unfolding one_parcel has_cell
one_parcel-same edge k ps [] h = refl
one_parcel-same edge k ps (c ∷ cs) h =
    rw (h c (head_cell c cs))
      (ground (arith, one_parcel-same edge k ps cs (λ d e. h d (ground (arith, e)))))

pub one_parcel-some :
    (edge k : ℕ) (ps : List Parcel) (cs : List Cell) (c : Cell)
    → ((d : Cell) → has_cell cs d ≡ true → first_containing edge d ps ≡ some k)
    → has_cell cs c ≡ true
    → one_parcel edge ps none cs ≡ some k
unfolding one_parcel has_cell
one_parcel-some edge k ps [] c h e = absurd (ground (arith, e))
one_parcel-some edge k ps (d ∷ cs) c h e =
    rw (h d (head_cell d cs)) (one_parcel-same edge k ps cs (λ d' e'. h d' (ground (arith, e'))))

-- What the refusal for the corners leaves.
unfoldable pub IsProper : ℕ → Rect → Type 0
IsProper edge r =
    (r.start_x < r.end_x) × (r.start_y < r.end_y) × (r.end_x ≤ edge) × (r.end_y ≤ edge)

neg_part-zero : (a : ℤ) → ltb_ℤ a (pos 0) ≡ false → neg_part a ≡ 0
neg_part-zero (pos n) h = refl
neg_part-zero (negsuc n) h = absurd (ground (arith, h))

pub corner_rect-IsProper :
    (edge : ℕ) (k : Corners) → is_refused edge k ≡ false → IsProper edge (corner_rect k)
unfolding IsProper
corner_rect-IsProper edge k h =
    let west = neg_part-zero k.west (ground (arith, h)) in
    let south = neg_part-zero k.south (ground (arith, h)) in
    (ground (arith, h, west), ground (arith, h, south), ground (arith, h), ground (arith, h))

scaled : (a b : ℕ) → (a * 16 == b * 16) ≡ (a == b)
scaled a b = ground arith

-- The test on the areas, read on the grid.
pub area-same :
    (s : ParcelSet) (grid : Grid) (r : Rect) (source : Parcel)
    → IsProper s.edge_cells r
    → Draws s.edge_cells grid source
    → ((c : Cell) → in_rect r c ≡ true → grid c ≡ source.local_id)
    → (area s.edge_cells source == rect_area r)
      ≡ not (
          any_if
            (λ c. (grid c == source.local_id) && not (in_rect r c))
            (cells_of (whole s.edge_cells)))
unfolding area IsProper
area-same s grid r source proper draws within =
    let edge = s.edge_cells in
    let owned : Cell → Bool = λ c. grid c == source.local_id in
    let counted =
      count_cells_lem edge source.bitmap owned (cells_of (whole edge)) (λ c e.
        draws c (sym (in_rect-whole edge c) ∙ sym (has_cell-cells_of (whole edge) c) ∙ e)) in
    let rect = count_if-cells_of edge r proper.2 proper.3 in
    rw (counted, ← rect)
      (scaled (count_if owned (cells_of (whole edge)))
          (count_if (in_rect r) (cells_of (whole edge)))
        ∙ count_if-any_if owned (in_rect r) (cells_of (whole edge))
            (λ c q. (==_iff (grid c) source.local_id).1 (within c q)))
