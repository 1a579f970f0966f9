-- ===== src/Parcel/Count.antt =====
-- Cells counted by a test: those of a rectangle, and those of a parcel.
use Prim.Native.Nat.{min, max}
use homeworldz.Common.{
  ℕ, zero, suc, ◌+◌, ◌-◌, ◌*◌, ◌≤◌, ◌≡◌, refl, ap, ◌∙◌, Bool, true, false, List, [], ◌∷◌, ◌++◌,
  ◌||◌, ◌&&◌, not, arith, leb, ltb, ◌==◌, if◌then◌else◌,
}
use homeworldz.Common.Bytes.{Bytes}
use homeworldz.Parcel.Bitmap.{Cell, Rect, bit_get, row_of, rows_of, cells_of, whole, count_cells}
use homeworldz.Parcel.Cells.{in_rect, has_cell}
use homeworldz.Parcel.Bits.{same_cell}

unfoldable pub count_if : (Cell → Bool) → List Cell → ℕ
count_if test [] = 0
count_if test (c ∷ cs) = (if test c then 1 else 0) + count_if test cs

unfoldable pub any_if : (Cell → Bool) → List Cell → Bool
any_if test [] = false
any_if test (c ∷ cs) = test c || any_if test cs

count_if-append :
    (test : Cell → Bool) (cs ds : List Cell)
    → count_if test (cs ++ ds) ≡ count_if test cs + count_if test ds
unfolding count_if
count_if-append test [] ds = omega arith
count_if-append test (c ∷ cs) ds = omega (arith, count_if-append test cs ds)

count_if-below :
    (test part : Cell → Bool) (cs : List Cell)
    → ((c : Cell) → part c ≡ true → test c ≡ true)
    → count_if part cs ≤ count_if test cs
unfolding count_if
count_if-below test part [] h = omega arith
count_if-below test part (c ∷ cs) h = ground (arith, count_if-below test part cs h, h c)

-- Two tests, one of which holds wherever the other does, count differently only if it holds elsewhere.
pub count_if-any_if :
    (test part : Cell → Bool) (cs : List Cell)
    → ((c : Cell) → part c ≡ true → test c ≡ true)
    → (count_if test cs == count_if part cs) ≡ not (any_if (λ c. test c && not (part c)) cs)
unfolding count_if any_if
count_if-any_if test part [] h = refl
count_if-any_if test part (c ∷ cs) h =
    ground (arith, count_if-below test part cs h, count_if-any_if test part cs h, h c)

count_if-row_of :
    (r : Rect) (y x n : ℕ)
    → count_if (in_rect r) (row_of y x n)
      ≡ (if leb r.start_y y && ltb y r.end_y then min r.end_x (x + n) - max r.start_x x else 0)
unfolding count_if row_of
count_if-row_of r y x zero = ground arith
count_if-row_of r y x (suc n) = ground (arith, count_if-row_of r y (x + 1) n)

one_more :
    (width height total : ℕ) (inner : Bool)
    → total ≡ (if inner then suc height else height)
    → (if inner then width else 0) + height * width ≡ total * width
one_more width height total true e = rw e (grind arith)
one_more width height total false e = rw e (omega arith)

count_if-rows_of :
    (r : Rect) (x n y m : ℕ)
    → count_if (in_rect r) (rows_of x n y m)
      ≡ (min r.end_y (y + m) - max r.start_y y) * (min r.end_x (x + n) - max r.start_x x)
unfolding count_if rows_of
count_if-rows_of r x n y zero =
    let empty : min r.end_y (y + 0) - max r.start_y y ≡ 0 = omega arith in rw empty (omega arith)
count_if-rows_of r x n y (suc m) =
    let width = min r.end_x (x + n) - max r.start_x x in
    let height = min r.end_y (y + 1 + m) - max r.start_y (y + 1) in
    let inner = leb r.start_y y && ltb y r.end_y in
    count_if-append (in_rect r) (row_of y x n) (rows_of x n (y + 1) m)
    ∙ ap (λ k. k + count_if (in_rect r) (rows_of x n (y + 1) m)) (count_if-row_of r y x n)
    ∙ ap (λ k. (if inner then width else 0) + k) (count_if-rows_of r x n (y + 1) m)
    ∙ one_more width height (min r.end_y (y + suc m) - max r.start_y y) inner (ground arith)

pub count_if-cells_of :
    (edge : ℕ) (r : Rect)
    → r.end_x ≤ edge
    → r.end_y ≤ edge
    → count_if (in_rect r) (cells_of (whole edge)) ≡ (r.end_x - r.start_x) * (r.end_y - r.start_y)
count_if-cells_of edge r h h' =
    let wide : min r.end_x (0 + (edge - 0)) - max r.start_x 0 ≡ r.end_x - r.start_x = omega arith in
    let tall : min r.end_y (0 + (edge - 0)) - max r.start_y 0 ≡ r.end_y - r.start_y = omega arith in
    count_if-rows_of r 0 (edge - 0) 0 (edge - 0) ∙ (λ i. tall i * wide i) ∙ grind arith

pub same_cell_refl : (c : Cell) → same_cell c c ≡ true
same_cell_refl (x, y) = ground arith

pub count_cells_lem :
    (edge : ℕ) (bitmap : Bytes) (test : Cell → Bool) (cs : List Cell)
    → ((c : Cell) → has_cell cs c ≡ true → bit_get bitmap edge c ≡ test c)
    → count_cells edge bitmap cs ≡ count_if test cs
unfolding count_cells count_if has_cell
count_cells_lem edge bitmap test [] h = refl
count_cells_lem edge bitmap test (c ∷ cs) h =
    rw
      (
        h c (rw (same_cell_refl c) refl),
        count_cells_lem edge bitmap test cs (λ d e. h d (ground (arith, e))),
      )
      refl
