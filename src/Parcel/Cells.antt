-- ===== src/Parcel/Cells.antt =====
-- The cells of a rectangle, and a bitmap whose bits were written at them.
use Prim.Native.Nat.{min}
use homeworldz.Common.{
  ℕ, zero, suc, ◌+◌, ◌-◌, ◌*◌, ◌/◌, ◌≡◌, refl, ap, ◌∙◌, Bool, true, false, List, [], ◌∷◌, ◌++◌,
  ◌||◌, ◌&&◌, arith, leb, ltb, ◌==◌, if◌then◌else◌, replicate, Bool-cases, inl, inr,
}
use homeworldz.Common.Bytes.{Bytes}
use homeworldz.Parcel.Bitmap.{
  Cell, bit_get, bit_set, row_of, rows_of, Rect, cells_of, whole, write_cells, rectangle_bitmap,
  full_bitmap, bitmap_bytes,
}
use homeworldz.Parcel.Bits.{
  inside, same_cell, bit_get-bit_set, bit_get-zeros, bit_get-empty, same_cell→eq,
}

unfoldable pub has_cell : List Cell → Cell → Bool
has_cell [] d = false
has_cell (c ∷ cs) d = same_cell c d || has_cell cs d

abbrev pub in_rect : Rect → Cell → Bool
in_rect r (x, y) = leb r.start_x x && ltb x r.end_x && leb r.start_y y && ltb y r.end_y

has_cell-append :
    (cs ds : List Cell) (d : Cell) → has_cell (cs ++ ds) d ≡ (has_cell cs d || has_cell ds d)
unfolding has_cell
has_cell-append [] ds d = refl
has_cell-append (c ∷ cs) ds d = ground (arith, has_cell-append cs ds d)

has_cell-row_of :
    (y x count x' y' : ℕ)
    → has_cell (row_of y x count) (x', y') ≡ (y == y' && leb x x' && ltb x' (x + count))
unfolding has_cell row_of
has_cell-row_of y x zero x' y' = ground arith
has_cell-row_of y x (suc count) x' y' = ground (arith, has_cell-row_of y (x + 1) count x' y')

has_cell-rows_of :
    (x columns y count x' y' : ℕ)
    → has_cell (rows_of x columns y count) (x', y')
      ≡ (leb x x' && ltb x' (x + columns) && leb y y' && ltb y' (y + count))
unfolding rows_of has_cell
has_cell-rows_of x columns y zero x' y' = ground arith
has_cell-rows_of x columns y (suc count) x' y' =
    rw (has_cell-append (row_of y x columns) (rows_of x columns (y + 1) count) (x', y')) (
      ground
        (arith, has_cell-row_of y x columns x' y', has_cell-rows_of x columns (y + 1) count x' y'))

pub has_cell-cells_of : (r : Rect) (d : Cell) → has_cell (cells_of r) d ≡ in_rect r d
has_cell-cells_of r (x, y) =
    ground
      (arith, has_cell-rows_of r.start_x (r.end_x - r.start_x) r.start_y (r.end_y - r.start_y) x y)

pub bit_get-write_cells :
    (edge : ℕ) (value : Bool) (cs : List Cell) (bitmap : Bytes) (d : Cell)
    → bit_get (write_cells edge value cs bitmap) edge d
      ≡ (if has_cell cs d && inside edge d then value else bit_get bitmap edge d)
unfolding write_cells has_cell
bit_get-write_cells edge value [] bitmap d = refl
bit_get-write_cells edge value (c ∷ cs) bitmap d =
    rw
      (
        bit_get-write_cells edge value cs (bit_set bitmap edge c value) d,
        bit_get-bit_set bitmap edge c d value,
      )
      (elim (Bool-cases (same_cell c d)) [
        | inl q ↦ (rw (same_cell→eq c d q) (ground arith))
        | inr q ↦ ground (arith, q)
      ])

-- A rectangle that a loop writes to is the rectangle that is read, in the region.
pub bit_get-write_rect :
    (edge : ℕ) (value : Bool) (r : Rect) (bitmap : Bytes) (d : Cell)
    → bit_get (write_cells edge value (cells_of r) bitmap) edge d
      ≡ (if in_rect r d && inside edge d then value else bit_get bitmap edge d)
bit_get-write_rect edge value r bitmap d =
    bit_get-write_cells edge value (cells_of r) bitmap d
    ∙ ap (λ b. if b && inside edge d then value else bit_get bitmap edge d) (has_cell-cells_of r d)

-- The cells of the whole region are those inside it.
pub in_rect-whole : (edge : ℕ) (d : Cell) → in_rect (whole edge) d ≡ inside edge d
in_rect-whole edge (x, y) = ground arith

-- A rectangle's bitmap has the cells of the region whose first corner is in the rectangle, and no others.
pub bit_get-rectangle_bitmap :
    (edge west south east north x y : ℕ)
    → bit_get (rectangle_bitmap edge west south east north) edge (x, y) ≡ (
        leb (west / 4) x
        && ltb x (east / 4)
        && leb (south / 4) y
        && ltb y (north / 4)
        && inside edge (x, y))
unfolding rectangle_bitmap
bit_get-rectangle_bitmap edge west south east north x y =
    let r : Rect = record {
      start_x = west / 4;
      start_y = south / 4;
      end_x = min edge (east / 4);
      end_y = min edge (north / 4);
    } in
    rw
      (
        bit_get-write_rect edge true r (replicate {A = ℕ} (bitmap_bytes edge) 0) (x, y),
        bit_get-zeros [] edge (bitmap_bytes edge) (x, y),
        bit_get-empty edge (x, y),
      )
      (ground arith)

pub bit_get-full_bitmap : (edge : ℕ) (d : Cell) → bit_get (full_bitmap edge) edge d ≡ inside edge d
unfolding full_bitmap
bit_get-full_bitmap edge (x, y) =
    bit_get-rectangle_bitmap edge 0 0 (edge * 4) (edge * 4) x y ∙ ground arith
