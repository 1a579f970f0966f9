-- ===== src/Parcel/Bitmap.antt =====
-- The bitmaps of parcels: one bit for each cell of four metres, row by row, the lowest bit of a byte
-- first. A coordinate below 0 is refused in the code as one from `edge` on is; here it is a number.
use Prim.Native.Nat.{min}
use homeworldz.Common.{
  ℕ, zero, suc, ◌+◌, ◌-◌, ◌*◌, ◌/◌, ◌%◌, Bool, true, false, List, [], ◌∷◌, ◌++◌, ◌||◌, length, leb,
  if◌then◌else◌, set, get_or, replicate,
}
use homeworldz.Common.Bytes.{Bytes}
use homeworldz.Common.Bits.{has_bit, with_bit, without_bit}

abbrev pub Cell : Type 0
Cell = ℕ × ℕ

unfoldable pub bit_get : Bytes → ℕ → Cell → Bool
bit_get bitmap edge (x, y) =
    let index = y * edge + x in
    if leb edge x || leb edge y
    then false
    else (if leb (length bitmap) (index / 8)
        then false
        else has_bit (index % 8) (get_or bitmap (index / 8) 0))

-- `resize`, to a larger size.
abbrev pub grow : ℕ → Bytes → Bytes
grow size bitmap = bitmap ++ replicate (size - length bitmap) 0

abbrev pub write_bit : Bool → ℕ → ℕ → ℕ
write_bit true = with_bit
write_bit false = without_bit

unfoldable pub bit_set : Bytes → ℕ → Cell → Bool → Bytes
bit_set bitmap edge (x, y) value =
    let index = y * edge + x in
    let grown = grow (index / 8 + 1) bitmap in
    if leb edge x || leb edge y
    then bitmap
    else set grown (index / 8) (write_bit value (index % 8) (get_or grown (index / 8) 0))

-- The cells that two nested loops visit, row by row: so many from a first one on.
unfoldable pub row_of : ℕ → ℕ → ℕ → List Cell
row_of y x zero = []
row_of y x (suc count) = (x, y) ∷ row_of y (x + 1) count

unfoldable pub rows_of : ℕ → ℕ → ℕ → ℕ → List Cell
rows_of x columns y zero = []
rows_of x columns y (suc count) = row_of y x columns ++ rows_of x columns (y + 1) count

-- A rectangle of cells, without its last column and row.
pub record Rect : Type 0 where
  pub start_x : ℕ
  pub start_y : ℕ
  pub end_x : ℕ
  pub end_y : ℕ

abbrev pub cells_of : Rect → List Cell
cells_of r = rows_of r.start_x (r.end_x - r.start_x) r.start_y (r.end_y - r.start_y)

abbrev pub whole : ℕ → Rect
whole edge = record { start_x = 0; start_y = 0; end_x = edge; end_y = edge }

-- A loop that writes a bit at each of some cells.
unfoldable pub write_cells : ℕ → Bool → List Cell → Bytes → Bytes
write_cells edge value [] bitmap = bitmap
write_cells edge value (c ∷ cs) bitmap = write_cells edge value cs (bit_set bitmap edge c value)

abbrev pub bitmap_bytes : ℕ → ℕ
bitmap_bytes edge = (edge * edge + 7) / 8

unfoldable pub rectangle_bitmap : ℕ → ℕ → ℕ → ℕ → ℕ → Bytes
rectangle_bitmap edge west south east north =
    write_cells edge true
      (cells_of (record {
        start_x = west / 4;
        start_y = south / 4;
        end_x = min edge (east / 4);
        end_y = min edge (north / 4);
      }))
      (replicate (bitmap_bytes edge) 0)

unfoldable pub full_bitmap : ℕ → Bytes
full_bitmap edge = rectangle_bitmap edge 0 0 (edge * 4) (edge * 4)

-- How many of some cells a bitmap has.
unfoldable pub count_cells : ℕ → Bytes → List Cell → ℕ
count_cells edge bitmap [] = 0
count_cells edge bitmap (c ∷ cs) =
    (if bit_get bitmap edge c then 1 else 0) + count_cells edge bitmap cs
