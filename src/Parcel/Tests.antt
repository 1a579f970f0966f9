-- ===== src/Parcel/Tests.antt =====
-- A region of 16 metres: four times four cells.
use homeworldz.Common.{
  ℕ, ◌+◌, ◌*◌, ◌≡◌, ◌≤◌, ◌<◌, refl, true, false, none, some, [], ◌∷◌, arith, if◌then◌else◌,
  get_elem?, get_or,
}
use homeworldz.Common.Int.{pos, negsuc}
use homeworldz.Common.Bytes.{Bytes, codes}
use homeworldz.Parcel.Bitmap.{
  Cell, rows_of, row_of, bit_get, full_bitmap, rectangle_bitmap, write_cells, bit_set, count_cells,
}
use homeworldz.Common.Bits.{has_bit, with_bit}
use homeworldz.Parcel.Cells.{in_rect}
use homeworldz.Parcel.Set.{
  Parcel, ParcelSet, default_parcel, new_set, first_containing, area, cells_for, contains_cell,
  find_by_local_id, parcel_at_cell,
}
use homeworldz.Parcel.Edit.{
  Corners, corner_rect, divide_rect, one_parcel, divided, clamped, divide, join,
}
use homeworldz.Parcel.Grid.{Grid, Maps}
use homeworldz.Parcel.Divide.{may_divide, all_if}
use homeworldz.Parcel.Count.{any_if}
use homeworldz.Parcel.Refines.{divide-Grid, divide_refines}
use homeworldz.Parcel.Joins.{may_join, join_refines, touches}
use homeworldz.Parcel.Reached.{default-Maps, Reached, fresh, edited, division, Reached-partition}
use homeworldz.Parcel.Overlay.{overlay_for, overlay_for_lem, colour_of}

abbrev owner : Bytes
owner = codes "a3"

abbrev four : ParcelSet
four = record {
  region_size = 16;
  edge_cells = 4;
  last_local_id = 1;
  parcels = default_parcel 4 (codes "p1") owner 0 ∷ [];
}

abbrev one_owner : Grid
one_owner c = 1

four-Maps : Maps one_owner four
four-Maps = default-Maps 4 16 (codes "p1") owner 0

abbrev middle : Corners
middle = record { west = pos 1; south = pos 1; east = pos 3; north = pos 2 }

middle_fits : may_divide 4 one_owner middle ≡ true
unfolding all_if any_if rows_of row_of
middle_fits = refl

divide_refines_example :
    (may_divide 4 one_owner middle ≡ true
      → (t : ParcelSet) × (divide four middle (codes "p2") owner 7 ≡ some (t, 2))
        × (2 < 2_147_483_648)
        × Maps (λ c. if in_rect (corner_rect middle) c then 2 else 1) t)
    × (may_divide 4 one_owner middle ≡ false → divide four middle (codes "p2") owner 7 ≡ none)
divide_refines_example =
    divide_refines four one_owner (codes "p2") owner 7 middle four-Maps (omega arith) (omega arith)

two :
    (t : ParcelSet) × (divide four middle (codes "p2") owner 7 ≡ some (t, 2))
    × Maps (λ c. if in_rect (corner_rect middle) c then 2 else 1) t
two = (divide-Grid four one_owner (codes "p2") owner 7 middle four-Maps).0 middle_fits

abbrev two_owners : Grid
two_owners c = if in_rect (corner_rect middle) c then 2 else 1

abbrev beyond : Corners
beyond = record { west = negsuc 0; south = pos 0; east = pos 9; north = pos 2 }

join_refines_example :
    (may_join two.0 two_owners beyond owner ≡ true
      → (t : ParcelSet) × (n : ℕ) × (join two.0 beyond owner ≡ some (t, n))
        × (touches two_owners (clamped two.0.edge_cells beyond) n ≡ true)
        × ((c : Cell) → in_rect (clamped two.0.edge_cells beyond) c ≡ true → n ≤ two_owners c)
        × Maps
            (λ c.
              if touches two_owners (clamped two.0.edge_cells beyond) (two_owners c)
              then n
              else two_owners c)
            t)
    × (may_join two.0 two_owners beyond owner ≡ false → join two.0 beyond owner ≡ none)
join_refines_example = join_refines two.0 two_owners beyond owner two.2

four-Reached : Reached four
unfolding new_set cells_for
four-Reached = fresh 16 (codes "p1") owner 0 refl

abbrev split : ParcelSet
split = (divided four (corner_rect middle) (codes "p2") owner 7 0).0

four-split : divide four middle (codes "p2") owner 7 ≡ some (split, 2)
unfolding divide divide_rect one_parcel rows_of row_of first_containing bit_get full_bitmap
    rectangle_bitmap write_cells bit_set has_bit with_bit area count_cells
four-split = refl

two-Reached : Reached split
two-Reached = edited four-Reached (division middle (codes "p2") owner 7 four-split)

Reached-partition_example :
    (i : ℕ) × (p : Parcel) × (parcel_at_cell split (2, 1) ≡ some i)
    × (get_elem? split.parcels i ≡ some p)
    × (contains_cell 4 (2, 1) p ≡ true)
    × ((j : ℕ) (q : Parcel)
        → get_elem? split.parcels j ≡ some q
        → contains_cell 4 (2, 1) q ≡ true
        → i ≡ j)
Reached-partition_example =
    Reached-partition split 2 1 two-Reached (omega arith) (omega arith) (omega arith) (omega arith)

overlay_for_lem_example :
    get_or (overlay_for four owner) (2 * 4 + 0) 0
    ≡ colour_of owner (find_by_local_id 1 four.parcels) + 64 + 0
overlay_for_lem_example =
    overlay_for_lem four one_owner owner 0 2 four-Maps (omega arith) (omega arith)
