-- ===== src/Parcel/Edit.antt =====
-- The parcel of a rectangle, and the division and the joining of parcels. The corners are cells: the
-- code's floor of the lesser coordinate over 4 metres, and its ceiling of the greater one.
use Prim.Native.Nat.{min}
use homeworldz.Common.{
  ℕ, zero, suc, ◌-◌, ◌*◌, Bool, true, false, Option, none, some, List, [], ◌∷◌, ◌++◌, ◌&&◌, ◌||◌,
  not, leb, ◌==◌, if◌then◌else◌, get_elem?, replicate,
}
use homeworldz.Common.Int.{ℤ, pos, pos_part, ltb_ℤ}
use homeworldz.Common.Bytes.{Bytes, bytes_eq, codes}
use homeworldz.Parcel.Bitmap.{
  Cell, Rect, bit_get, bit_set, cells_of, whole, bitmap_bytes, write_cells,
}
use homeworldz.Parcel.Set.{
  Parcel, ParcelSet, default_parcel_flags, contains_cell, area, find_by_local_id, first_containing,
  ◌>>=◌,
}

pub record Corners : Type 0 where
  pub west : ℤ
  pub south : ℤ
  pub east : ℤ
  pub north : ℤ

-- The rectangle in the region, where a corner outside is moved to the region's edge.
abbrev pub clamped : ℕ → Corners → Rect
clamped edge k = record {
  start_x = pos_part k.west;
  start_y = pos_part k.south;
  end_x = min edge (pos_part k.east);
  end_y = min edge (pos_part k.north);
}

abbrev pub is_empty : Rect → Bool
is_empty r = leb r.end_x r.start_x || leb r.end_y r.start_y

-- Whether there is no parcel found yet, or the same one.
abbrev pub agrees : Option ℕ → ℕ → Bool
agrees none i = true
agrees (some k) i = k == i

-- The loop over some cells, which looks for the one parcel that has them all.
unfoldable pub one_parcel : ℕ → List Parcel → Option ℕ → List Cell → Option ℕ
one_parcel edge ps found [] = found
one_parcel edge ps found (c ∷ cs) = do
  here ← first_containing edge c ps
  let rest = one_parcel edge ps (some here) cs
  if agrees found here then rest else none

unfoldable pub parcel_covering : ParcelSet → Corners → Option ℕ
parcel_covering s k =
    let r = clamped s.edge_cells k in
    if is_empty r then none else one_parcel s.edge_cells s.parcels none (cells_of r)

-- Whether a rectangle to divide is refused for its corners alone.
abbrev pub is_refused : ℕ → Corners → Bool
is_refused edge k =
    ltb_ℤ k.west (pos 0)
    || ltb_ℤ k.south (pos 0)
    || ltb_ℤ (pos edge) k.east
    || ltb_ℤ (pos edge) k.north
    || not (ltb_ℤ k.west k.east)
    || not (ltb_ℤ k.south k.north)

abbrev pub corner_rect : Corners → Rect
corner_rect k = record {
  start_x = pos_part k.west;
  start_y = pos_part k.south;
  end_x = pos_part k.east;
  end_y = pos_part k.north;
}

-- In square metres, which the source counts in `int`: the model is of regions of fewer than 2 ^ 31.
abbrev pub rect_area : Rect → ℕ
rect_area r = (r.end_x - r.start_x) * (r.end_y - r.start_y) * 16

-- The parcel that is pointed to, changed.
unfoldable pub update_at : ℕ → (Parcel → Parcel) → List Parcel → List Parcel
update_at i f [] = []
update_at zero f (p ∷ ps) = f p ∷ ps
update_at (suc i) f (p ∷ ps) = p ∷ update_at i f ps

abbrev pub cleared : ℕ → Rect → Parcel → Parcel
cleared edge r p = record p { bitmap = write_cells edge false (cells_of r) p.bitmap }

abbrev pub carved : ℕ → ℕ → Rect → Bytes → Bytes → ℕ → Parcel
carved edge local_id r global_id owner_id claim_date = record {
  global_id = global_id;
  local_id = local_id;
  name = codes "Parcel";
  owner_id = owner_id;
  flags = default_parcel_flags;
  claim_date = claim_date;
  bitmap = write_cells edge true (cells_of r) (replicate (bitmap_bytes edge) 0);
  access = [];
}

-- The set after a division, and the new parcel's local id. The source's local ids are 32-bit and
-- signed: the model is of sets whose last one is below 2 ^ 31 - 1, as its `++` has no meaning beyond.
-- The claim date, of 32 bits as well, is only stored.
abbrev pub divided : ParcelSet → Rect → Bytes → Bytes → ℕ → ℕ → ParcelSet × ℕ
divided s r global_id owner_id claim_date i =
    let edge = s.edge_cells in
    let local_id = suc s.last_local_id in
    (
      record s {
        last_local_id = local_id;
        parcels =
            update_at i (cleared edge r) s.parcels
            ++ carved edge local_id r global_id owner_id claim_date ∷ [];
      },
      local_id,
    )

unfoldable pub divide_rect : ParcelSet → Rect → Bytes → Bytes → ℕ → Option (ParcelSet × ℕ)
divide_rect s r global_id owner_id claim_date = do
  i ← one_parcel s.edge_cells s.parcels none (cells_of r)
  source ← get_elem? s.parcels i
  let result = some (divided s r global_id owner_id claim_date i)
  if area s.edge_cells source == rect_area r then none else result

unfoldable pub divide : ParcelSet → Corners → Bytes → Bytes → ℕ → Option (ParcelSet × ℕ)
divide s k global_id owner_id claim_date =
    if is_refused s.edge_cells k
    then none
    else divide_rect s (corner_rect k) global_id owner_id claim_date

unfoldable pub is_touched : ℕ → List ℕ → Bool
is_touched n [] = false
is_touched n (m ∷ ms) = m == n || is_touched n ms

abbrev pub add_new : ℕ → List ℕ → List ℕ
add_new n ns = if is_touched n ns then ns else ns ++ n ∷ []

-- The local id of the first parcel with a cell.
unfoldable pub owner_of : ℕ → List Parcel → Cell → Option ℕ
owner_of edge [] c = none
owner_of edge (p ∷ ps) c = if contains_cell edge c p then some p.local_id else owner_of edge ps c

abbrev pub add_owner : Option ℕ → List ℕ → List ℕ
add_owner none ns = ns
add_owner (some n) ns = add_new n ns

-- The local ids of the parcels with a cell among some cells, added to those before.
unfoldable pub touched_by : ℕ → List Parcel → List Cell → List ℕ → List ℕ
touched_by edge ps [] ns = ns
touched_by edge ps (c ∷ cs) ns = touched_by edge ps cs (add_owner (owner_of edge ps c) ns)

abbrev pub has_owner : Option Parcel → Bytes → Bool
has_owner none owner_id = false
has_owner (some p) owner_id = bytes_eq p.owner_id owner_id

unfoldable pub all_owned : List Parcel → Bytes → List ℕ → Bool
all_owned ps owner_id [] = true
all_owned ps owner_id (n ∷ ns) =
    has_owner (find_by_local_id n ps) owner_id && all_owned ps owner_id ns

-- `std::min_element`, of a first number and some more.
unfoldable pub least : ℕ → List ℕ → ℕ
least n [] = n
least n (m ∷ ms) = least (min n m) ms

-- The bits of another bitmap, added.
unfoldable pub add_bits : ℕ → Bytes → List Cell → Bytes → Bytes
add_bits edge other [] bitmap = bitmap
add_bits edge other (c ∷ cs) bitmap =
    add_bits edge other cs (if bit_get other edge c then bit_set bitmap edge c true else bitmap)

abbrev pub add_found : ℕ → Option Parcel → Bytes → Bytes
add_found edge none bitmap = bitmap
add_found edge (some other) bitmap = add_bits edge other.bitmap (cells_of (whole edge)) bitmap

-- The bits of the parcels that were touched, added to the surviving one's.
unfoldable pub add_touched : ℕ → List Parcel → ℕ → List ℕ → Bytes → Bytes
add_touched edge ps master [] bitmap = bitmap
add_touched edge ps master (n ∷ ns) bitmap =
    add_touched edge ps master ns
      (if n == master then bitmap else add_found edge (find_by_local_id n ps) bitmap)

-- The first parcel with a local id, with its bitmap changed.
unfoldable pub update_bitmap : ℕ → (Bytes → Bytes) → List Parcel → List Parcel
update_bitmap n f [] = []
update_bitmap n f (p ∷ ps) =
    if p.local_id == n then record p { bitmap = f p.bitmap } ∷ ps else p ∷ update_bitmap n f ps

unfoldable pub remove_if : (Parcel → Bool) → List Parcel → List Parcel
remove_if test [] = []
remove_if test (p ∷ ps) = let rest = remove_if test ps in if test p then rest else p ∷ rest

abbrev pub is_removed : ℕ → List ℕ → Parcel → Bool
is_removed master ns p = not (p.local_id == master) && is_touched p.local_id ns

-- The joining of the parcels that were touched: the first of them, and the others.
unfoldable pub join_touched : ParcelSet → Bytes → List ℕ → Option (ParcelSet × ℕ)
join_touched s owner_id [] = none
join_touched s owner_id (n ∷ []) = none
join_touched s owner_id (n ∷ m ∷ ns) =
    let touched = n ∷ m ∷ ns in
    let master = least n (m ∷ ns) in
    let merged =
      update_bitmap master (add_touched s.edge_cells s.parcels master touched) s.parcels in
    if all_owned s.parcels owner_id touched
    then some (record s { parcels = remove_if (is_removed master touched) merged }, master)
    else none

-- The set after a joining, and the surviving parcel's local id.
unfoldable pub join : ParcelSet → Corners → Bytes → Option (ParcelSet × ℕ)
join s k owner_id =
    let r = clamped s.edge_cells k in
    if is_empty r
    then none
    else join_touched s owner_id (touched_by s.edge_cells s.parcels (cells_of r) [])
