-- ===== src/Parcel/Set.antt =====
-- The parcels of a region: their data, their lookup by id and by cell, and what an agent may do there.
-- Local ids are numbers from 1 on, as those that the code assigns.
use Prim.Native.Nat.{min, max}
use homeworldz.Common.{
  ℕ, suc, ◌+◌, ◌*◌, ◌/◌, ◌%◌, ◌^◌, Bool, true, false, Option, none, some, List, [], ◌∷◌, ◌&&◌, ◌||◌,
  not, map, leb, ◌==◌, if◌then◌else◌,
}
use homeworldz.Common.Bytes.{Bytes, bytes_eq, codes}
use homeworldz.Common.Int.{ℤ, pos, negsuc, ltb_ℤ}
use homeworldz.Common.Bits.{has_bit}
use homeworldz.Parcel.Bitmap.{
  Cell, bit_get, grow, cells_of, whole, full_bitmap, bitmap_bytes, count_cells,
}

-- Of `flags`, bit 0 lets in and bit 1 bans.
pub record AccessEntry : Type 0 where
  pub agent_id : Bytes
  pub time : ℕ
  pub flags : ℕ

-- The members that the operations of a set of parcels read or write.
pub record Parcel : Type 0 where
  pub global_id : Bytes
  pub local_id : ℕ
  pub name : Bytes
  pub owner_id : Bytes
  pub flags : ℕ
  pub claim_date : ℕ
  pub bitmap : Bytes
  pub access : List AccessEntry

-- Bits 0, 3, 27, 13, 6, 1, 15 and 29.
abbrev pub default_parcel_flags : ℕ
default_parcel_flags = 2 ^ 0 + 2 ^ 3 + 2 ^ 27 + 2 ^ 13 + 2 ^ 6 + 2 ^ 1 + 2 ^ 15 + 2 ^ 29

abbrev pub contains_cell : ℕ → Cell → Parcel → Bool
contains_cell edge c p = bit_get p.bitmap edge c

-- In square metres, which the source counts in 32 signed bits: the model is of regions of fewer than
-- 2 ^ 31.
unfoldable pub area : ℕ → Parcel → ℕ
area edge p = count_cells edge p.bitmap (cells_of (whole edge)) * 16

-- The least and the greatest cell, the greatest one cell further, and whether there is any.
pub record Bounds : Type 0 where
  pub any : Bool
  pub min_x : ℕ
  pub min_y : ℕ
  pub max_x : ℤ
  pub max_y : ℤ

abbrev pub larger : ℤ → ℤ → ℤ
larger a b = if ltb_ℤ a b then b else a

abbrev pub with_cell : Cell → Bounds → Bounds
with_cell (x, y) b = record {
  any = true;
  min_x = min b.min_x x;
  min_y = min b.min_y y;
  max_x = larger b.max_x (pos (x + 1));
  max_y = larger b.max_y (pos (y + 1));
}

unfoldable pub bounds_of : ℕ → Parcel → List Cell → Bounds → Bounds
bounds_of edge p [] b = b
bounds_of edge p (c ∷ cs) b =
    bounds_of edge p cs (if contains_cell edge c p then with_cell c b else b)

unfoldable pub cell_bounds : ℕ → Parcel → Bounds
cell_bounds edge p =
    bounds_of edge p (cells_of (whole edge))
      (record { any = false; min_x = edge; min_y = edge; max_x = negsuc 0; max_y = negsuc 0 })

unfoldable pub is_region_owner : Bytes → Bytes → Bool
is_region_owner agent region_owner = not (bytes_eq region_owner []) && bytes_eq agent region_owner

-- An entry's time is not read.
unfoldable pub has_access : List AccessEntry → Bytes → ℕ → Bool
has_access [] agent flag = false
has_access (e ∷ es) agent flag =
    bytes_eq e.agent_id agent && has_bit flag e.flags || has_access es agent flag

abbrev pub is_owner : Parcel → Bytes → Bool
is_owner p agent = not (bytes_eq p.owner_id []) && bytes_eq agent p.owner_id

unfoldable pub can_build : Parcel → Bytes → Bytes → Bool
can_build p agent region_owner =
    if is_region_owner agent region_owner
    then true
    else (if is_owner p agent then true else has_bit 6 p.flags)

unfoldable pub can_enter : Parcel → Bytes → Bytes → Bool
can_enter p agent region_owner =
    if is_region_owner agent region_owner
    then true
    else (if is_owner p agent
        then true
        else (if has_bit 10 p.flags && has_access p.access agent 1
            then false
            else (if has_bit 9 p.flags && not (has_access p.access agent 0) then false else true)))

unfoldable pub can_run_scripts : Parcel → Bytes → Bytes → Bool
can_run_scripts p owner region_owner =
    if has_bit 1 p.flags
    then true
    else (if is_region_owner owner region_owner then true else is_owner p owner)

pub record ParcelSet : Type 0 where
  pub region_size : ℕ
  pub edge_cells : ℕ
  pub last_local_id : ℕ
  pub parcels : List Parcel

-- The edge of a region's grid, `none` for the exception.
unfoldable pub cells_for : ℕ → Option ℕ
cells_for metres = if leb metres 0 || not (metres % 4 == 0) then none else some (metres / 4)

abbrev pub default_parcel : ℕ → Bytes → Bytes → ℕ → Parcel
default_parcel edge global_id owner_id claim_date = record {
  global_id = global_id;
  local_id = 1;
  name = codes "Homeworldz";
  owner_id = owner_id;
  flags = default_parcel_flags;
  claim_date = claim_date;
  bitmap = full_bitmap edge;
  access = [];
}

infixl 5 ◌>>=◌
abbrev pub ◌>>=◌ : {A B : Type 0} → Option A → (A → Option B) → Option B
none >>= f = none
some a >>= f = f a

unfoldable pub new_set : ℕ → Bytes → Bytes → ℕ → Option ParcelSet
new_set metres global_id owner_id claim_date = do
  edge ← cells_for metres
  some record {
    region_size = metres;
    edge_cells = edge;
    last_local_id = 1;
    parcels = default_parcel edge global_id owner_id claim_date ∷ [];
  }

-- The highest local id of some parcels and a first number.
unfoldable pub last_of : ℕ → List Parcel → ℕ
last_of last [] = last
last_of last (p ∷ ps) = last_of (max last p.local_id) ps

abbrev pub padded : ℕ → Parcel → Parcel
padded edge p = record p { bitmap = grow (bitmap_bytes edge) p.bitmap }

unfoldable pub load_set : ℕ → List Parcel → Option ParcelSet
load_set metres parcels = do
  edge ← cells_for metres
  some record {
    region_size = metres;
    edge_cells = edge;
    last_local_id = last_of 0 parcels;
    parcels = map (padded edge) parcels;
  }

unfoldable pub find_by_local_id : ℕ → List Parcel → Option Parcel
find_by_local_id n [] = none
find_by_local_id n (p ∷ ps) = if p.local_id == n then some p else find_by_local_id n ps

-- A place among some parcels, behind one more.
abbrev pub one_on : Option ℕ → Option ℕ
one_on none = none
one_on (some i) = some (suc i)

-- The first parcel with a cell, by its place among the parcels.
unfoldable pub first_containing : ℕ → Cell → List Parcel → Option ℕ
first_containing edge c [] = none
first_containing edge c (p ∷ ps) =
    if contains_cell edge c p then some 0 else one_on (first_containing edge c ps)

unfoldable pub parcel_at_cell : ParcelSet → Cell → Option ℕ
parcel_at_cell s (x, y) =
    if leb s.edge_cells x || leb s.edge_cells y
    then none
    else first_containing s.edge_cells (x, y) s.parcels
