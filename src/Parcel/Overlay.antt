-- ===== src/Parcel/Overlay.antt =====
-- The overlay that a viewer draws: one byte for each cell, its colour and the borders of its parcel.
use homeworldz.Common.{
  ℕ, zero, suc, ◌+◌, ◌-◌, ◌*◌, ◌<◌, ◌≡◌, refl, ap, sym, ◌∙◌, Bool, true, false, Option, none, some,
  List, [], ◌∷◌, ◌||◌, ◌&&◌, not, arith, ◌==◌, ==_iff, if◌then◌else◌, Bool-cases, inl, inr, length,
  get_elem?, get_or, set, replicate, length-set, length-replicate,
}
use homeworldz.Common.Bytes.{Bytes, bytes_eq}
use homeworldz.Common.Bits.{has_bit, with_bit}
use homeworldz.Parcel.Bitmap.{Cell, cells_of, whole}
use homeworldz.Parcel.Bits.{
  inside, same_cell, same_cell→eq, get_or-set, index_of, one_index, same_test,
}
use homeworldz.Parcel.Cells.{has_cell, has_cell-cells_of, in_rect-whole}
use homeworldz.Parcel.Set.{
  Parcel, ParcelSet, find_by_local_id, first_containing, one_on, parcel_at_cell,
}
use homeworldz.Parcel.Grid.{Grid, Each, IsDrawn, Maps, first_containing_lem}
use homeworldz.Parcel.Divide.{head_cell, first_containing-owner, first_containing-has_id}
use homeworldz.Parcel.Refines.{Each-get_elem?}
use homeworldz.Parcel.Reached.{parcel_at_cell-inside}

-- The parcel that is pointed to.
abbrev pub pointed : List Parcel → Option ℕ → Option Parcel
pointed ps none = none
pointed ps (some i) = get_elem? ps i

-- A parcel's colour: 3 for the viewer's own, 4 for one that is for sale, 1 for another's.
abbrev pub colour_of : Bytes → Option Parcel → ℕ
colour_of agent none = 0
colour_of agent (some p) =
    if not (bytes_eq p.owner_id []) && bytes_eq p.owner_id agent
    then 3
    else (if has_bit 2 p.flags then 4 else (if bytes_eq p.owner_id [] then 0 else 1))

abbrev pub same_place : Option ℕ → Option ℕ → Bool
same_place none none = true
same_place none (some k) = false
same_place (some i) none = false
same_place (some i) (some k) = i == k

unfoldable pub overlay_byte : ParcelSet → Bytes → Cell → ℕ
overlay_byte s agent (x, y) =
    let here = parcel_at_cell s (x, y) in
    let colour = colour_of agent (pointed s.parcels here) in
    let west =
      if x == 0 || not (same_place (parcel_at_cell s (x - 1, y)) here)
      then with_bit 6 colour
      else colour in
    if y == 0 || not (same_place (parcel_at_cell s (x, y - 1)) here) then with_bit 7 west else west

unfoldable pub write_overlay : ParcelSet → Bytes → List Cell → List ℕ → List ℕ
write_overlay s agent [] out = out
write_overlay s agent (c ∷ cs) out =
    write_overlay s agent cs (set out (index_of s.edge_cells c) (overlay_byte s agent c))

unfoldable pub overlay_for : ParcelSet → Bytes → List ℕ
overlay_for s agent =
    write_overlay s agent (cells_of (whole s.edge_cells))
      (replicate (s.edge_cells * s.edge_cells) 0)

index_below : (edge x y n : ℕ) → x < edge → y < n → y * edge + x < n * edge
index_below edge x y zero h h' = absurd (omega arith)
index_below edge x zero (suc n) h h' = grind arith
index_below edge x (suc y) (suc n) h h' =
    let less = index_below edge x y n h (omega arith) in grind arith

-- Each cell that the loop visits has its byte.
get_or-write_overlay :
    (s : ParcelSet) (agent : Bytes) (cs : List Cell) (out : List ℕ) (c : Cell)
    → length out ≡ s.edge_cells * s.edge_cells
    → inside s.edge_cells c ≡ true
    → ((d : Cell) → has_cell cs d ≡ true → inside s.edge_cells d ≡ true)
    → get_or (write_overlay s agent cs out) (index_of s.edge_cells c) 0
      ≡ (if has_cell cs c then overlay_byte s agent c else get_or out (index_of s.edge_cells c) 0)
unfolding write_overlay has_cell
get_or-write_overlay s agent [] out c l h all = refl
get_or-write_overlay s agent ((x, y) ∷ cs) out (x', y') l h all =
    let edge = s.edge_cells in
    let here = all (x, y) (head_cell (x, y) cs) in
    let byte = overlay_byte s agent (x, y) in
    let at : y * edge + x < length out =
      rw l (index_below edge x y edge (ground (arith, here)) (ground (arith, here))) in
    get_or-write_overlay s agent cs (set out (y * edge + x) byte) (x', y')
      (length-set out (y * edge + x) byte ∙ l) h (λ d e. all d (ground (arith, e)))
    ∙ rw
        (
          get_or-set out (y * edge + x) (y' * edge + x') byte at,
          one_index edge x y x' y' (ground (arith, here)) (ground (arith, h)),
        )
        (elim (Bool-cases (same_cell (x, y) (x', y'))) [
          | inl q ↦ elim (Bool-cases (has_cell cs (x', y'))) [
            | inl e ↦ rw (e, q) refl
            | inr e ↦ rw (e, q) (ap (overlay_byte s agent) (same_cell→eq (x, y) (x', y') q))
          ]
          | inr q ↦ rw q refl
        ])

pointed-one_on :
    (p : Parcel) (ps : List Parcel) (o : Option ℕ) → pointed (p ∷ ps) (one_on o) ≡ pointed ps o
pointed-one_on p ps none = refl
pointed-one_on p ps (some i) = refl

-- The parcel found at a cell is the one with the grid's local id.
pointed-first_containing :
    (edge : ℕ) (grid : Grid) (last : ℕ) (ps : List Parcel) (c : Cell)
    → Each (IsDrawn edge grid last) ps
    → inside edge c ≡ true
    → pointed ps (first_containing edge c ps) ≡ find_by_local_id (grid c) ps
unfolding first_containing find_by_local_id
pointed-first_containing edge grid last [] c h i = refl
pointed-first_containing edge grid last (p ∷ ps) c h i = elim (Bool-cases (grid c == p.local_id)) [
  | inl q ↦
      let same : (p.local_id == grid c) ≡ true = ground (arith, q) in rw (h.0.0 c i, q, same) refl
  | inr q ↦
      let other : (p.local_id == grid c) ≡ false = ground (arith, q) in
      rw (h.0.0 c i, q, other)
        (pointed-one_on p ps (first_containing edge c ps)
          ∙ pointed-first_containing edge grid last ps c h.1 i)
]

found_id :
    (s : ParcelSet) (grid : Grid) (c : Cell) (i : ℕ) (p : Parcel)
    → Maps grid s
    → inside s.edge_cells c ≡ true
    → first_containing s.edge_cells c s.parcels ≡ some i
    → get_elem? s.parcels i ≡ some p
    → grid c ≡ p.local_id
found_id s grid c i p m h f g = (==_iff (grid c) p.local_id).0 (
    sym ((Each-get_elem? (IsDrawn s.edge_cells grid s.last_local_id) i s.parcels p m.drawn g).0 c h)
    ∙ first_containing_lem s.edge_cells i c s.parcels p f g)

same_place-first_containing :
    (s : ParcelSet) (grid : Grid) (c d : Cell)
    → Maps grid s
    → inside s.edge_cells c ≡ true
    → inside s.edge_cells d ≡ true
    → same_place
        (first_containing s.edge_cells c s.parcels)
        (first_containing s.edge_cells d s.parcels)
      ≡ (grid c == grid d)
same_place-first_containing s grid c d m i j =
    let edge = s.edge_cells in
    let last = s.last_local_id in
    let (k, p, f, g) = first_containing-has_id edge grid last s.parcels c m.drawn i (m.taken c i) in
    let (l, q, f', g') =
      first_containing-has_id edge grid last s.parcels d m.drawn j (m.taken d j) in
    rw (f, f')
      (same_test (k == l) (grid c == grid d)
        (λ e.
          let same : p ≡ q =
            some_injective (sym g ∙ ap (get_elem? s.parcels) ((==_iff k l).0 e) ∙ g') in
          (==_iff (grid c) (grid d)).1 (
            found_id s grid c k p m i f g
            ∙ ap (λ r. r.local_id) same
            ∙ sym (found_id s grid d l q m j f' g')))
        (λ e. (==_iff k l).1 (
          number (
            sym f
            ∙ first_containing-owner edge grid last s.parcels c d m.drawn i j
                ((==_iff (grid c) (grid d)).0 e)
            ∙ f'))))
  where
    some_injective : {a b : Parcel} → some a ≡ some b → a ≡ b
    some_injective e = cc

    number : {a b : ℕ} → some a ≡ some b → a ≡ b
    number e = cc

set_six : (k : ℕ) → k < 64 → with_bit 6 k ≡ k + 64
unfolding with_bit
set_six k h = omega arith

set_seven : (k : ℕ) → k < 128 → with_bit 7 k ≡ k + 128
unfolding with_bit
set_seven k h = omega arith

colour_below : (agent : Bytes) (p : Option Parcel) → colour_of agent p < 64
colour_below agent none = omega arith
colour_below agent (some p) = ground arith

bordered :
    (west south : Bool) (k : ℕ)
    → k < 64
    → (if south
        then with_bit 7 (if west then with_bit 6 k else k)
        else (if west then with_bit 6 k else k))
      ≡ k + (if west then 64 else 0) + (if south then 128 else 0)
bordered true true k h = rw (set_six k h, set_seven (k + 64) (omega (arith, h))) refl
bordered true false k h = rw (set_six k h) (omega arith)
bordered false true k h = rw (set_seven k (omega (arith, h))) (omega arith)
bordered false false k h = omega arith

overlay_byte_lem :
    (s : ParcelSet) (grid : Grid) (agent : Bytes) (x y : ℕ)
    → Maps grid s
    → x < s.edge_cells
    → y < s.edge_cells
    → overlay_byte s agent (x, y)
      ≡ colour_of agent (find_by_local_id (grid (x, y)) s.parcels)
        + (if x == 0 || not (grid (x - 1, y) == grid (x, y)) then 64 else 0)
        + (if y == 0 || not (grid (x, y - 1) == grid (x, y)) then 128 else 0)
unfolding overlay_byte
overlay_byte_lem s grid agent x y m h h' =
    let edge = s.edge_cells in
    let here : inside edge (x, y) ≡ true = ground (arith, h, h') in
    let colour = colour_of agent (find_by_local_id (grid (x, y)) s.parcels) in
    rw
      (
        parcel_at_cell-inside s x y h h',
        parcel_at_cell-inside s (x - 1) y (omega (arith, h)) h',
        parcel_at_cell-inside s x (y - 1) h (omega (arith, h')),
        pointed-first_containing edge grid s.last_local_id s.parcels (x, y) m.drawn here,
        same_place-first_containing s grid (x - 1, y) (x, y) m (ground (arith, h, h')) here,
        same_place-first_containing s grid (x, y - 1) (x, y) m (ground (arith, h, h')) here,
      )
      (bordered (x == 0 || not (grid (x - 1, y) == grid (x, y)))
        (y == 0 || not (grid (x, y - 1) == grid (x, y))) colour
        (colour_below agent (find_by_local_id (grid (x, y)) s.parcels)))

-- The overlay of a region whose cells have owners: the byte of a cell is the colour of its parcel, with
-- 64 for a border in the west and 128 for one in the south, and there is a border at the region's edge
-- and where the neighbouring cell belongs to another parcel.
pub overlay_for_lem :
    (s : ParcelSet) (grid : Grid) (agent : Bytes) (x y : ℕ)
    → Maps grid s
    → x < s.edge_cells
    → y < s.edge_cells
    → get_or (overlay_for s agent) (y * s.edge_cells + x) 0
      ≡ colour_of agent (find_by_local_id (grid (x, y)) s.parcels)
        + (if x == 0 || not (grid (x - 1, y) == grid (x, y)) then 64 else 0)
        + (if y == 0 || not (grid (x, y - 1) == grid (x, y)) then 128 else 0)
unfolding overlay_for
overlay_for_lem s grid agent x y m h h' =
    let edge = s.edge_cells in
    let cells = cells_of (whole edge) in
    let here : inside edge (x, y) ≡ true = ground (arith, h, h') in
    let all : (d : Cell) → has_cell cells d ≡ inside edge d =
      λ d. has_cell-cells_of (whole edge) d ∙ in_rect-whole edge d in
    get_or-write_overlay s agent cells (replicate (edge * edge) 0) (x, y)
      (length-replicate {A = ℕ} (edge * edge) 0) here (λ d e. sym (all d) ∙ e)
    ∙ rw (all (x, y), here) (overlay_byte_lem s grid agent x y m h h')
