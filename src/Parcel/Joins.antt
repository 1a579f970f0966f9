-- ===== src/Parcel/Joins.antt =====
-- When parcels are joined and what the joining leaves, on the grid that the parcels of a region mean.
use homeworldz.Common.{
  ◌≤◌, Option, ℕ, ◌≡◌, refl, ap, sym, ◌∙◌, Bool, true, false, none, some, List, [], ◌∷◌, ◌&&◌, not,
  arith, ◌==◌, ==_iff, if◌then◌else◌, Bool-cases, inl, inr,
}
use homeworldz.Common.Bytes.{Bytes}
use homeworldz.Parcel.Bitmap.{Cell, Rect, cells_of}
use homeworldz.Parcel.Bits.{inside, same_cell, same_cell→eq, same_test}
use homeworldz.Parcel.Cells.{in_rect, has_cell, has_cell-cells_of}
use homeworldz.Parcel.Set.{ParcelSet, find_by_local_id}
use homeworldz.Parcel.Count.{any_if}
use homeworldz.Parcel.Edit.{
  remove_if, is_removed, update_bitmap, add_touched, Corners, clamped, is_empty, is_touched,
  touched_by, has_owner, all_owned, least, join_touched, join,
}
use homeworldz.Parcel.Grid.{Grid, has_id, Maps, owner_of_lem}
use homeworldz.Parcel.Divide.{all_if, start, all_if-has_cell, all_if-intro, head_cell}
use homeworldz.Parcel.Touched.{
  owned_by, NoTwice, touched_by-NoTwice, is_touched-touched_by, least_in, least_below,
  all_owned_iff,
}
use homeworldz.Parcel.Survivors.{joined-Maps}

-- Whether a cell of the rectangle belongs to a parcel.
abbrev pub touches : Grid → Rect → ℕ → Bool
touches grid r n = any_if (owned_by grid n) (cells_of r)

abbrev pub differs : Grid → Rect → Cell → Bool
differs grid r c = not (grid c == grid (start r))

abbrev pub is_owned : ParcelSet → Grid → Bytes → Cell → Bool
is_owned s grid owner_id c = has_owner (find_by_local_id (grid c) s.parcels) owner_id

-- A rectangle, cut to the region, of two parcels or more that all belong to an owner.
abbrev pub may_join : ParcelSet → Grid → Corners → Bytes → Bool
may_join s grid k owner_id =
    let r = clamped s.edge_cells k in
    not (is_empty r)
    && any_if (differs grid r) (cells_of r)
    && all_if (is_owned s grid owner_id) (cells_of r)

any_if-has_cell :
    (test : Cell → Bool) (cs : List Cell) (c : Cell)
    → has_cell cs c ≡ true
    → test c ≡ true
    → any_if test cs ≡ true
unfolding any_if has_cell
any_if-has_cell test [] c h t = absurd (ground (arith, h))
any_if-has_cell test (d ∷ cs) c h t = elim (Bool-cases (same_cell d c)) [
  | inl q ↦ let here = ap test (same_cell→eq d c q) ∙ t in rw here refl
  | inr q ↦ ground (arith, any_if-has_cell test cs c (ground (arith, h, q)) t)
]

any_if-found :
    (test : Cell → Bool) (cs : List Cell)
    → any_if test cs ≡ true
    → (c : Cell) × (has_cell cs c ≡ true) × (test c ≡ true)
unfolding any_if has_cell
any_if-found test [] e = absurd (ground (arith, e))
any_if-found test (d ∷ cs) e = elim (Bool-cases (test d)) [
  | inl q ↦ (d, head_cell d cs, q)
  | inr q ↦
      let more = any_if-found test cs (ground (arith, e, q)) in
      (more.0, ground (arith, more.1), more.2)
]

regrid : {s : ParcelSet} (g h : Grid) → g ≡ h → Maps g s → Maps h s
regrid g h e m = rw (← e) m

-- The local ids of the parcels that a rectangle touches.
Touches : Grid → Rect → List ℕ → Type 0
Touches grid r ns = (n : ℕ) → is_touched n ns ≡ touches grid r n

-- The parcels that a rectangle touches, made one parcel with the least of their local ids.
Joined : ParcelSet → Grid → Rect → Option (ParcelSet × ℕ) → Type 0
Joined s grid r result =
    (t : ParcelSet) × (n : ℕ) × (result ≡ some (t, n))
    × (touches grid r n ≡ true)
    × ((c : Cell) → in_rect r c ≡ true → n ≤ grid c)
    × Maps (λ c. if touches grid r (grid c) then n else grid c) t

module _ (s : ParcelSet) (grid : Grid) (owner_id : Bytes) (r : Rect) (m : Maps grid s)
    (first : has_cell (cells_of r) (start r) ≡ true)
    (within : (c : Cell) → has_cell (cells_of r) c ≡ true → inside s.edge_cells c ≡ true) where
  owned-same :
      (ns : List ℕ)
      → Touches grid r ns
      → all_owned s.parcels owner_id ns ≡ all_if (is_owned s grid owner_id) (cells_of r)
  unfolding Touches
  owned-same ns h =
      same_test (all_owned s.parcels owner_id ns) (all_if (is_owned s grid owner_id) (cells_of r))
        (λ e. all_if-intro (is_owned s grid owner_id) (cells_of r) (λ c i.
          (all_owned_iff s.parcels owner_id ns).0 e (grid c) (
            h (grid c) ∙ any_if-has_cell (owned_by grid (grid c)) (cells_of r) c i (ground arith))))
        (λ e. (all_owned_iff s.parcels owner_id ns).1 (λ n t.
          let at = any_if-found (owned_by grid n) (cells_of r) (sym (h n) ∙ t) in
          rw (← (==_iff (grid at.0) n).0 at.2)
            (all_if-has_cell (is_owned s grid owner_id) (cells_of r) at.0 e at.1)))

  cell-Touches :
      (ns : List ℕ) (c : Cell)
      → Touches grid r ns
      → has_cell (cells_of r) c ≡ true
      → is_touched (grid c) ns ≡ true
  unfolding Touches
  cell-Touches ns c h i =
      h (grid c) ∙ any_if-has_cell (owned_by grid (grid c)) (cells_of r) c i (ground arith)

  Touches-cell :
      (ns : List ℕ) (n : ℕ)
      → Touches grid r ns
      → is_touched n ns ≡ true
      → (c : Cell) × (has_cell (cells_of r) c ≡ true) × (grid c ≡ n)
  unfolding Touches
  Touches-cell ns n h e =
      let at = any_if-found (owned_by grid n) (cells_of r) (sym (h n) ∙ e) in
      (at.0, at.1, (==_iff (grid at.0) n).0 at.2)

  differs-one : (n : ℕ) → Touches grid r (n ∷ []) → any_if (differs grid r) (cells_of r) ≡ false
  unfolding Touches is_touched
  differs-one n h = elim (Bool-cases (any_if (differs grid r) (cells_of r))) [
    | inl e ↦
        let at = any_if-found (differs grid r) (cells_of r) e in
        absurd (
          ground (
            arith,
            at.2,
            cell-Touches (n ∷ []) at.0 h at.1,
            cell-Touches (n ∷ []) (start r) h first,
          ))
    | inr e ↦ e
  ]

  differs-two :
      (n k : ℕ) (ns : List ℕ)
      → NoTwice (n ∷ k ∷ ns)
      → Touches grid r (n ∷ k ∷ ns)
      → any_if (differs grid r) (cells_of r) ≡ true
  unfolding Touches is_touched
  differs-two n k ns d h =
      let one = Touches-cell (n ∷ k ∷ ns) n h (ground arith) in
      let other = Touches-cell (n ∷ k ∷ ns) k h (ground arith) in
      elim (Bool-cases (n == grid (start r))) [
        | inl q ↦
            any_if-has_cell (differs grid r) (cells_of r) other.0 other.1
              (rw (other.2) (ground (arith, d.0, q)))
        | inr q ↦
            any_if-has_cell (differs grid r) (cells_of r) one.0 one.1
              (rw (one.2) (ground (arith, q)))
      ]

  join_touched-two :
      (n k : ℕ) (ns : List ℕ)
      → Touches grid r (n ∷ k ∷ ns)
      → all_owned s.parcels owner_id (n ∷ k ∷ ns) ≡ true
      → Joined s grid r (join_touched s owner_id (n ∷ k ∷ ns))
  unfolding join_touched Touches Joined
  join_touched-two n k ns h owned =
      let master = least n (k ∷ ns) in
      let all = n ∷ k ∷ ns in
      let touched = least_in n (k ∷ ns) in
      let at = Touches-cell all master h touched in
      let survivor = ap (λ j. has_id j s.parcels) (sym at.2) ∙ m.taken at.0 (within at.0 at.1) in
      (
        record s {
          parcels =
              remove_if (is_removed master all)
                (update_bitmap master (add_touched s.edge_cells s.parcels master all) s.parcels);
        },
        master,
        rw owned refl,
        sym (h master) ∙ touched,
        λ c e. least_below n (k ∷ ns) (grid c) (cell-Touches all c h (has_cell-cells_of r c ∙ e)),
        regrid (λ c. if is_touched (grid c) all then master else grid c)
            (λ c. if touches grid r (grid c) then master else grid c)
            (λ i c. if h (grid c) i then master else grid c)
            (joined-Maps s grid master all m touched survivor),
      )

  join_touched_refines :
      (ns : List ℕ)
      → NoTwice ns
      → Touches grid r ns
      → ((any_if (differs grid r) (cells_of r) && all_if (is_owned s grid owner_id) (cells_of r))
            ≡ true
          → Joined s grid r (join_touched s owner_id ns))
        × ((any_if (differs grid r) (cells_of r) && all_if (is_owned s grid owner_id) (cells_of r))
              ≡ false
            → join_touched s owner_id ns ≡ none)
  unfolding join_touched is_touched
  join_touched_refines [] d h =
      (λ e. absurd (ground (arith, cell-Touches [] (start r) h first)), λ e. refl)
  join_touched_refines (n ∷ []) d h = (λ e. absurd (ground (arith, e, differs-one n h)), λ e. refl)
  join_touched_refines (n ∷ k ∷ ns) d h =
      let same = owned-same (n ∷ k ∷ ns) h in
      let two = differs-two n k ns d h in
      (
        λ e. join_touched-two n k ns h (ground (arith, same, e)),
        λ e.
            let owned : all_owned s.parcels owner_id (n ∷ k ∷ ns) ≡ false =
              ground (arith, same, two, e) in
            rw owned refl,
      )

clamped-inside :
    (edge : ℕ) (k : Corners) (c : Cell)
    → has_cell (cells_of (clamped edge k)) c ≡ true
    → inside edge c ≡ true
clamped-inside edge k (x, y) h = ground (arith, sym (has_cell-cells_of (clamped edge k) (x, y)) ∙ h)

start-has_cell : (r : Rect) → is_empty r ≡ false → has_cell (cells_of r) (start r) ≡ true
start-has_cell r e = has_cell-cells_of r (start r) ∙ ground (arith, e)

-- In a region whose cells have owners, a joining is the one that the grid of owners allows, and no
-- other: if the rectangle, cut to the region, has cells of two parcels or more and all of these parcels
-- belong to the owner, all their cells, also those outside the rectangle, get the least local id of the
-- rectangle, which is returned, and nothing else of the grid changes; if not, the joining is refused.
pub join_refines :
    (s : ParcelSet) (grid : Grid) (k : Corners) (owner_id : Bytes)
    → Maps grid s
    → (may_join s grid k owner_id ≡ true
        → (t : ParcelSet) × (n : ℕ) × (join s k owner_id ≡ some (t, n))
          × (touches grid (clamped s.edge_cells k) n ≡ true)
          × ((c : Cell) → in_rect (clamped s.edge_cells k) c ≡ true → n ≤ grid c)
          × Maps (λ c. if touches grid (clamped s.edge_cells k) (grid c) then n else grid c) t)
      × (may_join s grid k owner_id ≡ false → join s k owner_id ≡ none)
unfolding join Touches Joined is_touched
join_refines s grid k owner_id m =
    let r = clamped s.edge_cells k in
    let ns = touched_by s.edge_cells s.parcels (cells_of r) [] in
    let within = clamped-inside s.edge_cells k in
    elim (Bool-cases (is_empty r)) [
      | inl q ↦ (λ e. absurd (ground (arith, q, e)), λ e. rw q refl)
      | inr q ↦
          let touched : Touches grid r ns = λ n.
            is_touched-touched_by s.edge_cells s.parcels grid (cells_of r) [] n (λ c i.
              owner_of_lem s.edge_cells grid s.last_local_id s.parcels c m.drawn (within c i)
                (m.taken c (within c i))) in
          let both =
            join_touched_refines s grid owner_id r m (start-has_cell r q) within ns
              (touched_by-NoTwice s.edge_cells s.parcels (cells_of r) [] tt) touched in
          (λ e. rw q (both.0 (ground (arith, e, q))), λ e. rw q (both.1 (ground (arith, e, q))))
    ]
