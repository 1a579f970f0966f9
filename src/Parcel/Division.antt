-- ===== src/Parcel/Division.antt =====
-- The division of a parcel, on the grid that the parcels of a region mean.
use homeworldz.Common.{
  ℕ, zero, suc, ◌≤◌, ◌≡◌, refl, ap, ◌∙◌, true, false, some, List, [], ◌∷◌, ◌||◌, arith, ◌==◌,
  ==_iff, if◌then◌else◌, Bool-cases, inl, inr, get_elem?, replicate,
}
use homeworldz.Common.Bytes.{Bytes}
use homeworldz.Parcel.Bitmap.{Cell, Rect, bitmap_bytes}
use homeworldz.Parcel.Bits.{inside, bit_get-zeros, bit_get-empty}
use homeworldz.Parcel.Cells.{in_rect, bit_get-write_rect}
use homeworldz.Parcel.Set.{Parcel, ParcelSet}
use homeworldz.Parcel.Edit.{update_at, cleared, carved, divided}
use homeworldz.Parcel.Grid.{
  Grid, Each, has_id, IdsDistinct, IsDrawn, Maps, Each-append, has_id-append, IdsDistinct-append,
  has_id-Each,
}

pub get_elem?-has_id :
    (i : ℕ) (ps : List Parcel) (q : Parcel) → get_elem? ps i ≡ some q → has_id q.local_id ps ≡ true
unfolding has_id
get_elem?-has_id i [] q g = absurd cc
get_elem?-has_id zero (p ∷ ps) q g =
    let same : p ≡ q = cc in
    ap (λ r. r.local_id == q.local_id || has_id q.local_id ps) same ∙ ground arith
get_elem?-has_id (suc i) (p ∷ ps) q g = ground (arith, get_elem?-has_id i ps q g)

-- A property of the parcels that a change of one of them leaves.
Each-update_at :
    (P Q : Parcel → Type 0) (f : Parcel → Parcel) (i : ℕ) (ps : List Parcel) (q : Parcel)
    → IdsDistinct ps
    → get_elem? ps i ≡ some q
    → ((p : Parcel) → (p.local_id == q.local_id) ≡ false → P p → Q p)
    → (P q → Q (f q))
    → Each P ps
    → Each Q (update_at i f ps)
unfolding update_at has_id
Each-update_at P Q f i [] q d g other this h = absurd cc
Each-update_at P Q f zero (p ∷ ps) q d g other this h =
    let same : p ≡ q = cc in (rw same (this (rw same at h.0)), all_other ps (rw (← same) d.0) h.1)
  where
    all_other : (rs : List Parcel) → has_id q.local_id rs ≡ false → Each P rs → Each Q rs
    all_other [] e k = tt
    all_other (r ∷ rs) e k = (other r (ground (arith, e)) k.0, all_other rs (ground (arith, e)) k.1)
Each-update_at P Q f (suc i) (p ∷ ps) q d g other this h = (
  other p (ground (arith, d.0, get_elem?-has_id i ps q g, ==_iff p.local_id q.local_id)) h.0,
  Each-update_at P Q f i ps q d.1 g other this h.1,
)

has_id-update_at :
    (f : Parcel → Parcel) (n i : ℕ) (ps : List Parcel)
    → ((p : Parcel) → (f p).local_id ≡ p.local_id)
    → has_id n (update_at i f ps) ≡ has_id n ps
unfolding update_at has_id
has_id-update_at f n i [] h = refl
has_id-update_at f n zero (p ∷ ps) h = rw (h p) refl
has_id-update_at f n (suc i) (p ∷ ps) h = rw (has_id-update_at f n i ps h) refl

IdsDistinct-update_at :
    (f : Parcel → Parcel) (i : ℕ) (ps : List Parcel)
    → ((p : Parcel) → (f p).local_id ≡ p.local_id)
    → IdsDistinct ps
    → IdsDistinct (update_at i f ps)
unfolding update_at
IdsDistinct-update_at f i [] h d = tt
IdsDistinct-update_at f zero (p ∷ ps) h d = (rw (h p) d.0, d.1)
IdsDistinct-update_at f (suc i) (p ∷ ps) h d =
    (has_id-update_at f p.local_id i ps h ∙ d.0, IdsDistinct-update_at f i ps h d.1)

-- The grid with a rectangle given to a local id.
abbrev pub painted : Rect → ℕ → Grid → Grid
painted r n grid c = if in_rect r c then n else grid c

module _ (edge : ℕ) (grid : Grid) (last : ℕ) (r : Rect) where
  divided-other :
      (source p : Parcel)
      → ((c : Cell) → in_rect r c ≡ true → grid c ≡ source.local_id)
      → (p.local_id == source.local_id) ≡ false
      → IsDrawn edge grid last p
      → IsDrawn edge (painted r (suc last) grid) (suc last) p
  divided-other source p within e h = (
    λ c i. elim (Bool-cases (in_rect r c)) [
      | inl q ↦ rw q (h.0 c i ∙ ground (arith, h.1, within c q, e))
      | inr q ↦ rw q (h.0 c i)
    ],
    omega (arith, h.1),
  )

  divided-source :
      (source : Parcel)
      → IsDrawn edge grid last source
      → IsDrawn edge (painted r (suc last) grid) (suc last) (cleared edge r source)
  divided-source source h = (
    λ c i.
        rw (bit_get-write_rect edge false r source.bitmap c, i, h.0 c i)
          (elim (Bool-cases (in_rect r c)) [
            | inl q ↦ rw q (ground (arith, h.1))
            | inr q ↦ rw q (ground arith)
          ]),
    omega (arith, h.1),
  )

  divided-carved :
      (global_id owner_id : Bytes) (claim_date : ℕ)
      → ((c : Cell) → inside edge c ≡ true → grid c ≤ last)
      → IsDrawn edge
          (painted r (suc last) grid)
          (suc last)
          (carved edge (suc last) r global_id owner_id claim_date)
  divided-carved global_id owner_id claim_date below = (
    λ c i.
        rw
          (
            bit_get-write_rect edge true r (replicate {A = ℕ} (bitmap_bytes edge) 0) c,
            i,
            bit_get-zeros [] edge (bitmap_bytes edge) c,
            bit_get-empty edge c,
          )
          (elim (Bool-cases (in_rect r c)) [
            | inl q ↦ rw q (ground arith)
            | inr q ↦ rw q (ground (arith, below c i))
          ]),
    omega arith,
  )

-- A rectangle of one parcel, given to a new parcel: the grid changes in the rectangle alone.
pub divided-Maps :
    (s : ParcelSet) (grid : Grid) (r : Rect) (global_id owner_id : Bytes) (claim_date i : ℕ)
    (source : Parcel)
    → Maps grid s
    → get_elem? s.parcels i ≡ some source
    → ((c : Cell) → in_rect r c ≡ true → grid c ≡ source.local_id)
    → Maps (painted r (suc s.last_local_id) grid) (divided s r global_id owner_id claim_date i).0
divided-Maps s grid r global_id owner_id claim_date i source m g within =
    let edge = s.edge_cells in
    let last = s.last_local_id in
    let new = carved edge (suc last) r global_id owner_id claim_date in
    let ids : (n : ℕ) → has_id n (update_at i (cleared edge r) s.parcels) ≡ has_id n s.parcels =
      λ n. has_id-update_at (cleared edge r) n i s.parcels (λ p. refl) in
    let fresh : has_id (suc last) s.parcels ≡ false =
      elim (Bool-cases (has_id (suc last) s.parcels)) [
        | inl q ↦ absurd (omega (arith, has_id-Each edge grid (suc last) last s.parcels m.drawn q))
        | inr q ↦ q
      ] in
    let below : (c : Cell) → inside edge c ≡ true → grid c ≤ last =
      λ c h. has_id-Each edge grid (grid c) last s.parcels m.drawn (m.taken c h) in
    record {
      drawn =
          Each-append (IsDrawn edge (painted r (suc last) grid) (suc last))
            (update_at i (cleared edge r) s.parcels)
            (Each-update_at (IsDrawn edge grid last)
              (IsDrawn edge (painted r (suc last) grid) (suc last)) (cleared edge r) i s.parcels
              source m.distinct g (λ p. divided-other edge grid last r source p within)
              (divided-source edge grid last r source) m.drawn)
            (divided-carved edge grid last r global_id owner_id claim_date below);
      taken = λ c h.
          has_id-append (painted r (suc last) grid c) (update_at i (cleared edge r) s.parcels) new
          ∙ (elim (Bool-cases (in_rect r c)) [
            | inl q ↦ rw q (ground arith)
            | inr q ↦ rw (q, ids (grid c), m.taken c h) refl
          ]);
      distinct =
          IdsDistinct-append (update_at i (cleared edge r) s.parcels) new
            (IdsDistinct-update_at (cleared edge r) i s.parcels (λ p. refl) m.distinct)
            (ids (suc last) ∙ fresh);
    }
