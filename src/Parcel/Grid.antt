-- ===== src/Parcel/Grid.antt =====
-- What a set of parcels means: the grid of the local ids that own the cells of the region.
use homeworldz.Common.{
  ℕ, zero, suc, ◌≤◌, ◌≡◌, refl, ap, sym, ◌∙◌, Bool, true, false, Option, none, some, List, [], ◌∷◌,
  ◌++◌, ◌||◌, arith, ◌==◌, ==_iff, Bool-cases, Option-cases, ◌⊎◌, inl, inr, get_elem?,
}
use homeworldz.Parcel.Bitmap.{Cell, bit_get}
use homeworldz.Parcel.Bits.{inside, same_cell, same_cell→eq}
use homeworldz.Parcel.Cells.{has_cell}
use homeworldz.Parcel.Set.{Parcel, ParcelSet, contains_cell, first_containing, one_on}
use homeworldz.Parcel.Edit.{one_parcel, agrees, owner_of}

abbrev pub Grid : Type 0
Grid = Cell → ℕ

abbrev pub Each : (Parcel → Type 0) → List Parcel → Type 0
Each P [] = Unit {0}
Each P (p ∷ ps) = P p × Each P ps

unfoldable pub has_id : ℕ → List Parcel → Bool
has_id n [] = false
has_id n (p ∷ ps) = p.local_id == n || has_id n ps

abbrev pub IdsDistinct : List Parcel → Type 0
IdsDistinct [] = Unit {0}
IdsDistinct (p ∷ ps) = (has_id p.local_id ps ≡ false) × IdsDistinct ps

-- A parcel has the cells of the region that the grid gives to its local id, and no others.
abbrev pub Draws : ℕ → Grid → Parcel → Type 0
Draws edge grid p =
    (c : Cell) → inside edge c ≡ true → bit_get p.bitmap edge c ≡ (grid c == p.local_id)

abbrev pub IsDrawn : ℕ → Grid → ℕ → Parcel → Type 0
IsDrawn edge grid last p = Draws edge grid p × (p.local_id ≤ last)

-- Each cell of the region belongs to exactly one parcel, the one that the grid names.
pub record Maps (grid : Grid) (s : ParcelSet) : Type 0 where
  pub drawn : Each (IsDrawn s.edge_cells grid s.last_local_id) s.parcels
  pub taken : (c : Cell) → inside s.edge_cells c ≡ true → has_id (grid c) s.parcels ≡ true
  pub distinct : IdsDistinct s.parcels

pub Each-append :
    (P : Parcel → Type 0) (ps : List Parcel) {q : Parcel} → Each P ps → P q → Each P (ps ++ q ∷ [])
Each-append P [] h e = (e, tt)
Each-append P (p ∷ ps) h e = (h.0, Each-append P ps h.1 e)

pub has_id-append :
    (n : ℕ) (ps : List Parcel) (q : Parcel)
    → has_id n (ps ++ q ∷ []) ≡ (has_id n ps || (q.local_id == n))
unfolding has_id
has_id-append n [] q = ground arith
has_id-append n (p ∷ ps) q = ground (arith, has_id-append n ps q)

pub IdsDistinct-append :
    (ps : List Parcel) (q : Parcel)
    → IdsDistinct ps
    → has_id q.local_id ps ≡ false
    → IdsDistinct (ps ++ q ∷ [])
unfolding has_id
IdsDistinct-append [] q h e = (refl, tt)
IdsDistinct-append (p ∷ ps) q h e = (
  has_id-append p.local_id ps q ∙ ground (arith, h.0, e),
  IdsDistinct-append ps q h.1 (ground (arith, e)),
)

-- A local id that some parcel has is not above one that all parcels have at most.
pub has_id-Each :
    (edge : ℕ) (grid : Grid) (n last : ℕ) (ps : List Parcel)
    → Each (IsDrawn edge grid last) ps
    → has_id n ps ≡ true
    → n ≤ last
unfolding has_id
has_id-Each edge grid n last [] h e = absurd (ground (arith, e))
has_id-Each edge grid n last (p ∷ ps) h e = elim (Bool-cases (p.local_id == n)) [
  | inl q ↦ ground (arith, q, h.0.1)
  | inr q ↦ has_id-Each edge grid n last ps h.1 (ground (arith, q, e))
]

-- The first parcel with a cell is the one with the local id of the grid.
pub owner_of_lem :
    (edge : ℕ) (grid : Grid) (last : ℕ) (ps : List Parcel) (c : Cell)
    → Each (IsDrawn edge grid last) ps
    → inside edge c ≡ true
    → has_id (grid c) ps ≡ true
    → owner_of edge ps c ≡ some (grid c)
unfolding owner_of has_id
owner_of_lem edge grid last [] c h i e = absurd (ground (arith, e))
owner_of_lem edge grid last (p ∷ ps) c h i e = elim (Bool-cases (grid c == p.local_id)) [
  | inl q ↦ rw (h.0.0 c i, q) (ap some (sym ((==_iff (grid c) p.local_id).0 q)))
  | inr q ↦ rw (h.0.0 c i, q) (owner_of_lem edge grid last ps c h.1 i (ground (arith, q, e)))
]

-- A parcel found at a cell has the cell.
pub first_containing_lem :
    (edge i : ℕ) (c : Cell) (ps : List Parcel) (p : Parcel)
    → first_containing edge c ps ≡ some i
    → get_elem? ps i ≡ some p
    → contains_cell edge c p ≡ true
unfolding first_containing
first_containing_lem edge i c [] p e h = cc
first_containing_lem edge i c (q ∷ ps) p e h = elim (Bool-cases (contains_cell edge c q)) [
  | inl b ↦ at_first i b (rw b at e) h
  | inr b ↦
      behind i (λ k. first_containing_lem edge k c ps p) (Option-cases (first_containing edge c ps))
        (rw b at e) h
]
  where
    at_first :
        (j : ℕ)
        → contains_cell edge c q ≡ true
        → some 0 ≡ some j
        → get_elem? (q ∷ ps) j ≡ some p
        → contains_cell edge c p ≡ true
    at_first zero b z h = let same : q ≡ p = cc in ap (contains_cell edge c) (sym same) ∙ b
    at_first (suc j) b z h = absurd (ground (arith, z))

    behind :
        (j : ℕ)
        → ((k : ℕ)
            → first_containing edge c ps ≡ some k
            → get_elem? ps k ≡ some p
            → contains_cell edge c p ≡ true)
        → (first_containing edge c ps ≡ none) ⊎ ((k : ℕ) × (first_containing edge c ps ≡ some k))
        → one_on (first_containing edge c ps) ≡ some j
        → get_elem? (q ∷ ps) j ≡ some p
        → contains_cell edge c p ≡ true
    behind j rec (inl n) z h = absurd (ground (arith, n, z))
    behind zero rec (inr (k, n)) z h = absurd (ground (arith, n, z))
    behind (suc j) rec (inr (k, n)) z h = rec j (n ∙ ground (arith, n, z)) h

one_parcel-keeps :
    (edge i k : ℕ) (ps : List Parcel) (cs : List Cell)
    → one_parcel edge ps (some k) cs ≡ some i
    → k ≡ i
unfolding one_parcel
one_parcel-keeps edge i k ps [] e = ground (arith, e)
one_parcel-keeps edge i k ps (d ∷ cs) e = elim (Option-cases (first_containing edge d ps)) [
  | inl n ↦ absurd (ground (arith, n, rw n at e))
  | inr (here, n) ↦ elim (Bool-cases (k == here)) [
    | inl b ↦ ground (arith, b, one_parcel-keeps edge i here ps cs (rw (n, b) at e))
    | inr b ↦ absurd (ground (arith, rw (n, b) at e))
  ]
]

pub one_parcel-covers :
    (edge i : ℕ) (ps : List Parcel) (found : Option ℕ) (cs : List Cell) (c : Cell)
    → one_parcel edge ps found cs ≡ some i
    → has_cell cs c ≡ true
    → first_containing edge c ps ≡ some i
unfolding one_parcel has_cell
one_parcel-covers edge i ps found [] c e h = cc
one_parcel-covers edge i ps found (d ∷ cs) c e h =
    elim (Option-cases (first_containing edge d ps)) [
      | inl n ↦ absurd (ground (arith, rw n at e))
      | inr (here, n) ↦ elim (Bool-cases (agrees found here)) [
        | inl b ↦ elim (Bool-cases (same_cell d c)) [
          | inl t ↦
              ap (λ x. first_containing edge x ps) (sym (same_cell→eq d c t))
              ∙ n
              ∙ ap some (one_parcel-keeps edge i here ps cs (rw (n, b) at e))
          | inr t ↦
              one_parcel-covers edge i ps (some here) cs c (rw (n, b) at e) (ground (arith, t, h))
        ]
        | inr b ↦ absurd (ground (arith, rw (n, b) at e))
      ]
    ]
