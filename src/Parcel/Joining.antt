-- ===== src/Parcel/Joining.antt =====
-- The joining of parcels, on the grid that the parcels of a region mean.
use homeworldz.Common.{
  ℕ, ◌≡◌, refl, ap, sym, ◌∙◌, true, false, none, some, List, [], ◌∷◌, ◌||◌, ◌&&◌, not, arith, ◌==◌,
  ==_iff, Bool-cases, Option-cases, inl, inr,
}
use homeworldz.Common.Bytes.{Bytes}
use homeworldz.Parcel.Bitmap.{Cell, bit_get, bit_set, cells_of, whole}
use homeworldz.Parcel.Bits.{inside, same_cell, same_cell→eq, bit_get-bit_set}
use homeworldz.Parcel.Cells.{has_cell, has_cell-cells_of, in_rect-whole}
use homeworldz.Parcel.Set.{Parcel, ParcelSet, find_by_local_id}
use homeworldz.Parcel.Edit.{is_touched, add_bits, add_touched}
use homeworldz.Parcel.Grid.{Grid, Each, has_id, IsDrawn, Maps}

bit_get-add_bits :
    (edge : ℕ) (other : Bytes) (cs : List Cell) (bitmap : Bytes) (d : Cell)
    → inside edge d ≡ true
    → bit_get (add_bits edge other cs bitmap) edge d
      ≡ (bit_get bitmap edge d || (has_cell cs d && bit_get other edge d))
unfolding add_bits has_cell
bit_get-add_bits edge other [] bitmap d h = ground arith
bit_get-add_bits edge other (c ∷ cs) bitmap d h = elim (Bool-cases (bit_get other edge c)) [
  | inl b ↦
      rw
        (
          b,
          bit_get-add_bits edge other cs (bit_set bitmap edge c true) d h,
          bit_get-bit_set bitmap edge c d true,
        )
        (elim (Bool-cases (same_cell c d)) [
          | inl q ↦
              rw (q, same_cell→eq c d q, h, ap (bit_get other edge) (sym (same_cell→eq c d q)) ∙ b)
                (ground arith)
          | inr q ↦ rw q (ground arith)
        ])
  | inr b ↦
      rw (b, bit_get-add_bits edge other cs bitmap d h)
        (elim (Bool-cases (same_cell c d)) [
          | inl q ↦ rw (q, ap (bit_get other edge) (sym (same_cell→eq c d q)) ∙ b) (ground arith)
          | inr q ↦ rw q refl
        ])
]

-- A parcel that is found by a local id has the cells that the grid gives to it.
some_injective : {p q : Parcel} → some p ≡ some q → p ≡ q
some_injective e = cc

found-Draws :
    (edge : ℕ) (grid : Grid) (last n : ℕ) (ps : List Parcel) (p : Parcel)
    → Each (IsDrawn edge grid last) ps
    → find_by_local_id n ps ≡ some p
    → (c : Cell) → inside edge c ≡ true
    → bit_get p.bitmap edge c ≡ (grid c == n)
unfolding find_by_local_id
found-Draws edge grid last n [] p h e c i = absurd cc
found-Draws edge grid last n (q ∷ ps) p h e c i = elim (Bool-cases (q.local_id == n)) [
  | inl b ↦
      let same : q ≡ p = some_injective (rw b at e) in
      ap (λ r. bit_get r.bitmap edge c) (sym same)
      ∙ h.0.0 c i
      ∙ ap (λ k. grid c == k) ((==_iff q.local_id n).0 b)
  | inr b ↦ found-Draws edge grid last n ps p h.1 (rw b at e) c i
]

find_by_local_id-none :
    (n : ℕ) (ps : List Parcel) → find_by_local_id n ps ≡ none → has_id n ps ≡ false
unfolding find_by_local_id has_id
find_by_local_id-none n [] e = refl
find_by_local_id-none n (p ∷ ps) e = elim (Bool-cases (p.local_id == n)) [
  | inl b ↦ absurd (ground (arith, rw b at e))
  | inr b ↦ ground (arith, b, find_by_local_id-none n ps (rw b at e))
]

pub bit_get-add_touched :
    (s : ParcelSet) (grid : Grid) (master : ℕ) (ns : List ℕ) (bitmap : Bytes) (d : Cell)
    → Maps grid s
    → inside s.edge_cells d ≡ true
    → bit_get (add_touched s.edge_cells s.parcels master ns bitmap) s.edge_cells d
      ≡ (bit_get bitmap s.edge_cells d || (not (grid d == master) && is_touched (grid d) ns))
unfolding add_touched is_touched
bit_get-add_touched s grid master [] bitmap d m h = ground arith
bit_get-add_touched s grid master (n ∷ ns) bitmap d m h = elim (Bool-cases (n == master)) [
  | inl b ↦ rw (b, bit_get-add_touched s grid master ns bitmap d m h) (ground (arith, b))
  | inr b ↦ elim (Option-cases (find_by_local_id n s.parcels)) [
    | inl e ↦
        rw (b, e, bit_get-add_touched s grid master ns bitmap d m h)
          (elim (Bool-cases (n == grid d)) [
            | inl q ↦ absurd (
                ground (
                  arith,
                  m.taken d h,
                  ap (λ k. has_id k s.parcels) (sym ((==_iff n (grid d)).0 q)),
                  find_by_local_id-none n s.parcels e,
                ))
            | inr q ↦ ground (arith, q)
          ])
    | inr (other, e) ↦
        rw
          (
            b,
            e,
            bit_get-add_touched s grid master ns
                (add_bits s.edge_cells other.bitmap (cells_of (whole s.edge_cells)) bitmap) d m h,
            bit_get-add_bits s.edge_cells other.bitmap (cells_of (whole s.edge_cells)) bitmap d h,
            has_cell-cells_of (whole s.edge_cells) d,
            in_rect-whole s.edge_cells d,
            h,
            found-Draws s.edge_cells grid s.last_local_id n s.parcels other m.drawn e d h,
          )
          (ground (arith, b))
  ]
]
