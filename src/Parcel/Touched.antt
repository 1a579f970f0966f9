-- ===== src/Parcel/Touched.antt =====
-- The local ids of the parcels that a rectangle touches.
use Prim.Native.Nat.{min}
use homeworldz.Common.{
  ℕ, ◌≤◌, ◌≡◌, ◌↔◌, refl, ap, sym, ◌∙◌, Bool, true, false, Option, none, some, List, [], ◌∷◌, ◌++◌,
  ◌||◌, arith, ◌==◌, ==_iff, Bool-cases, inl, inr,
}
use homeworldz.Common.Bytes.{Bytes}
use homeworldz.Parcel.Bitmap.{Cell}
use homeworldz.Parcel.Cells.{has_cell}
use homeworldz.Parcel.Set.{Parcel, find_by_local_id}
use homeworldz.Parcel.Count.{any_if}
use homeworldz.Parcel.Edit.{
  is_touched, add_new, add_owner, owner_of, touched_by, has_owner, all_owned, least,
}
use homeworldz.Parcel.Grid.{Grid}
use homeworldz.Parcel.Divide.{head_cell}

abbrev pub owned_by : Grid → ℕ → Cell → Bool
owned_by grid n c = grid c == n

abbrev pub NoTwice : List ℕ → Type 0
NoTwice [] = Unit {0}
NoTwice (n ∷ ns) = (is_touched n ns ≡ false) × NoTwice ns

is_touched-append :
    (n m : ℕ) (ns : List ℕ) → is_touched n (ns ++ m ∷ []) ≡ (is_touched n ns || m == n)
unfolding is_touched
is_touched-append n m [] = ground arith
is_touched-append n m (k ∷ ns) = ground (arith, is_touched-append n m ns)

is_touched-add_new :
    (n m : ℕ) (ns : List ℕ) → is_touched n (add_new m ns) ≡ (is_touched n ns || m == n)
is_touched-add_new n m ns = elim (Bool-cases (is_touched m ns)) [
  | inl q ↦ rw q (elim (Bool-cases (m == n)) [
    | inl e ↦ ground (arith, e, ap (λ k. is_touched k ns) (sym ((==_iff m n).0 e)) ∙ q)
    | inr e ↦ ground (arith, e)
  ])
  | inr q ↦ rw q (is_touched-append n m ns)
]

append-NoTwice :
    (m : ℕ) (ns : List ℕ) → NoTwice ns → is_touched m ns ≡ false → NoTwice (ns ++ m ∷ [])
unfolding is_touched
append-NoTwice m [] h e = (refl, tt)
append-NoTwice m (n ∷ ns) h e =
    (is_touched-append n m ns ∙ ground (arith, h.0, e), append-NoTwice m ns h.1 (ground (arith, e)))

add_new-NoTwice : (m : ℕ) (ns : List ℕ) → NoTwice ns → NoTwice (add_new m ns)
add_new-NoTwice m ns h = elim (Bool-cases (is_touched m ns)) [
  | inl q ↦ rw q h
  | inr q ↦ rw q (append-NoTwice m ns h q)
]

pub touched_by-NoTwice :
    (edge : ℕ) (ps : List Parcel) (cs : List Cell) (ns : List ℕ)
    → NoTwice ns
    → NoTwice (touched_by edge ps cs ns)
unfolding touched_by
touched_by-NoTwice edge ps [] ns h = h
touched_by-NoTwice edge ps (c ∷ cs) ns h =
    touched_by-NoTwice edge ps cs (add_owner (owner_of edge ps c) ns) (added (owner_of edge ps c))
  where
    added : (o : Option ℕ) → NoTwice (add_owner o ns)
    added none = h
    added (some m) = add_new-NoTwice m ns h

-- The local ids found are those of the grid at the cells.
pub is_touched-touched_by :
    (edge : ℕ) (ps : List Parcel) (grid : Grid) (cs : List Cell) (ns : List ℕ) (n : ℕ)
    → ((c : Cell) → has_cell cs c ≡ true → owner_of edge ps c ≡ some (grid c))
    → is_touched n (touched_by edge ps cs ns) ≡ (is_touched n ns || any_if (owned_by grid n) cs)
unfolding touched_by any_if has_cell
is_touched-touched_by edge ps grid [] ns n h = ground arith
is_touched-touched_by edge ps grid (c ∷ cs) ns n h = rw (h c (head_cell c cs)) (
    is_touched-touched_by edge ps grid cs (add_new (grid c) ns) n (λ d e. h d (ground (arith, e)))
    ∙ rw (is_touched-add_new n (grid c) ns) (ground arith))

-- The least of some numbers is one of them, and at most each of them.
pub least_in : (n : ℕ) (ns : List ℕ) → is_touched (least n ns) (n ∷ ns) ≡ true
unfolding least is_touched
least_in n [] = ground arith
least_in n (m ∷ ns) = ground (arith, least_in (min n m) ns)

pub least_below : (n : ℕ) (ns : List ℕ) (k : ℕ) → is_touched k (n ∷ ns) ≡ true → least n ns ≤ k
unfolding least is_touched
least_below n [] k h = ground (arith, h)
least_below n (m ∷ ns) k h =
    ground (arith, h, least_below (min n m) ns k, least_below (min n m) ns (min n m))

pub all_owned_iff :
    (ps : List Parcel) (owner_id : Bytes) (ns : List ℕ)
    → (all_owned ps owner_id ns ≡ true)
      ↔ ((n : ℕ) → is_touched n ns ≡ true → has_owner (find_by_local_id n ps) owner_id ≡ true)
unfolding all_owned is_touched
all_owned_iff ps owner_id [] = (λ e n h. absurd (ground (arith, h)), λ f. refl)
all_owned_iff ps owner_id (m ∷ ns) =
    let rest = all_owned_iff ps owner_id ns in
    (
      λ e n h. elim (Bool-cases (m == n)) [
        | inl q ↦ rw (← (==_iff m n).0 q) (ground (arith, e))
        | inr q ↦ rest.0 (ground (arith, e)) n (ground (arith, h, q))
      ],
      λ f. ground (arith, f m (ground arith), rest.1 (λ n h. f n (ground (arith, h)))),
    )
