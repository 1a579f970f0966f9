-- ===== src/Parcel/Bits.antt =====
-- A bitmap that was written to, read cell by cell.
use homeworldz.Common.{
  ℕ, zero, suc, ◌+◌, ◌-◌, ◌*◌, ◌/◌, ◌%◌, ◌≤◌, ◌<◌, ◌≡◌, refl, ap, sym, Bool, true, false, [], ◌∷◌,
  ◌++◌, ◌||◌, ◌&&◌, arith, length, leb, ltb, ◌==◌, ==_iff, if◌then◌else◌, set, get_or, replicate,
  Bool-cases, inl, inr, length-append, length-replicate,
}
use homeworldz.Common.Bytes.{Bytes}
use homeworldz.Common.Bits.{has_bit, has_bit-zero, has_bit-with_bit, has_bit-without_bit}
use homeworldz.Parcel.Bitmap.{Cell, bit_get, grow, write_bit, bit_set}

pub get_or-set :
    (xs : Bytes) (i j v : ℕ)
    → i < length xs
    → get_or (set xs i v) j 0 ≡ (if i == j then v else get_or xs j 0)
get_or-set [] i j v h = absurd (omega arith)
get_or-set (x ∷ xs) zero zero v h = ground arith
get_or-set (x ∷ xs) zero (suc j) v h = ground arith
get_or-set (x ∷ xs) (suc i) zero v h = ground arith
get_or-set (x ∷ xs) (suc i) (suc j) v h = ground (arith, get_or-set xs i j v)

get_or-replicate : (n j : ℕ) → get_or (replicate {A = ℕ} n 0) j 0 ≡ 0
get_or-replicate zero j = refl
get_or-replicate (suc n) zero = refl
get_or-replicate (suc n) (suc j) = get_or-replicate n j

get_or-zeros : (xs : Bytes) (n j : ℕ) → get_or (xs ++ replicate n 0) j 0 ≡ get_or xs j 0
get_or-zeros [] n j = get_or-replicate n j
get_or-zeros (x ∷ xs) n zero = refl
get_or-zeros (x ∷ xs) n (suc j) = get_or-zeros xs n j

get_or-beyond : (xs : Bytes) (j : ℕ) → length xs ≤ j → get_or xs j 0 ≡ 0
get_or-beyond [] j h = refl
get_or-beyond (x ∷ xs) zero h = absurd (omega arith)
get_or-beyond (x ∷ xs) (suc j) h = get_or-beyond xs j (omega arith)

has_bit-write_bit :
    (value : Bool) (other index mask : ℕ)
    → has_bit other (write_bit value index mask)
      ≡ (if other == index then value else has_bit other mask)
has_bit-write_bit true other index mask = has_bit-with_bit other index mask
has_bit-write_bit false other index mask = has_bit-without_bit other index mask

-- The bit of an index, also behind the last byte.
abbrev bit_at : Bytes → ℕ → Bool
bit_at bitmap index = has_bit (index % 8) (get_or bitmap (index / 8) 0)

abbrev pub index_of : ℕ → Cell → ℕ
index_of edge (x, y) = y * edge + x

abbrev pub inside : ℕ → Cell → Bool
inside edge (x, y) = ltb x edge && ltb y edge

abbrev pub same_cell : Cell → Cell → Bool
same_cell (x, y) (x', y') = x == x' && y == y'

bit_get_lem :
    (bitmap : Bytes) (edge : ℕ) (c : Cell)
    → bit_get bitmap edge c ≡ (inside edge c && bit_at bitmap (index_of edge c))
unfolding bit_get
bit_get_lem bitmap edge (x, y) =
    let index = y * edge + x in
    elim (Bool-cases (leb (length bitmap) (index / 8))) [
      | inl q ↦ ground (arith, q, get_or-beyond bitmap (index / 8), has_bit-zero (index % 8))
      | inr q ↦ ground (arith, q)
    ]

length-grow : (size : ℕ) (bitmap : Bytes) → size ≤ length (grow size bitmap)
length-grow size bitmap = omega (
  arith,
  length-append bitmap (replicate {A = ℕ} (size - length bitmap) 0),
  length-replicate {A = ℕ} (size - length bitmap) 0,
)

bit_at-set :
    (bitmap : Bytes) (i j : ℕ) (value : Bool)
    → bit_at
        (set
          (grow (i / 8 + 1) bitmap)
          (i / 8)
          (write_bit value (i % 8) (get_or (grow (i / 8 + 1) bitmap) (i / 8) 0)))
        j
      ≡ (if i == j then value else bit_at bitmap j)
bit_at-set bitmap i j value =
    let grown = grow (i / 8 + 1) bitmap in
    let byte = write_bit value (i % 8) (get_or grown (i / 8) 0) in
    rw (get_or-set grown (i / 8) (j / 8) byte (omega (arith, length-grow (i / 8 + 1) bitmap)))
      (elim (Bool-cases (i / 8 == j / 8)) [
        | inl q ↦
            rw
              (
                q,
                has_bit-write_bit value (j % 8) (i % 8) (get_or grown (i / 8) 0),
                get_or-zeros bitmap (i / 8 + 1 - length bitmap) (i / 8),
                (==_iff (i / 8) (j / 8)).0 q,
              )
              (ground (arith, q))
        | inr q ↦
            rw (q, get_or-zeros bitmap (i / 8 + 1 - length bitmap) (j / 8)) (ground (arith, q))
      ])

-- Two cells of a row's length have one index only if they are one cell.
index_of-injective :
    (edge x y x' y' : ℕ)
    → x < edge
    → x' < edge
    → y * edge + x ≡ y' * edge + x'
    → (x ≡ x') × (y ≡ y')
index_of-injective edge x zero x' zero h h' e = omega arith
index_of-injective edge x zero x' (suc y') h h' e = absurd (grind arith)
index_of-injective edge x (suc y) x' zero h h' e = absurd (grind arith)
index_of-injective edge x (suc y) x' (suc y') h h' e =
    let both = index_of-injective edge x y x' y' h h' (grind arith) in (both.0, ap suc both.1)

-- Two tests that imply each other.
pub same_test : (a b : Bool) → (a ≡ true → b ≡ true) → (b ≡ true → a ≡ true) → a ≡ b
same_test true b f g = sym (f refl)
same_test false true f g = g refl
same_test false false f g = refl

pub one_index :
    (edge x y x' y' : ℕ)
    → x < edge
    → x' < edge
    → (y * edge + x == y' * edge + x') ≡ (x == x' && y == y')
one_index edge x y x' y' h h' =
    same_test (y * edge + x == y' * edge + x') (x == x' && y == y')
      (λ q.
        let both =
          index_of-injective edge x y x' y' h h' ((==_iff (y * edge + x) (y' * edge + x')).0 q) in
        ground (arith, both.0, both.1))
      (λ p.
        rw ((==_iff x x').0 (ground (arith, p)), (==_iff y y').0 (ground (arith, p)))
          (ground arith))

-- A bit that is written is the one that is read at its cell, and no other cell's bit changes.
pub bit_get-bit_set :
    (bitmap : Bytes) (edge : ℕ) (c d : Cell) (value : Bool)
    → bit_get (bit_set bitmap edge c value) edge d
      ≡ (if same_cell c d && inside edge c then value else bit_get bitmap edge d)
unfolding bit_set
bit_get-bit_set bitmap edge (x, y) (x', y') value = elim (Bool-cases (leb edge x || leb edge y)) [
  | inl q ↦ rw q (ground (arith, q))
  | inr q ↦
      let written = set (grow ((y * edge + x) / 8 + 1) bitmap) ((y * edge + x) / 8) (
        write_bit value ((y * edge + x) % 8)
          (get_or (grow ((y * edge + x) / 8 + 1) bitmap) ((y * edge + x) / 8) 0)) in
      rw
        (
          q,
          bit_get_lem written edge (x', y'),
          bit_at-set bitmap (y * edge + x) (y' * edge + x') value,
          bit_get_lem bitmap edge (x', y'),
        )
        (elim (Bool-cases (ltb x' edge)) [
          | inl p ↦
              rw (one_index edge x y x' y' (ground (arith, q)) (ground (arith, p)))
                (ground (arith, q, p))
          | inr p ↦ ground (arith, q, p)
        ])
]

-- Bits that are 0, and that two bitmaps have in common when one is the other with zeros behind it.
pub bit_get-zeros :
    (bitmap : Bytes) (edge n : ℕ) (d : Cell)
    → bit_get (bitmap ++ replicate n 0) edge d ≡ bit_get bitmap edge d
bit_get-zeros bitmap edge n d = rw (
  bit_get_lem (bitmap ++ replicate n 0) edge d,
  bit_get_lem bitmap edge d,
  get_or-zeros bitmap n (index_of edge d / 8),
)

pub bit_get-empty : (edge : ℕ) (d : Cell) → bit_get [] edge d ≡ false
bit_get-empty edge (x, y) =
    rw (bit_get_lem [] edge (x, y), has_bit-zero ((y * edge + x) % 8)) (ground arith)

-- A bit is read inside of the region only.
pub bit_get-inside :
    (bitmap : Bytes) (edge : ℕ) (d : Cell) → bit_get bitmap edge d ≡ true → inside edge d ≡ true
bit_get-inside bitmap edge (x, y) h = ground (arith, h, bit_get_lem bitmap edge (x, y))

pub same_cell→eq : (c d : Cell) → same_cell c d ≡ true → c ≡ d
same_cell→eq (x, y) (x', y') h =
    rw ((==_iff x x').0 (ground (arith, h)), (==_iff y y').0 (ground (arith, h))) refl
