-- ===== src/Viewer/Wire.antt =====
-- The 32-bit numbers of region/src/viewer_protocol.cpp, in both byte orders.
use homeworldz.Common.{
  ℕ, zero, suc, ◌+◌, ◌*◌, ◌/◌, ◌%◌, ◌^◌, ◌<◌, ◌≡◌, refl, ap, List, [], ◌∷◌, ◌++◌, arith, length,
  get_or, get_or-append,
}
use native.Mathlib.Nat.{add_assoc}
use homeworldz.Common.Bytes.{Bytes}

-- `data[offset]`, where there is one.
abbrev pub byte_at : Bytes → ℕ → ℕ
byte_at bytes offset = get_or bytes offset 0

unfoldable pub read_be_u32 : Bytes → ℕ → ℕ
read_be_u32 bytes offset =
    byte_at bytes offset * 2 ^ 24
    + byte_at bytes (offset + 1) * 2 ^ 16
    + byte_at bytes (offset + 2) * 2 ^ 8
    + byte_at bytes (offset + 3)

unfoldable pub read_le_u32 : Bytes → ℕ → ℕ
read_le_u32 bytes offset =
    byte_at bytes offset
    + byte_at bytes (offset + 1) * 2 ^ 8
    + byte_at bytes (offset + 2) * 2 ^ 16
    + byte_at bytes (offset + 3) * 2 ^ 24

-- What is appended stands in front of what is appended after it.
abbrev pub append_be_u32 : ℕ → Bytes → Bytes
append_be_u32 v rest =
    (v / 2 ^ 24 % 256) ∷ (v / 2 ^ 16 % 256) ∷ (v / 2 ^ 8 % 256) ∷ (v % 256) ∷ rest

abbrev pub append_le_u32 : ℕ → Bytes → Bytes
append_le_u32 v rest =
    (v % 256) ∷ (v / 2 ^ 8 % 256) ∷ (v / 2 ^ 16 % 256) ∷ (v / 2 ^ 24 % 256) ∷ rest

-- A loop that appends, and one that reads so many numbers from an offset on.
unfoldable pub append_all : (ℕ → Bytes → Bytes) → List ℕ → Bytes → Bytes
append_all append [] rest = rest
append_all append (v ∷ vs) rest = append v (append_all append vs rest)

unfoldable pub read_all : (Bytes → ℕ → ℕ) → ℕ → Bytes → ℕ → List ℕ
read_all read zero bytes offset = []
read_all read (suc count) bytes offset = read bytes offset ∷ read_all read count bytes (offset + 4)

-- A way to read and a way to append that fit.
pub record IsWire (read : Bytes → ℕ → ℕ) (append : ℕ → Bytes → Bytes) : Type 0 where
  pub reads : (v : ℕ) (rest : Bytes) → v < 2 ^ 32 → read (append v rest) 0 ≡ v
  pub skips :
      (v : ℕ) (rest : Bytes) (offset : ℕ) → read (append v rest) (4 + offset) ≡ read rest offset
  pub shifts :
      (front bytes : Bytes) (offset : ℕ)
      → read (front ++ bytes) (length front + offset) ≡ read bytes offset
  pub appends : (v : ℕ) (rest : Bytes) → length (append v rest) ≡ 4 + length rest

abbrev pub AllWords : List ℕ → Type 0
AllWords [] = Unit {0}
AllWords (v ∷ vs) = (v < 2 ^ 32) × AllWords vs

module _ {read : Bytes → ℕ → ℕ} {append : ℕ → Bytes → Bytes} (wire : IsWire read append) where
  pub read_all-shift :
      (count : ℕ) (front bytes : Bytes) (offset : ℕ)
      → read_all read count (front ++ bytes) (length front + offset)
        ≡ read_all read count bytes offset
  unfolding read_all
  read_all-shift zero front bytes offset = refl
  read_all-shift (suc count) front bytes offset = cc (
    wire.shifts front bytes offset,
    ap (read_all read count (front ++ bytes)) (add_assoc (length front) offset 4),
    read_all-shift count front bytes (offset + 4),
  )

  read_all-skip :
      (count v : ℕ) (rest : Bytes) (offset : ℕ)
      → read_all read count (append v rest) (4 + offset) ≡ read_all read count rest offset
  unfolding read_all
  read_all-skip zero v rest offset = refl
  read_all-skip (suc count) v rest offset = cc (
    wire.skips v rest offset,
    ap (read_all read count (append v rest)) (add_assoc 4 offset 4),
    read_all-skip count v rest (offset + 4),
  )

  pub read_all-append_all :
      (vs : List ℕ) (rest : Bytes)
      → AllWords vs
      → read_all read (length vs) (append_all append vs rest) 0 ≡ vs
  unfolding read_all append_all
  read_all-append_all [] rest h = refl
  read_all-append_all (v ∷ vs) rest h = cc (
    wire.reads v (append_all append vs rest) h.0,
    read_all-skip (length vs) v (append_all append vs rest) 0,
    read_all-append_all vs rest h.1,
  )

  pub length-append_all :
      (vs : List ℕ) (rest : Bytes)
      → length (append_all append vs rest) ≡ length vs * 4 + length rest
  unfolding append_all
  length-append_all [] rest = omega arith
  length-append_all (v ∷ vs) rest =
      omega (arith, wire.appends v (append_all append vs rest), length-append_all vs rest)

byte_at-append :
    (front bytes : Bytes) (offset k : ℕ)
    → byte_at (front ++ bytes) (length front + offset + k) ≡ byte_at bytes (offset + k)
byte_at-append front bytes offset k =
    rw (add_assoc (length front) offset k) (get_or-append front bytes (offset + k) 0)

be_shift :
    (front bytes : Bytes) (offset : ℕ)
    → read_be_u32 (front ++ bytes) (length front + offset) ≡ read_be_u32 bytes offset
unfolding read_be_u32
be_shift front bytes offset = omega (
  arith,
  get_or-append front bytes offset 0,
  byte_at-append front bytes offset 1,
  byte_at-append front bytes offset 2,
  byte_at-append front bytes offset 3,
)

le_shift :
    (front bytes : Bytes) (offset : ℕ)
    → read_le_u32 (front ++ bytes) (length front + offset) ≡ read_le_u32 bytes offset
unfolding read_le_u32
le_shift front bytes offset = omega (
  arith,
  get_or-append front bytes offset 0,
  byte_at-append front bytes offset 1,
  byte_at-append front bytes offset 2,
  byte_at-append front bytes offset 3,
)

be_read : (v : ℕ) (rest : Bytes) → v < 2 ^ 32 → read_be_u32 (append_be_u32 v rest) 0 ≡ v
unfolding read_be_u32
be_read v rest h = omega arith

le_read : (v : ℕ) (rest : Bytes) → v < 2 ^ 32 → read_le_u32 (append_le_u32 v rest) 0 ≡ v
unfolding read_le_u32
le_read v rest h = omega arith

pub be-IsWire : IsWire read_be_u32 append_be_u32
be-IsWire = record {
  reads = be_read;
  skips = λ v rest offset. be_shift (append_be_u32 v []) rest offset;
  shifts = be_shift;
  appends = λ v rest. omega arith;
}

pub le-IsWire : IsWire read_le_u32 append_le_u32
le-IsWire = record {
  reads = le_read;
  skips = λ v rest offset. le_shift (append_le_u32 v []) rest offset;
  shifts = le_shift;
  appends = λ v rest. omega arith;
}
