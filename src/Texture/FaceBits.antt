-- ===== src/Texture/FaceBits.antt =====
-- The sets of faces of texture_entry.cpp: a mask of 32 bits, and its form of seven bits to a byte.
use homeworldz.Common.{
  ℕ, zero, suc, ◌+◌, ◌-◌, ◌*◌, ◌/◌, ◌%◌, ◌^◌, ◌≤◌, ◌<◌, ◌≡◌, refl, ap, ◌∙◌, Option, none, some,
  List, [], ◌∷◌, ◌++◌, arith, length, ltb, ltb→lt, lt→ltb, ◌==◌, Bool-cases, inl, inr,
  if◌then◌else◌,
}
use native.Mathlib.Nat.{pow-suc}
use homeworldz.Common.Bytes.{Bytes}

-- The loop of `read_face_bits`, for the groups still allowed. A byte from 128 on has its high bit set.
unfoldable pub read_groups : ℕ → ℕ → Bytes → Option (ℕ × Bytes)
read_groups zero mask bytes = none
read_groups (suc groups) mask [] = none
read_groups (suc groups) mask (byte ∷ bytes) =
    let mask' = (mask * 128 + byte % 128) % 2 ^ 32 in
    let rest = read_groups groups mask' bytes in if ltb byte 128 then some (mask', bytes) else rest

unfoldable pub read_face_bits : Bytes → Option (ℕ × Bytes)
read_face_bits bytes = read_groups 5 0 bytes

-- `groups`, the lowest seven bits first; there is room for as many as the first argument.
unfoldable pub groups_of : ℕ → ℕ → List ℕ
groups_of zero mask = []
groups_of (suc room) mask =
    let rest = groups_of room (mask / 128) in mask % 128 ∷ (if mask / 128 == 0 then [] else rest)

-- The groups but the lowest, the highest first, in front of what follows them.
unfoldable pub put_high : List ℕ → Bytes → Bytes
put_high [] bytes = bytes
put_high (group ∷ groups) bytes = put_high groups ((group + 128) ∷ bytes)

unfoldable pub put_groups : List ℕ → Bytes
put_groups [] = []
put_groups (group ∷ groups) = put_high groups (group ∷ [])

unfoldable pub append_face_bits : ℕ → Bytes
append_face_bits mask = put_groups (groups_of 5 mask)

shrinks : (k v : ℕ) → v < 128 ^ suc k → v / 128 < 128 ^ k
shrinks k v h = let powers : 128 ^ suc k ≡ 128 ^ k * 128 = pow-suc 128 k in omega arith

length-groups_of : (room mask : ℕ) → length (groups_of room mask) ≤ room
unfolding groups_of
length-groups_of zero mask = omega arith
length-groups_of (suc room) mask = ground (arith, length-groups_of room (mask / 128))

low_bits : (group : ℕ) → group < 128 → (group + 128) % 128 ≡ group
low_bits group h = omega arith

fits : (mask : ℕ) → mask < 2 ^ 32 → mask % 2 ^ 32 ≡ mask
fits mask h = omega arith

pub groups_small : (room x : ℕ) → x < 128 → groups_of (suc room) x ≡ x ∷ []
unfolding groups_of
groups_small room x h = rw (small x h, whole x h) refl
  where
    small : (x : ℕ) → x < 128 → x / 128 ≡ 0
    small x h = omega arith

    whole : (x : ℕ) → x < 128 → x % 128 ≡ x
    whole x h = omega arith

pub groups_large :
    (room x : ℕ) → 128 ≤ x → groups_of (suc room) x ≡ x % 128 ∷ groups_of room (x / 128)
unfolding groups_of
groups_large room x h = ground (arith, large)
  where
    large : 0 < x / 128
    large = omega arith

-- One continuing byte is read: the seven bits go below the mask so far.
read_more :
    (count n mask group v : ℕ) (bytes : Bytes)
    → count ≡ suc n
    → mask * 128 + group ≡ v
    → group < 128
    → v < 2 ^ 32
    → read_groups count mask ((group + 128) ∷ bytes) ≡ read_groups n v bytes
unfolding read_groups
read_more count n mask group v bytes e q g h = rw (e, low_bits group g, q, fits v h) (ground arith)

read-put_high :
    (room x n : ℕ) (bytes : Bytes)
    → x < 2 ^ 32
    → x < 128 ^ suc room
    → read_groups (length (groups_of (suc room) x) + n) 0 (put_high (groups_of (suc room) x) bytes)
      ≡ read_groups n x bytes
unfolding put_high
read-put_high zero x n bytes h k =
    let small : x < 128 = omega arith in
    rw (groups_small zero x small)
      (read_more (1 + n) n 0 x x bytes (omega arith) (omega arith) small h)
read-put_high (suc room) x n bytes h k = elim (Bool-cases (ltb x 128)) [
  | inl q ↦
      rw (groups_small (suc room) x (ltb→lt x 128 q))
        (read_more (1 + n) n 0 x x bytes (omega arith) (omega arith) (ltb→lt x 128 q) h)
  | inr q ↦
      let large : 128 ≤ x = ground (arith, q) in
      let groups = groups_of (suc room) (x / 128) in
      rw (groups_large (suc room) x large) (
        ap (λ c. read_groups c 0 (put_high groups ((x % 128 + 128) ∷ bytes))) (shift groups)
        ∙ read-put_high room (x / 128) (suc n) ((x % 128 + 128) ∷ bytes) (omega arith)
            (shrinks (suc room) x k)
        ∙ read_more (suc n) n (x / 128) (x % 128) x bytes refl (omega arith) (omega arith) h)
]
  where
    shift : (groups : List ℕ) → suc (length groups) + n ≡ length groups + suc n
    shift groups = omega arith

put_high-append :
    (groups : List ℕ) (bytes rest : Bytes)
    → put_high groups bytes ++ rest ≡ put_high groups (bytes ++ rest)
unfolding put_high
put_high-append [] bytes rest = refl
put_high-append (g ∷ gs) bytes rest = put_high-append gs ((g + 128) ∷ bytes) rest

-- The last byte is read: its high bit is clear.
read_last :
    (count mask group v : ℕ) (bytes : Bytes)
    → 0 < count
    → mask * 128 + group ≡ v
    → group < 128
    → v < 2 ^ 32
    → read_groups count mask (group ∷ bytes) ≡ some (v, bytes)
unfolding read_groups
read_last zero mask group v bytes c q g h = absurd (omega arith)
read_last (suc count) mask group v bytes c q g h =
    rw (whole group g, q, fits v h, lt→ltb group 128 g) refl
  where
    whole : (x : ℕ) → x < 128 → x % 128 ≡ x
    whole x h = omega arith

-- Every mask of 32 bits is read back from the bytes that are written for it, and what follows them
-- is left.
pub read_face_bits-append_face_bits :
    (mask : ℕ) (rest : Bytes)
    → mask < 2 ^ 32
    → read_face_bits (append_face_bits mask ++ rest) ≡ some (mask, rest)
unfolding read_face_bits append_face_bits put_groups put_high
read_face_bits-append_face_bits mask rest h = elim (Bool-cases (ltb mask 128)) [
  | inl q ↦
      rw (groups_small 4 mask (ltb→lt mask 128 q))
        (read_last 5 0 mask mask rest (omega arith) (omega arith) (ltb→lt mask 128 q) h)
  | inr q ↦
      let large : 128 ≤ mask = ground (arith, q) in
      let groups = groups_of 4 (mask / 128) in
      let few : length groups ≤ 4 = length-groups_of 4 (mask / 128) in
      let left = 5 - length groups in
      rw (groups_large 4 mask large, put_high-append groups (mask % 128 ∷ []) rest)
        (ap (λ c. read_groups c 0 (put_high groups (mask % 128 ∷ rest))) (omega arith)
          ∙ read-put_high 3 (mask / 128) left (mask % 128 ∷ rest) (omega arith) (omega arith)
          ∙ read_last left (mask / 128) (mask % 128) mask rest (omega arith) (omega arith)
              (omega arith) h)
]
