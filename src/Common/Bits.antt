-- ===== src/Common/Bits.antt =====
-- Single bits of an unsigned number.
use homeworldz.Common.{
  ℕ, zero, suc, ◌+◌, ◌*◌, ◌/◌, ◌%◌, ◌<◌, ◌≡◌, refl, Bool, true, false, arith, ◌==◌, if◌then◌else◌,
}

-- `(mask & (1u << index)) != 0`
unfoldable pub has_bit : ℕ → ℕ → Bool
has_bit zero mask = mask % 2 == 1
has_bit (suc index) mask = has_bit index (mask / 2)

-- `mask & ~(1u << index)`
unfoldable pub without_bit : ℕ → ℕ → ℕ
without_bit zero mask = mask / 2 * 2
without_bit (suc index) mask = without_bit index (mask / 2) * 2 + mask % 2

-- `mask | (1u << index)`
unfoldable pub with_bit : ℕ → ℕ → ℕ
with_bit zero mask = mask / 2 * 2 + 1
with_bit (suc index) mask = with_bit index (mask / 2) * 2 + mask % 2

pub has_bit-zero : (index : ℕ) → has_bit index 0 ≡ false
unfolding has_bit
has_bit-zero zero = refl
has_bit-zero (suc index) = has_bit-zero index

half : (a b : ℕ) → b < 2 → (a * 2 + b) / 2 ≡ a
half a b h = omega arith

halved : (a : ℕ) → a * 2 / 2 ≡ a
halved a = omega arith

bit : (m : ℕ) → m % 2 < 2
bit m = omega arith

pub has_bit-without_bit :
    (other index mask : ℕ)
    → has_bit other (without_bit index mask)
      ≡ (if other == index then false else has_bit other mask)
unfolding has_bit without_bit
has_bit-without_bit zero zero mask = ground arith
has_bit-without_bit zero (suc index) mask = ground arith
has_bit-without_bit (suc other) zero mask = rw (halved (mask / 2)) (ground arith)
has_bit-without_bit (suc other) (suc index) mask =
    rw (half (without_bit index (mask / 2)) (mask % 2) (bit mask))
      (ground (arith, has_bit-without_bit other index (mask / 2)))

pub has_bit-with_bit :
    (other index mask : ℕ)
    → has_bit other (with_bit index mask) ≡ (if other == index then true else has_bit other mask)
unfolding has_bit with_bit
has_bit-with_bit zero zero mask = ground arith
has_bit-with_bit zero (suc index) mask = ground arith
has_bit-with_bit (suc other) zero mask = rw (half (mask / 2) 1 (omega arith)) (ground arith)
has_bit-with_bit (suc other) (suc index) mask =
    rw (half (with_bit index (mask / 2)) (mask % 2) (bit mask))
      (ground (arith, has_bit-with_bit other index (mask / 2)))
