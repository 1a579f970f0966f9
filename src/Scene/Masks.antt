-- ===== src/Scene/Masks.antt =====
-- Masks of 32 permissions, and the operations that combine two of them bit by bit.
use homeworldz.Common.{
  ℕ, zero, suc, ◌+◌, ◌*◌, ◌/◌, ◌%◌, ◌≡◌, ap, ◌∙◌, Bool, true, false, ◌&&◌, ◌||◌, not, arith, ltb,
  ◌==◌, if◌then◌else◌, Bool-cases, inl, inr,
}
use homeworldz.Common.Bits.{
  has_bit, with_bit, without_bit, has_bit-zero, has_bit-with_bit, has_bit-without_bit,
}

unfoldable pub bitwise : (Bool → Bool → Bool) → ℕ → ℕ → ℕ → ℕ
bitwise f zero a b = 0
bitwise f (suc width) a b =
    bitwise f width (a / 2) (b / 2) * 2 + (if f (a % 2 == 1) (b % 2 == 1) then 1 else 0)

-- `a & b`
abbrev pub mask_and : ℕ → ℕ → ℕ
mask_and = bitwise (λ p q. p && q) 32

-- `a | b`
abbrev pub mask_or : ℕ → ℕ → ℕ
mask_or = bitwise (λ p q. p || q) 32

-- `a & ~b`
abbrev pub mask_without : ℕ → ℕ → ℕ
mask_without = bitwise (λ p q. p && not q) 32

halved_with : (rest : ℕ) (bit : Bool) → (rest * 2 + (if bit then 1 else 0)) / 2 ≡ rest
halved_with rest true = omega arith
halved_with rest false = omega arith

pub has_bit-bitwise :
    (f : Bool → Bool → Bool) (width i a b : ℕ)
    → has_bit i (bitwise f width a b) ≡ (ltb i width && f (has_bit i a) (has_bit i b))
unfolding bitwise has_bit
has_bit-bitwise f zero i a b = has_bit-zero i ∙ ground arith
has_bit-bitwise f (suc width) zero a b = elim (Bool-cases (f (a % 2 == 1) (b % 2 == 1))) [
  | inl q ↦ rw q (ground arith)
  | inr q ↦ rw q (ground arith)
]
has_bit-bitwise f (suc width) (suc i) a b =
    let rest = bitwise f width (a / 2) (b / 2) in
    let bit = f (a % 2 == 1) (b % 2 == 1) in
    ap (has_bit i) (halved_with rest bit)
    ∙ has_bit-bitwise f width i (a / 2) (b / 2)
    ∙ ap (λ t. t && f (has_bit i (a / 2)) (has_bit i (b / 2))) (ground arith)

-- All bits of one mask are bits of another.
abbrev pub Within : ℕ → ℕ → Type 0
Within a b = (i : ℕ) → has_bit i a ≡ true → has_bit i b ≡ true

pub Within-trans : (a b c : ℕ) → Within a b → Within b c → Within a c
Within-trans a b c f g i h = g i (f i h)

pub mask_and-Within : (a b : ℕ) → Within (mask_and a b) b
mask_and-Within a b i h = ground (arith, h, has_bit-bitwise (λ p q. p && q) 32 i a b)

pub mask_and-Within_first : (a b : ℕ) → Within (mask_and a b) a
mask_and-Within_first a b i h = ground (arith, h, has_bit-bitwise (λ p q. p && q) 32 i a b)

pub without_bit-Within : (bit a : ℕ) → Within (without_bit bit a) a
without_bit-Within bit a i h = ground (arith, h, has_bit-without_bit i bit a)

pub with_bit-Within : (bit a b : ℕ) → Within a b → Within (with_bit bit a) (with_bit bit b)
with_bit-Within bit a b f i h =
    ground (arith, h, has_bit-with_bit i bit a, has_bit-with_bit i bit b, f i)
