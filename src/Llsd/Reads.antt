-- ===== src/Llsd/Reads.antt =====
-- What the readers of numbers and bytes return.
use homeworldz.Common.{
  ℕ, zero, suc, ◌≤◌, ◌<◌, ◌^◌, ◌≡◌, Option, none, some, [], ◌∷◌, arith, length, ltb, ◌==◌, if_both,
  take, drop, length-take,
}
use homeworldz.Common.Bytes.{Bytes}
use homeworldz.Viewer.Wire.{byte_at, read_be_u32}
use homeworldz.Llsd.Parse.{
  Parser, and_then, take_byte, take_u32, take_u64, take_bytes, parse_counted, expect,
  maximum_elements, take_count,
}
use homeworldz.Llsd.Sound.{AllBytes}

-- A result has a property, and the bytes that are left are bytes.
abbrev pub Gives : {A : Type 0} → (A → Type 0) → Option (A × Bytes) → Type 0
Gives P none = Unit {0}
Gives P (some (a, rest)) = P a × AllBytes rest

pub Gives-then :
    {A B : Type 0} (P : A → Type 0) (Q : B → Type 0) (o : Option (A × Bytes)) (f : A → Parser B)
    → Gives P o
    → ((a : A) (s : Bytes) → P a → AllBytes s → Gives Q (f a s))
    → Gives Q (and_then o f)
Gives-then P Q none f h k = tt
Gives-then P Q (some (a, s)) f (p, all) k = k a s p all

byte_at-lt : (s : Bytes) (i : ℕ) → AllBytes s → byte_at s i < 256
byte_at-lt [] i h = omega arith
byte_at-lt (b ∷ s) zero (h, hs) = h
byte_at-lt (b ∷ s) (suc i) (h, hs) = byte_at-lt s i hs

drop-AllBytes : (n : ℕ) (s : Bytes) → AllBytes s → AllBytes (drop n s)
drop-AllBytes zero s h = h
drop-AllBytes (suc n) [] h = tt
drop-AllBytes (suc n) (b ∷ s) (h, hs) = drop-AllBytes n s hs

take-AllBytes : (n : ℕ) (s : Bytes) → AllBytes s → AllBytes (take n s)
take-AllBytes zero s h = tt
take-AllBytes (suc n) [] h = tt
take-AllBytes (suc n) (b ∷ s) (h, hs) = (h, take-AllBytes n s hs)

pub take_byte-Gives : (s : Bytes) → AllBytes s → Gives (λ b. b < 256) (take_byte s)
unfolding take_byte
take_byte-Gives [] h = tt
take_byte-Gives (b ∷ s) h = h

read_be_u32-lt : (s : Bytes) → AllBytes s → read_be_u32 s 0 < 2 ^ 32
unfolding read_be_u32
read_be_u32-lt s h =
    omega (arith, byte_at-lt s 0 h, byte_at-lt s 1 h, byte_at-lt s 2 h, byte_at-lt s 3 h)

pub take_u32-Gives : (s : Bytes) → AllBytes s → Gives (λ n. n < 2 ^ 32) (take_u32 s)
unfolding take_u32
take_u32-Gives s h =
    if_both (Gives (λ n. n < 2 ^ 32)) (ltb (length s) 4) (λ q. tt)
      (λ q. (read_be_u32-lt s h, drop-AllBytes 4 s h))

pub take_u64-Gives : (s : Bytes) → AllBytes s → Gives (λ n. n < 2 ^ 64) (take_u64 s)
unfolding take_u64
take_u64-Gives s h =
    Gives-then (λ n. n < 2 ^ 32) (λ n. n < 2 ^ 64) (take_u32 s) _ (take_u32-Gives s h)
      λ high t p all.
        Gives-then (λ n. n < 2 ^ 32) (λ n. n < 2 ^ 64) (take_u32 t) _ (take_u32-Gives t all)
          λ low r q rest. (omega (arith, p, q), rest)

pub take_bytes-Gives :
    (n : ℕ) (s : Bytes) → AllBytes s → Gives (λ xs. (length xs ≡ n) × AllBytes xs) (take_bytes n s)
unfolding take_bytes
take_bytes-Gives n s h =
    if_both (Gives (λ xs. (length xs ≡ n) × AllBytes xs)) (ltb (length s) n) (λ q. tt)
      (λ q. ((ground (arith, q, length-take n s), take-AllBytes n s h), drop-AllBytes n s h))

pub parse_counted-Gives :
    (s : Bytes) → AllBytes s → Gives (λ xs. length xs < 2 ^ 32) (parse_counted s)
unfolding parse_counted
parse_counted-Gives s h =
    Gives-then (λ n. n < 2 ^ 32) (λ xs. length xs < 2 ^ 32) (take_u32 s) _ (take_u32-Gives s h)
      λ n t p all. longer n p (take_bytes n t) (take_bytes-Gives n t all)
  where
    longer :
        (n : ℕ)
        → n < 2 ^ 32
        → (o : Option (Bytes × Bytes)) → Gives (λ xs. (length xs ≡ n) × AllBytes xs) o
        → Gives (λ xs. length xs < 2 ^ 32) o
    longer n p none h = tt
    longer n p (some (xs, rest)) ((e, _), all) = (omega (arith, e, p), all)

pub take_count-Gives : (s : Bytes) → AllBytes s → Gives (λ n. n ≤ 2 ^ 20) (take_count s)
unfolding take_count
take_count-Gives s h =
    Gives-then (λ n. n < 2 ^ 32) (λ n. n ≤ 2 ^ 20) (take_u32 s) _ (take_u32-Gives s h)
      λ n t p all.
        if_both {A = Parser ℕ} (λ f. Gives (λ m. m ≤ 2 ^ 20) (f t)) (ltb maximum_elements n)
          (λ q. tt) (λ q. (ground (arith, q), all))

pub expect-Gives : (b : ℕ) (s : Bytes) → AllBytes s → Gives (λ _. Unit {0}) (expect b s)
unfolding expect
expect-Gives b s h =
    Gives-then (λ c. c < 256) (λ _. Unit {0}) (take_byte s) _ (take_byte-Gives s h)
      λ c t p all.
        if_both {A = Parser ℕ} (λ f. Gives (λ _. Unit {0}) (f t)) (c == b) (λ q. (tt, all))
          (λ q. tt)
