-- ===== src/Viewer/ZeroCode.antt =====
-- `zero_encode` and `zero_decode` of region/src/viewer_protocol.cpp: a run of zero bytes is a zero and
-- its length.
use homeworldz.Common.{
  ℕ, zero, suc, ◌+◌, ◌-◌, ◌≤◌, ◌≡◌, refl, ap, ◌∙◌, false, Option, none, some, [], ◌∷◌, ◌++◌, ◌||◌,
  arith, length, ltb, ◌==◌, if◌then◌else◌, replicate, Bool-cases, inl, inr,
}
use native.Mathlib.Nat.{add-zero, suc-add}
use homeworldz.Common.Bytes.{Bytes}

abbrev pub zeros : ℕ → Bytes
zeros n = replicate n 0

-- The end of a run of `count` zeros, in front of what is written next.
abbrev pub close_run : ℕ → Bytes → Bytes
close_run zero rest = rest
close_run (suc n) rest = 0 ∷ suc n ∷ rest

-- The loops of `zero_encode`, within a run of `count` zeros: a run of 255 is written out.
unfoldable pub encode_from : ℕ → Bytes → Bytes
encode_from count [] = close_run count []
encode_from count (b ∷ bs) =
    let count' = if b == 0 then (if count == 255 then 1 else count + 1) else 0 in
    let rest = encode_from count' bs in
    if b == 0
    then (if count == 255 then close_run 255 rest else rest)
    else close_run count (b ∷ rest)

unfoldable pub zero_encode : Bytes → Bytes
zero_encode input = encode_from 0 input

abbrev pub after : Bytes → Option Bytes → Option Bytes
after bytes none = none
after bytes (some rest) = some (bytes ++ rest)

-- The loop of `zero_decode`, with the size of the output so far.
unfoldable pub decode_from : ℕ → Bytes → Option Bytes
decode_from size [] = some []
decode_from size (b ∷ []) = if b == 0 then none else some (b ∷ [])
decode_from size (b ∷ n ∷ bs) =
    let next = after (b ∷ []) (decode_from (size + 1) (n ∷ bs)) in
    let run = after (zeros n) (decode_from (size + n) bs) in
    if b == 0 then (if (n == 0) || ltb (65535 - n) size then none else run) else next

unfoldable pub zero_decode : Bytes → Option Bytes
zero_decode input = decode_from 0 input

after_nothing : (o : Option Bytes) → o ≡ after [] o
after_nothing none = refl
after_nothing (some bytes) = refl

decode_from-close_run :
    (size count : ℕ) (rest : Bytes)
    → count ≤ 255
    → size + count ≤ 65535
    → decode_from size (close_run count rest)
      ≡ after (zeros count) (decode_from (size + count) rest)
unfolding decode_from
decode_from-close_run size zero rest h k = rw add-zero (after_nothing (decode_from size rest))
decode_from-close_run size (suc n) rest h k = ground arith

decode_from-cons :
    (size b : ℕ) (rest : Bytes)
    → (b == 0) ≡ false
    → decode_from size (b ∷ rest) ≡ after (b ∷ []) (decode_from (size + 1) rest)
unfolding decode_from
decode_from-cons size b [] h = ground (arith, h)
decode_from-cons size b (n ∷ rest) h = ground (arith, h)

decode_from-nil : (size : ℕ) → decode_from size [] ≡ some []
unfolding decode_from
decode_from-nil size = refl

zeros_suc : (n : ℕ) (bs : Bytes) → zeros (n + 1) ++ bs ≡ zeros n ++ (0 ∷ bs)
zeros_suc zero bs = refl
zeros_suc (suc n) bs = rw suc-add (ap (λ s. 0 ∷ s) (zeros_suc n bs))

decode_from-encode_from :
    (size count : ℕ) (bs : Bytes)
    → count ≤ 255
    → size + count + length bs ≤ 65535
    → decode_from size (encode_from count bs) ≡ some (zeros count ++ bs)
unfolding encode_from
decode_from-encode_from size count [] h k =
    decode_from-close_run size count [] h (omega arith)
    ∙ ap (after (zeros count)) (decode_from-nil (size + count))
decode_from-encode_from size count (b ∷ bs) h k = elim (Bool-cases (b == 0)) [
  | inl q ↦ elim (Bool-cases (count == 255)) [
    | inl e ↦
        let full : count ≡ 255 = ground (arith, e) in
        let zero_byte : b ≡ 0 = ground (arith, q) in
        rw (full, zero_byte)
          (decode_from-close_run size 255 (encode_from 1 bs) (omega arith) (omega arith)
            ∙ ap (after (zeros 255))
                (decode_from-encode_from (size + 255) 1 bs (omega arith) (omega arith)))
    | inr e ↦
        let zero_byte : b ≡ 0 = ground (arith, q) in
        let room : count ≤ 254 = ground (arith, e) in
        rw (e, zero_byte)
          (decode_from-encode_from size (count + 1) bs (omega arith) (omega arith)
            ∙ ap some (zeros_suc count bs))
  ]
  | inr q ↦ rw q (
      decode_from-close_run size count (b ∷ encode_from 0 bs) h (omega arith)
      ∙ ap (after (zeros count)) (
          decode_from-cons (size + count) b (encode_from 0 bs) q
          ∙ ap (after (b ∷ []))
              (decode_from-encode_from (size + count + 1) 0 bs (omega arith) (omega arith))))
]

-- What is written for at most 65535 bytes is read back as those bytes.
pub zero_decode-zero_encode :
    (input : Bytes) → length input ≤ 65535 → zero_decode (zero_encode input) ≡ some input
unfolding zero_decode zero_encode
zero_decode-zero_encode input h = decode_from-encode_from 0 0 input (omega arith) (omega arith)
