-- ===== src/Script/Decimal.antt =====
-- `std::to_string(int)`: the decimal digits of a number, and the sign.
use homeworldz.Common.{ℕ, zero, suc, ◌+◌, ◌/◌, ◌%◌, [], ◌∷◌, ltb, if◌then◌else◌}
use homeworldz.Common.Int.{ℤ, pos, negsuc}
use homeworldz.Common.Bytes.{Bytes}

-- The digits of `n` in front of `tail`. Ten rounds are enough below 10 ^ 10.
unfoldable pub digits_onto : ℕ → ℕ → Bytes → Bytes
digits_onto zero n tail = tail
digits_onto (suc fuel) n tail =
    let front = digits_onto fuel (n / 10) ((b'0' + n % 10) ∷ tail) in
    if ltb n 10 then (b'0' + n) ∷ tail else front

unfoldable pub nat_to_string : ℕ → Bytes
unfolding digits_onto
nat_to_string n = digits_onto 10 n []

unfoldable pub int_to_string : ℤ → Bytes
unfolding nat_to_string
int_to_string (pos n) = nat_to_string n
int_to_string (negsuc n) = b'-' ∷ nat_to_string (suc n)
