-- ===== src/Llsd/Tests.antt =====
-- A nested value, its bytes, and a date.
use homeworldz.Common.{
  ℕ, zero, suc, ◌≤◌, ◌≡◌, refl, some, [], ◌∷◌, ◌^◌, ◌+◌, arith, replicate, true,
}
use homeworldz.Common.Bytes.{Bytes}
use homeworldz.Common.Int.{negsuc}
use homeworldz.Viewer.Wire.{read_be_u32}
use homeworldz.Llsd.Value.{
  Value, integer, real, text, uuid, boolean, map_of, array_of, no_members, member, no_values, value,
}
use homeworldz.Llsd.Write.{to_binary, write_value}
use homeworldz.Llsd.Parse.{
  uuid_text, parse_binary, parse_value, parse_tagged, take_byte, take_u64, take_u32,
}
use homeworldz.Llsd.Sound.{IsSound, IsUuid, AllBytes, depth}
use homeworldz.Llsd.Parsed.{parse_binary_again}
use homeworldz.Llsd.RoundTrip.{parse_binary-to_binary}

abbrev id_bytes : Bytes
id_bytes = 0 ∷ 171 ∷ replicate 14 255

abbrev id_text : Bytes
id_text = uuid_text 0 id_bytes

abbrev list : Value
list = array_of (value (integer (negsuc 1)) (value (text (104 ∷ 105 ∷ [])) no_values))

abbrev nested : Value
nested =
    map_of (
      member (107 ∷ []) (uuid id_text)
        (member [] list (member (98 ∷ []) (boolean true) no_members)))

full_bytes : (n : ℕ) → AllBytes (replicate n 255)
full_bytes zero = tt
full_bytes (suc n) = (omega arith, full_bytes n)

id_text-IsUuid : IsUuid id_text
id_text-IsUuid = record {
  bytes = id_bytes;
  sixteen = refl;
  all_bytes = (omega arith, (omega arith, full_bytes 14));
  written = refl;
}

nested-IsSound : IsSound nested
unfolding IsSound
nested-IsSound = (
  omega arith,
  (
    omega arith,
    id_text-IsUuid,
    (omega arith, (omega arith, (omega arith, (omega arith, tt))), (omega arith, tt, tt)),
  ),
)

parse_binary-to_binary_example : parse_binary (to_binary nested) ≡ some nested
unfolding depth
parse_binary-to_binary_example = parse_binary-to_binary nested nested-IsSound

-- A date is read as a real, which is written with another tag.
abbrev date_bytes : Bytes
date_bytes = 100 ∷ 64 ∷ 0 ∷ 0 ∷ 0 ∷ 0 ∷ 0 ∷ 0 ∷ 1 ∷ []

date_bytes-AllBytes : AllBytes date_bytes
date_bytes-AllBytes = (
  omega arith,
  (
    omega arith,
    (
      omega arith,
      (omega arith, (omega arith, (omega arith, (omega arith, (omega arith, (omega arith, tt)))))),
    ),
  ),
)

parse_binary-date : parse_binary date_bytes ≡ some (real (2 ^ 62 + 1))
unfolding parse_binary parse_value take_byte parse_tagged take_u64 take_u32 read_be_u32
parse_binary-date = refl

parse_binary_again_example :
    IsSound (real (2 ^ 62 + 1))
    × (depth (real (2 ^ 62 + 1)) ≤ 33)
    × (parse_binary (to_binary (real (2 ^ 62 + 1))) ≡ some (real (2 ^ 62 + 1)))
parse_binary_again_example =
    parse_binary_again date_bytes (real (2 ^ 62 + 1)) date_bytes-AllBytes parse_binary-date

to_binary-date : to_binary (real (2 ^ 62 + 1)) ≡ 114 ∷ 64 ∷ 0 ∷ 0 ∷ 0 ∷ 0 ∷ 0 ∷ 0 ∷ 1 ∷ []
unfolding to_binary write_value
to_binary-date = refl
