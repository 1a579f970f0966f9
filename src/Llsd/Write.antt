-- ===== src/Llsd/Write.antt =====
-- `write_value` and `to_binary` of region/src/llsd_binary.cpp. What is written stands in front of
-- what is written after it.
use homeworldz.Common.{
  ℕ, zero, suc, ◌+◌, ◌-◌, ◌*◌, ◌/◌, ◌%◌, ◌^◌, true, false, Option, none, some, [], ◌∷◌, ◌++◌, ◌&&◌,
  length, leb, ◌==◌, if◌then◌else◌, replicate,
}
use homeworldz.Common.Bytes.{Bytes}
use homeworldz.Common.Words.{to_u32}
use homeworldz.Viewer.Wire.{append_be_u32}
use homeworldz.Llsd.Value.{
  Value, undefined, boolean, integer, real, text, uuid, uri, binary, map_of, array_of, Members,
  no_members, member, Values, no_values, value, members_size, values_size,
}

abbrev pub append_counted : Bytes → Bytes → Bytes
append_counted bytes rest = append_be_u32 (length bytes) (bytes ++ rest)

-- The digit that a character stands for.
abbrev pub digit_of : ℕ → Option ℕ
digit_of c =
    if leb 48 c && leb c 57
    then some (c - 48)
    else (if leb 97 c && leb c 102
        then some (c - 97 + 10)
        else (if leb 65 c && leb c 70 then some (c - 65 + 10) else none))

abbrev pub cons_byte : ℕ → Option Bytes → Option Bytes
cons_byte b none = none
cons_byte b (some bs) = some (b ∷ bs)

-- The loop of `append_uuid`, with the number of bytes that are still to come and the digit that
-- waits for another: `none` is a malformed text.
unfoldable pub uuid_bytes : ℕ → Option ℕ → Bytes → Option Bytes
uuid_bytes zero none [] = some []
uuid_bytes (suc left) none [] = none
uuid_bytes left (some high) [] = none
uuid_bytes left high (c ∷ cs) = elim (c == 45) [
  | true ↦ uuid_bytes left high cs
  | false ↦ elim (digit_of c) [
    | none ↦ none
    | some digit ↦ elim high [
      | none ↦ uuid_bytes left (some digit) cs
      | some h ↦ elim left [
        | zero ↦ none
        | suc others ↦ cons_byte (h * 16 + digit) (uuid_bytes others none cs)
      ]
    ]
  ]
]

abbrev pub or_nil : Option Bytes → Bytes
or_nil none = replicate 16 0
or_nil (some bytes) = bytes

unfoldable pub append_uuid : Bytes → Bytes → Bytes
append_uuid t rest = or_nil (uuid_bytes 16 none t) ++ rest

unfoldable mutual
  pub write_value : Value → Bytes → Bytes
  write_value undefined rest = 33 ∷ rest
  write_value (boolean b) rest = (if b then 49 else 48) ∷ rest
  write_value (integer z) rest = 105 ∷ append_be_u32 (to_u32 z) rest
  write_value (real bits) rest =
      114 ∷ append_be_u32 (bits / 2 ^ 32) (append_be_u32 (bits % 2 ^ 32) rest)
  write_value (uuid t) rest = 117 ∷ append_uuid t rest
  write_value (text t) rest = 115 ∷ append_counted t rest
  write_value (uri t) rest = 108 ∷ append_counted t rest
  write_value (binary bytes) rest = 98 ∷ append_counted bytes rest
  write_value (map_of ms) rest =
      123 ∷ append_be_u32 (members_size ms) (write_members ms (125 ∷ rest))
  write_value (array_of vs) rest = 91 ∷ append_be_u32 (values_size vs) (write_values vs (93 ∷ rest))

  pub write_members : Members → Bytes → Bytes
  write_members no_members rest = rest
  write_members (member key v ms) rest =
      107 ∷ append_counted key (write_value v (write_members ms rest))

  pub write_values : Values → Bytes → Bytes
  write_values no_values rest = rest
  write_values (value v vs) rest = write_value v (write_values vs rest)

unfoldable pub to_binary : Value → Bytes
to_binary v = write_value v []
