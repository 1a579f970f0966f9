-- ===== src/Llsd/Parse.antt =====
-- `Reader`, `parse_value` and `parse_binary` of region/src/llsd_binary.cpp. A reader is the bytes
-- that are left; a parser that returns false is `none`.
use homeworldz.Common.{
  ℕ, zero, suc, ◌+◌, ◌*◌, ◌/◌, ◌%◌, ◌^◌, true, false, Option, none, some, [], ◌∷◌, ◌||◌, length,
  ltb, ◌==◌, if◌then◌else◌, take, drop,
}
use homeworldz.Common.Bytes.{Bytes}
use homeworldz.Common.Words.{to_i32}
use homeworldz.Viewer.Wire.{read_be_u32}
use homeworldz.Llsd.Value.{
  Value, undefined, boolean, integer, real, text, uuid, uri, binary, map_of, array_of, Members,
  no_members, member, Values, no_values, value, Tag, tag_undefined, tag_true, tag_false,
  tag_integer, tag_real, tag_uuid, tag_binary, tag_string, tag_uri, tag_date, tag_map, tag_array,
  tag_unknown, tag_of,
}

abbrev pub Parser : Type 0 → Type 0
Parser A = Bytes → Option (A × Bytes)

abbrev pub and_then : {A B : Type 0} → Option (A × Bytes) → (A → Parser B) → Option (B × Bytes)
and_then none f = none
and_then (some (a, rest)) f = f a rest

infixl 5 ◌>>=◌ ◌>>◌
abbrev pub ◌>>=◌ : {A B : Type 0} → Parser A → (A → Parser B) → Parser B
(p >>= f) s = and_then (p s) f

abbrev pub ◌>>◌ : {A B : Type 0} → Parser A → Parser B → Parser B
(p >> q) s = and_then (p s) (λ _. q)

abbrev pub give : {A : Type 0} → A → Parser A
give a s = some (a, s)

abbrev pub refuse : {A : Type 0} → Parser A
refuse s = none

unfoldable pub take_byte : Parser ℕ
take_byte [] = none
take_byte (b ∷ s) = some (b, s)

unfoldable pub take_u32 : Parser ℕ
take_u32 s = if ltb (length s) 4 then none else some (read_be_u32 s 0, drop 4 s)

unfoldable pub take_u64 : Parser ℕ
take_u64 = do high ← take_u32; low ← take_u32; give (high * 2 ^ 32 + low)

unfoldable pub take_bytes : ℕ → Parser Bytes
take_bytes count s = if ltb (length s) count then none else some (take count s, drop count s)

unfoldable pub parse_counted : Parser Bytes
parse_counted = do size ← take_u32; take_bytes size

-- A byte that has to be the given one.
unfoldable pub expect : ℕ → Parser ℕ
expect byte = do b ← take_byte; if b == byte then give b else refuse

abbrev pub maximum_elements : ℕ
maximum_elements = 2 ^ 20

unfoldable pub take_count : Parser ℕ
take_count = do count ← take_u32; if ltb maximum_elements count then refuse else give count

-- `digits[...]`
unfoldable pub digit_char : ℕ → ℕ
digit_char digit = if ltb digit 10 then 48 + digit else 87 + digit

-- The text of a UUID, whose bytes are counted from an index on.
unfoldable pub uuid_text : ℕ → Bytes → Bytes
uuid_text index [] = []
uuid_text index (b ∷ bs) =
    let others = digit_char (b / 16 % 16) ∷ digit_char (b % 16) ∷ uuid_text (index + 1) bs in
    if index == 4 || ((index == 6) || ((index == 8) || (index == 10))) then 45 ∷ others else others

-- The loops over the members of a map and the elements of an array.
unfoldable pub parse_members : Parser Value → ℕ → Parser Members
parse_members inner zero = give no_members
parse_members inner (suc count) = do
  expect 107
  key ← parse_counted
  v ← inner
  others ← parse_members inner count
  give (member key v others)

unfoldable pub parse_values : Parser Value → ℕ → Parser Values
parse_values inner zero = give no_values
parse_values inner (suc count) = do
  v ← inner
  others ← parse_values inner count
  give (value v others)

unfoldable pub parse_tagged : Parser Value → Tag → Parser Value
parse_tagged inner tag_undefined = give undefined
parse_tagged inner tag_true = give (boolean true)
parse_tagged inner tag_false = give (boolean false)
parse_tagged inner tag_integer = do raw ← take_u32; give (integer (to_i32 raw))
parse_tagged inner tag_real = do raw ← take_u64; give (real raw)
parse_tagged inner tag_date = do raw ← take_u64; give (real raw)
parse_tagged inner tag_uuid = do bytes ← take_bytes 16; give (uuid (uuid_text 0 bytes))
parse_tagged inner tag_string = do bytes ← parse_counted; give (text bytes)
parse_tagged inner tag_uri = do bytes ← parse_counted; give (uri bytes)
parse_tagged inner tag_binary = do bytes ← parse_counted; give (binary bytes)
parse_tagged inner tag_map = do
  count ← take_count
  members ← parse_members inner count
  expect 125
  give (map_of members)
parse_tagged inner tag_array = do
  count ← take_count
  elements ← parse_values inner count
  expect 93
  give (array_of elements)
parse_tagged inner tag_unknown = refuse

-- The recursion is on the levels that are left: `maximum_depth` + 1 - `depth`.
unfoldable pub parse_value : ℕ → Parser Value
parse_value zero = refuse
parse_value (suc levels) = do tag ← take_byte; parse_tagged (parse_value levels) (tag_of tag)

abbrev pub maximum_depth : ℕ
maximum_depth = 32

abbrev pub without_rest : Option (Value × Bytes) → Option Value
without_rest none = none
without_rest (some (v, rest)) = some v

unfoldable pub parse_binary : Bytes → Option Value
parse_binary bytes = without_rest (parse_value (maximum_depth + 1) bytes)
