-- ===== src/Texture/Entry.antt =====
-- `Entry`, `parse`, `encode`, `face_value` and `set_face` of texture_entry.cpp. A position in the
-- bytes is the list of the bytes from there on.
use homeworldz.Common.{
  ℕ, zero, suc, Bool, true, false, Option, none, some, List, [], ◌∷◌, ◌++◌, ◌&&◌, ◌||◌, not, length,
  ltb, ◌==◌, if◌then◌else◌, take, drop, replicate, set, get_or,
}
use homeworldz.Common.Bytes.{Bytes}
use homeworldz.Common.Bits.{has_bit, without_bit, with_bit}
use homeworldz.Texture.FaceBits.{read_face_bits, append_face_bits}

pub data Field : Type 0 where
  texture colour scale_s scale_t offset_s offset_t rotation bump media glow material_id : Field

abbrev pub index : Field → ℕ
index Field.texture = 0
index Field.colour = 1
index Field.scale_s = 2
index Field.scale_t = 3
index Field.offset_s = 4
index Field.offset_t = 5
index Field.rotation = 6
index Field.bump = 7
index Field.media = 8
index Field.glow = 9
index Field.material_id = 10

abbrev pub field_widths : List ℕ
field_widths = 16 ∷ 4 ∷ 4 ∷ 4 ∷ 2 ∷ 2 ∷ 2 ∷ 1 ∷ 1 ∷ 1 ∷ 16 ∷ []

abbrev pub width_of : Field → ℕ
width_of field = get_or field_widths (index field) 0

abbrev pub max_faces : ℕ
max_faces = 32

-- A set of faces and their value.
abbrev pub Exceptions : Type 0
Exceptions = List (ℕ × Bytes)

pub record FieldValues : Type 0 where
  pub fallback : Bytes
  pub exceptions : Exceptions
  pub present : Bool

abbrev pub no_values : FieldValues
no_values = record { fallback = []; exceptions = []; present = false }

-- An array of eleven fields.
abbrev pub Entry : Type 0
Entry = List FieldValues

abbrev pub values_of : Entry → Field → FieldValues
values_of entry field = get_or entry (index field) no_values

pub data Read (A : Type 0) : Type 0 where
  got : A → Bytes → Read A
  malformed : Read A
  out_of_fuel : Read A

abbrev pub with_exception : ℕ × Bytes → Read Exceptions → Read Exceptions
with_exception e (got es bytes) = got (e ∷ es) bytes
with_exception e malformed = malformed
with_exception e out_of_fuel = out_of_fuel

abbrev pub read_value : (Bytes → Read Exceptions) → ℕ → Option (ℕ × Bytes) → Read Exceptions
read_value continue width none = malformed
read_value continue width (some (mask, after)) =
    if ltb (length after) width
    then malformed
    else with_exception (mask, take width after) (continue (drop width after))

-- The exceptions of a field, up to their terminator or the end of the stream.
unfoldable pub parse_exceptions : ℕ → ℕ → Bytes → Read Exceptions
parse_exceptions zero width bytes = out_of_fuel
parse_exceptions (suc fuel) width [] = got [] []
parse_exceptions (suc fuel) width (byte ∷ bytes) =
    let more = read_value (parse_exceptions fuel width) width (read_face_bits (byte ∷ bytes)) in
    if byte == 0 then got [] bytes else more

abbrev pub field_with : Bytes → Read Exceptions → Read FieldValues
field_with fallback (got es bytes) =
    got (record { fallback = fallback; exceptions = es; present = true }) bytes
field_with fallback malformed = malformed
field_with fallback out_of_fuel = out_of_fuel

-- A field that the stream is too short for is absent, and the next one is tried.
unfoldable pub parse_field : ℕ → Bytes → Read FieldValues
parse_field width bytes =
    if ltb (length bytes) width
    then got (record { fallback = replicate width 0; exceptions = []; present = false }) bytes
    else field_with (take width bytes)
        (parse_exceptions (suc (length (drop width bytes))) width (drop width bytes))

abbrev pub with_field : FieldValues → Read Entry → Read Entry
with_field v (got vs bytes) = got (v ∷ vs) bytes
with_field v malformed = malformed
with_field v out_of_fuel = out_of_fuel

abbrev pub and_fields : (Bytes → Read Entry) → Read FieldValues → Read Entry
and_fields continue (got v bytes) = with_field v (continue bytes)
and_fields continue malformed = malformed
and_fields continue out_of_fuel = out_of_fuel

unfoldable pub parse_fields : List ℕ → Bytes → Read Entry
parse_fields [] bytes = got [] bytes
parse_fields (width ∷ widths) bytes = and_fields (parse_fields widths) (parse_field width bytes)

unfoldable pub parse : Bytes → Read Entry
parse bytes = parse_fields field_widths bytes

abbrev pub is_empty : Exceptions → Bool
is_empty [] = true
is_empty (e ∷ es) = false

-- The index after the last field with content.
unfoldable pub last_of : Entry → ℕ
last_of [] = 0
last_of (v ∷ vs) =
    let last = last_of vs in
    if last == 0 then (if v.present || not (is_empty v.exceptions) then 1 else 0) else suc last

unfoldable pub encode_exceptions : ℕ → Exceptions → Bytes
encode_exceptions width [] = 0 ∷ []
encode_exceptions width ((mask, value) ∷ es) =
    let rest = encode_exceptions width es in
    if mask == 0 || not (length value == width)
    then rest
    else append_face_bits mask ++ (value ++ rest)

unfoldable pub encode_fields : ℕ → List ℕ → Entry → Bytes
encode_fields (suc n) (width ∷ widths) (v ∷ vs) =
    (if length v.fallback == width then v.fallback else replicate width 0)
    ++ (encode_exceptions width v.exceptions ++ encode_fields n widths vs)
encode_fields _ _ _ = []

unfoldable pub encode : Entry → Bytes
encode entry = encode_fields (last_of entry) field_widths entry

abbrev pub later_or : Option Bytes → Option Bytes → Option Bytes
later_or (some later) value = some later
later_or none value = value

-- The value of the last exception that covers the face.
unfoldable pub last_covering : ℕ → Exceptions → Option Bytes
last_covering face [] = none
last_covering face ((mask, value) ∷ es) =
    later_or (last_covering face es) (if has_bit face mask then some value else none)

abbrev pub or_fallback : Bytes → Option Bytes → Bytes
or_fallback fallback none = fallback
or_fallback fallback (some value) = value

unfoldable pub value_for : ℕ → FieldValues → Bytes
value_for face v =
    if not v.present && is_empty v.exceptions
    then []
    else if ltb face max_faces
    then or_fallback v.fallback (last_covering face v.exceptions)
    else v.fallback

unfoldable pub face_value : Entry → Field → ℕ → Bytes
face_value entry field face = value_for face (values_of entry field)

unfoldable pub clear_face : ℕ → Exceptions → Exceptions
clear_face face [] = []
clear_face face ((mask, value) ∷ es) = (without_bit face mask, value) ∷ clear_face face es

-- `std::equal` from the beginning of both to the end of the first. C++ reads past the end of a second
-- that is shorter; here they differ then.
unfoldable pub begins : Bytes → Bytes → Bool
begins [] value = true
begins (b ∷ bs) [] = false
begins (b ∷ bs) (c ∷ cs) = b == c && begins bs cs

-- The face joins the first exception with its value, or has one of its own.
unfoldable pub join_face : ℕ → Bytes → Exceptions → Exceptions
join_face face value [] = (with_bit face 0, value) ∷ []
join_face face value ((mask, v) ∷ es) =
    let rest = join_face face value es in
    if begins v value then (with_bit face mask, v) ∷ es else (mask, v) ∷ rest

-- `std::remove_if`
unfoldable pub drop_empty : Exceptions → Exceptions
drop_empty [] = []
drop_empty ((mask, v) ∷ es) =
    let rest = drop_empty es in if mask == 0 then rest else (mask, v) ∷ rest

unfoldable pub set_value : ℕ → ℕ → Bytes → FieldValues → FieldValues
set_value width face value v =
    let fallback = if length v.fallback == width then v.fallback else replicate width 0 in
    let cleared = clear_face face v.exceptions in
    record {
      fallback = fallback;
      exceptions =
          drop_empty (if begins value fallback then cleared else join_face face value cleared);
      present = true;
    }

unfoldable pub set_face : Entry → Field → ℕ → Bytes → Entry
set_face entry field face value =
    if ltb face max_faces && length value == width_of field
    then set entry (index field) (set_value (width_of field) face value (values_of entry field))
    else entry
