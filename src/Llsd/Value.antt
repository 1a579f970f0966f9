-- ===== src/Llsd/Value.antt =====
-- `Value` of region/include/homeworldz/llsd_xml.h, and the tags of its binary form.
--
-- Of the fields of the structure a value has those of its type; nothing reads the others. A real is
-- given by the 64 bits of the `double`.
use homeworldz.Common.{ℕ, suc, Bool, List, [], ◌∷◌, if◌then◌else◌, ◌==◌}
use homeworldz.Common.Bytes.{Bytes}
use homeworldz.Common.Int.{ℤ}

-- `Members` and `Values` are the vectors of a map's members and of an array's elements.
mutual
  pub data Value : Type 0 where
    undefined : Value
    boolean : Bool → Value
    integer : ℤ → Value
    real : ℕ → Value
    text : Bytes → Value
    uuid : Bytes → Value
    uri : Bytes → Value
    binary : Bytes → Value
    map_of : Members → Value
    array_of : Values → Value

  pub data Members : Type 0 where
    no_members : Members
    member : Bytes → Value → Members → Members

  pub data Values : Type 0 where
    no_values : Values
    value : Value → Values → Values

abbrev pub members_size : Members → ℕ
members_size no_members = 0
members_size (member key v ms) = suc (members_size ms)

abbrev pub values_size : Values → ℕ
values_size no_values = 0
values_size (value v vs) = suc (values_size vs)

pub data Tag : Type 0 where
  tag_undefined tag_true tag_false tag_integer tag_real tag_uuid tag_binary tag_string : Tag
  tag_uri tag_date tag_map tag_array tag_unknown : Tag

-- The constants `tag_undefined` to `tag_array`, in the order in which a byte is compared with them.
abbrev pub tags : List (ℕ × Tag)
tags =
    (33, tag_undefined)
    ∷ (49, tag_true)
    ∷ (48, tag_false)
    ∷ (105, tag_integer)
    ∷ (114, tag_real)
    ∷ (100, tag_date)
    ∷ (117, tag_uuid)
    ∷ (115, tag_string)
    ∷ (108, tag_uri)
    ∷ (98, tag_binary)
    ∷ (123, tag_map)
    ∷ (91, tag_array)
    ∷ []

abbrev pub tag_in : ℕ → List (ℕ × Tag) → Tag
tag_in b [] = tag_unknown
tag_in b ((c, tag) ∷ others) = let later = tag_in b others in if b == c then tag else later

abbrev pub tag_of : ℕ → Tag
tag_of b = tag_in b tags
