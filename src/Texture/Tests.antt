-- ===== src/Texture/Tests.antt =====
-- The theorems about texture entries, and a stream that stops inside a field.
use homeworldz.Common.{ℕ, ◌≡◌, refl, Bool, true, false, some, [], ◌∷◌, ◌++◌, arith, map, replicate}
use homeworldz.Texture.FaceBits.{read_face_bits, append_face_bits, read_face_bits-append_face_bits}
use homeworldz.Texture.Entry.{
  Field, FieldValues, Entry, field_widths, values_of, set_face, face_value, parse, encode,
  parse_fields, parse_field, parse_exceptions, Read, got, malformed, out_of_fuel,
}
use homeworldz.Texture.RoundTrip.{AllWritable, read_back, parse-encode}
use homeworldz.Texture.Faces.{IsPresent, face_value-set_face}

abbrev plain_values : ℕ → FieldValues
plain_values width = record {
  fallback = replicate width 1;
  exceptions = (6, replicate width 2) ∷ [];
  present = true;
}

abbrev plain_entry : Entry
plain_entry = map plain_values field_widths

plain_glow : IsPresent Field.glow (values_of plain_entry Field.glow)
plain_glow = record { present = refl; fallback_wide = refl; all_wide = (refl, tt) }

face_value-set_face_example :
    face_value (set_face plain_entry Field.glow 3 (9 ∷ [])) Field.glow 3 ≡ 9 ∷ []
face_value-set_face_example =
    face_value-set_face plain_entry Field.glow Field.glow 3 3 (9 ∷ []) refl plain_glow refl
      (omega arith) (omega arith)

read_face_bits-append_face_bits_example :
    read_face_bits (append_face_bits 1_000_000 ++ 5 ∷ []) ≡ some (1_000_000, 5 ∷ [])
read_face_bits-append_face_bits_example =
    read_face_bits-append_face_bits 1_000_000 (5 ∷ []) (omega arith)

-- Two fields are written and nine are left out; the second fallback has not its field's width.
abbrev short_entry : Entry
short_entry =
    record { fallback = replicate 16 7; exceptions = []; present = true }
    ∷ record { fallback = []; exceptions = (300, 1 ∷ 2 ∷ 3 ∷ 4 ∷ []) ∷ []; present = false }
    ∷ replicate 9 (record { fallback = []; exceptions = []; present = false })

short_entry-AllWritable : AllWritable field_widths short_entry
short_entry-AllWritable = (
  tt,
  ((omega arith, omega arith, refl, tt), (tt, (tt, (tt, (tt, (tt, (tt, (tt, (tt, (tt, tt)))))))))),
)

parse-encode_example : parse (encode short_entry) ≡ got (read_back field_widths short_entry) []
parse-encode_example = parse-encode short_entry short_entry-AllWritable

abbrev offset_read : Read Entry → Bool
offset_read (got entry rest) = (values_of entry Field.offset_s).present
offset_read malformed = false
offset_read out_of_fuel = false

-- After the texture two bytes are left, too few for the colour: the later field of that width takes
-- them, though the stream has stopped.
short_stream : offset_read (parse (replicate 16 3 ++ 0 ∷ 1 ∷ 2 ∷ [])) ≡ true
unfolding parse parse_fields parse_field parse_exceptions
short_stream = refl
