-- ===== src/Texture/Written.antt =====
-- What `parse` makes of the bytes that `encode` writes for the exceptions of a field.
use homeworldz.Common.{
  ℕ, zero, suc, ◌+◌, ◌/◌, ◌%◌, ◌<◌, ◌≡◌, refl, ap, ◌∙◌, some, List, [], ◌∷◌, ◌++◌, arith, length,
  ltb, ◌==◌, if◌then◌else◌, Bool-cases, inl, inr, append_assoc, length-append, take-append,
  drop-append,
}
use homeworldz.Common.Bytes.{Bytes}
use homeworldz.Texture.FaceBits.{
  read_face_bits, groups_of, put_high, append_face_bits, put_groups, groups_small, groups_large,
  read_face_bits-append_face_bits,
}
use homeworldz.Texture.Entry.{
  Exceptions, Read, got, read_value, parse_exceptions, encode_exceptions,
}

-- The first byte is there and is not zero.
abbrev Starts : Bytes → Type 0
Starts [] = ⊥
Starts (b ∷ bs) = 0 < b

put_high-Starts : (groups : List ℕ) (bytes : Bytes) → Starts bytes → Starts (put_high groups bytes)
unfolding put_high
put_high-Starts [] bytes h = h
put_high-Starts (g ∷ gs) bytes h = put_high-Starts gs ((g + 128) ∷ bytes) (omega arith)

Starts-append : (bs cs : Bytes) → Starts bs → Starts (bs ++ cs)
Starts-append [] cs h = absurd h
Starts-append (b ∷ bs) cs h = h

put_groups-Starts : (room x : ℕ) (bytes : Bytes) → Starts (put_high (groups_of (suc room) x) bytes)
unfolding put_high groups_of
put_groups-Starts room x bytes =
    put_high-Starts (if x / 128 == 0 then [] else groups_of room (x / 128))
      ((x % 128 + 128) ∷ bytes) (omega arith)

append_face_bits-Starts : (mask : ℕ) → 0 < mask → Starts (append_face_bits mask)
unfolding append_face_bits put_groups put_high
append_face_bits-Starts mask h = elim (Bool-cases (ltb mask 128)) [
  | inl q ↦ rw (groups_small 4 mask (ground (arith, q))) h
  | inr q ↦
      rw (groups_large 4 mask (ground (arith, q)))
        (put_groups-Starts 3 (mask / 128) (mask % 128 ∷ []))
]

-- The exceptions of a field can be written: each set of faces is a 32-bit mask that is not empty, and
-- each value has the field's width.
abbrev pub CanWrite : ℕ → Exceptions → Type 0
CanWrite width [] = Unit {0}
CanWrite width ((mask, value) ∷ es) =
    (0 < mask) × (mask < 4_294_967_296) × (length value ≡ width) × CanWrite width es

parse_more :
    (fuel width : ℕ) (bytes : Bytes)
    → Starts bytes
    → parse_exceptions (suc fuel) width bytes
      ≡ read_value (parse_exceptions fuel width) width (read_face_bits bytes)
unfolding parse_exceptions
parse_more fuel width [] h = absurd h
parse_more fuel width (b ∷ bs) h = ground arith

read_one :
    (continue : Bytes → Read Exceptions) (width mask : ℕ) (value tail rest : Bytes)
    (es : Exceptions)
    → length value ≡ width
    → continue tail ≡ got es rest
    → read_value continue width (some (mask, value ++ tail)) ≡ got ((mask, value) ∷ es) rest
read_one continue width mask value tail rest es e h =
    rw (← e, take-append value tail, drop-append value tail, h)
      (ground (arith, length-append value tail))

written :
    (width mask : ℕ) (value rest : Bytes) (es : Exceptions)
    → 0 < mask
    → length value ≡ width
    → encode_exceptions width ((mask, value) ∷ es) ++ rest
      ≡ append_face_bits mask ++ (value ++ (encode_exceptions width es ++ rest))
unfolding encode_exceptions
written width mask value rest es pos e = ground (
  arith,
  pos,
  e,
  append_assoc (append_face_bits mask) (value ++ encode_exceptions width es) rest,
  append_assoc value (encode_exceptions width es) rest,
)

Starts-length : (bs : Bytes) → Starts bs → 0 < length bs
Starts-length [] h = absurd h
Starts-length (b ∷ bs) h = omega arith

pub parse_exceptions-encode_exceptions :
    (fuel width : ℕ) (es : Exceptions) (rest : Bytes)
    → CanWrite width es
    → length (encode_exceptions width es ++ rest) < fuel
    → parse_exceptions fuel width (encode_exceptions width es ++ rest) ≡ got es rest
parse_exceptions-encode_exceptions zero width es rest w h = absurd (omega arith)
parse_exceptions-encode_exceptions (suc fuel) width [] rest w h =
    unfold parse_exceptions encode_exceptions in refl
parse_exceptions-encode_exceptions (suc fuel) width ((mask, value) ∷ es) rest w h =
    let tail = encode_exceptions width es ++ rest in
    let mask_starts = append_face_bits-Starts mask w.0 in
    let bytes = written width mask value rest es w.0 w.2 in
    let room : length tail < fuel = omega (
      arith,
      h,
      ap length bytes,
      length-append (append_face_bits mask) (value ++ tail),
      length-append value tail,
      Starts-length (append_face_bits mask) mask_starts,
    ) in
    ap (parse_exceptions (suc fuel) width) bytes
    ∙ parse_more fuel width (append_face_bits mask ++ (value ++ tail))
        (Starts-append (append_face_bits mask) (value ++ tail) mask_starts)
    ∙ ap (read_value (parse_exceptions fuel width) width)
        (read_face_bits-append_face_bits mask (value ++ tail) w.1)
    ∙ read_one (parse_exceptions fuel width) width mask value tail rest es w.2
        (parse_exceptions-encode_exceptions fuel width es rest w.3 room)
