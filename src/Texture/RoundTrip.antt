-- ===== src/Texture/RoundTrip.antt =====
-- What `parse` makes of the bytes that `encode` writes for an entry.
use homeworldz.Common.{
  ℕ, suc, ◌<◌, ◌≡◌, refl, ap, sym, ◌∙◌, Bool, true, false, List, [], ◌∷◌, ◌++◌, ◌||◌, not, arith,
  length, ltb, lt→ltb, ◌==◌, take, drop, replicate, length-replicate, if◌then◌else◌, Bool-cases,
  inl, inr, length-append, take-append, drop-append,
}
use homeworldz.Common.Bytes.{Bytes}
use homeworldz.Texture.Written.{CanWrite, parse_exceptions-encode_exceptions}
use homeworldz.Texture.Entry.{
  field_widths, FieldValues, Entry, got, field_with, parse_field, with_field, and_fields,
  parse_fields, parse, is_empty, last_of, encode_exceptions, encode_fields, encode,
}

-- A field to each width, whose exceptions can be written.
abbrev pub AllWritable : List ℕ → Entry → Type 0
AllWritable [] [] = Unit {0}
AllWritable (width ∷ widths) (v ∷ vs) = CanWrite width v.exceptions × AllWritable widths vs
AllWritable _ _ = ⊥

-- The fallback that is written.
abbrev pub settled : ℕ → Bytes → Bytes
settled width fallback = if length fallback == width then fallback else replicate width 0

length-settled : (width : ℕ) (fallback : Bytes) → length (settled width fallback) ≡ width
length-settled width fallback = ground (arith, length-replicate {A = ℕ} width 0)

-- A field that was written, and one that was not.
abbrev pub kept : ℕ → FieldValues → FieldValues
kept width v = record {
  fallback = settled width v.fallback;
  exceptions = v.exceptions;
  present = true;
}

abbrev pub absent : ℕ → FieldValues
absent width = record { fallback = replicate width 0; exceptions = []; present = false }

-- One of the fields has content.
abbrev pub some_content : Entry → Bool
some_content [] = false
some_content (v ∷ vs) = v.present || (not (is_empty v.exceptions) || some_content vs)

-- The entry that a viewer reads: each field up to the last one with content.
abbrev pub read_back : List ℕ → Entry → Entry
read_back [] vs = []
read_back (width ∷ widths) [] = absent width ∷ read_back widths []
read_back (width ∷ widths) (v ∷ vs) =
    (if some_content (v ∷ vs) then kept width v else absent width) ∷ read_back widths vs

last_of_none : (vs : Entry) → some_content vs ≡ false → last_of vs ≡ 0
unfolding last_of
last_of_none [] h = refl
last_of_none (v ∷ vs) h = ground (arith, h, last_of_none vs (ground (arith, h)))

last_of_some :
    (v : FieldValues) (vs : Entry)
    → some_content (v ∷ vs) ≡ true
    → last_of (v ∷ vs) ≡ suc (last_of vs)
unfolding last_of
last_of_some v vs h = elim (Bool-cases (some_content vs)) [
  | inl q ↦ elim (Bool-cases (last_of vs == 0)) [
    | inl z ↦ absurd (ground (arith, z, last_of_positive vs q))
    | inr z ↦ ground (arith, z)
  ]
  | inr q ↦ ground (arith, h, q, last_of_none vs q)
]
  where
    last_of_positive : (vs : Entry) → some_content vs ≡ true → 0 < last_of vs
    last_of_positive [] h = cc
    last_of_positive (v ∷ vs) h = elim (Bool-cases (last_of vs == 0)) [
      | inr z ↦ ground (arith, z)
      | inl z ↦ elim (Bool-cases (some_content vs)) [
        | inl q ↦ absurd (ground (arith, z, last_of_positive vs q))
        | inr q ↦ ground (arith, h, q, z)
      ]
    ]

parse_field-encode :
    (width : ℕ) (v : FieldValues) (rest : Bytes)
    → CanWrite width v.exceptions
    → parse_field width (settled width v.fallback ++ (encode_exceptions width v.exceptions ++ rest))
      ≡ got (kept width v) rest
unfolding parse_field
parse_field-encode width v rest w =
    let first = settled width v.fallback in
    let tail = encode_exceptions width v.exceptions ++ rest in
    let e = length-settled width v.fallback in
    let there : ltb (length (first ++ tail)) width ≡ false =
      ground (arith, length-append first tail, e) in
    let taken : take width (first ++ tail) ≡ first =
      ap (λ k. take k (first ++ tail)) (sym e) ∙ take-append first tail in
    let dropped : drop width (first ++ tail) ≡ tail =
      ap (λ k. drop k (first ++ tail)) (sym e) ∙ drop-append first tail in
    rw (there, taken, dropped)
      (ap (field_with first) (
        parse_exceptions-encode_exceptions (suc (length tail)) width v.exceptions rest w
          (omega arith)))

abbrev AllPositive : List ℕ → Type 0
AllPositive [] = Unit {0}
AllPositive (width ∷ widths) = (0 < width) × AllPositive widths

parse_fields-none :
    (widths : List ℕ) (vs : Entry)
    → AllPositive widths
    → some_content vs ≡ false
    → parse_fields widths [] ≡ got (read_back widths vs) []
unfolding parse_fields parse_field
parse_fields-none [] vs p h = refl
parse_fields-none (width ∷ widths) [] (p, ps) h =
    rw (lt→ltb 0 width p) (ap (with_field (absent width)) (parse_fields-none widths [] ps refl))
parse_fields-none (width ∷ widths) (v ∷ vs) (p, ps) h =
    rw (lt→ltb 0 width p, h)
      (ap (with_field (absent width)) (parse_fields-none widths vs ps (ground (arith, h))))

parse_fields-encode_fields :
    (widths : List ℕ) (vs : Entry)
    → AllPositive widths
    → AllWritable widths vs
    → parse_fields widths (encode_fields (last_of vs) widths vs) ≡ got (read_back widths vs) []
parse_fields-encode_fields [] [] p w = unfold parse_fields encode_fields last_of in refl
parse_fields-encode_fields (width ∷ widths) [] p w = absurd w
parse_fields-encode_fields [] (v ∷ vs) p w = absurd w
parse_fields-encode_fields (width ∷ widths) (v ∷ vs) p (w, ws) =
    elim (Bool-cases (some_content (v ∷ vs))) [
      | inl q ↦
          ap (λ n. parse_fields (width ∷ widths) (encode_fields n (width ∷ widths) (v ∷ vs)))
            (last_of_some v vs q)
          ∙ one
          ∙ ap (with_field (kept width v)) (parse_fields-encode_fields widths vs p.1 ws)
          ∙ rw q refl
      | inr q ↦
          ap (λ n. parse_fields (width ∷ widths) (encode_fields n (width ∷ widths) (v ∷ vs)))
            (last_of_none (v ∷ vs) q)
          ∙ (unfold encode_fields in parse_fields-none (width ∷ widths) (v ∷ vs) p q)
    ]
  where
    one :
        parse_fields (width ∷ widths) (encode_fields (suc (last_of vs)) (width ∷ widths) (v ∷ vs))
        ≡ with_field (kept width v) (parse_fields widths (encode_fields (last_of vs) widths vs))
    one =
        unfold parse_fields encode_fields in
        ap (and_fields (parse_fields widths))
          (parse_field-encode width v (encode_fields (last_of vs) widths vs) w)

-- An entry of the eleven fields, in whose exceptions each set of faces is a 32-bit mask that is not
-- empty and each value has its field's width, is read back from the bytes that are written for it, to
-- their end: the fields up to the last one with content are present, with their own exceptions, and
-- with their own fallback, or zeros where it has not the field's width; the fields after it are
-- absent.
pub parse-encode :
    (entry : Entry)
    → AllWritable field_widths entry
    → parse (encode entry) ≡ got (read_back field_widths entry) []
unfolding parse encode
parse-encode entry w =
    parse_fields-encode_fields field_widths entry
      (
        omega arith,
        (
          omega arith,
          (
            omega arith,
            (
              omega arith,
              (
                omega arith,
                (
                  omega arith,
                  (omega arith, (omega arith, (omega arith, (omega arith, (omega arith, tt))))),
                ),
              ),
            ),
          ),
        ),
      )
      w
