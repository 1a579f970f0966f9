-- ===== src/Llsd/Parsed.antt =====
-- What the parser returns, of any bytes: sound values, which are read again from their binary form.
use mathlib.Core.Path.{subst}
use homeworldz.Common.{
  ℕ, zero, suc, ◌≤◌, ◌<◌, ◌^◌, ◌≡◌, refl, ap, ◌∙◌, Option, none, some, arith, length,
}
use homeworldz.Common.Bytes.{Bytes}
use homeworldz.Common.Words.{to_i32-IsInt32}
use homeworldz.Llsd.Value.{
  Value, text, uri, binary, Members, Values, members_size, values_size, Tag, tag_undefined,
  tag_true, tag_false, tag_integer, tag_real, tag_uuid, tag_binary, tag_string, tag_uri, tag_date,
  tag_map, tag_array, tag_unknown, tag_of,
}
use homeworldz.Llsd.Write.{to_binary}
use homeworldz.Llsd.Parse.{
  Parser, and_then, give, take_byte, take_u32, take_u64, take_bytes, parse_counted, expect,
  take_count, parse_members, parse_values, parse_tagged, parse_value, without_rest, parse_binary,
}
use homeworldz.Llsd.Sound.{
  AllBytes, IsSound, AllMembersSound, AllSound, depth, members_depth, values_depth,
}
use homeworldz.Llsd.RoundTrip.{parse_binary-to_binary}
use homeworldz.Llsd.Reads.{
  Gives, Gives-then, take_byte-Gives, take_u32-Gives, take_u64-Gives, take_bytes-Gives,
  parse_counted-Gives, take_count-Gives, expect-Gives,
}

-- A sound value of no more than so many levels.
abbrev pub Fits : ℕ → Value → Type 0
Fits levels v = IsSound v × (depth v ≤ levels)

abbrev pub FitsMembers : ℕ → ℕ → Members → Type 0
FitsMembers levels count ms =
    AllMembersSound ms × (members_depth ms ≤ levels) × (members_size ms ≡ count)

abbrev pub FitsValues : ℕ → ℕ → Values → Type 0
FitsValues levels count vs = AllSound vs × (values_depth vs ≤ levels) × (values_size vs ≡ count)

module _ (levels : ℕ) (inner : Parser Value)
    (inner-Gives : (s : Bytes) → AllBytes s → Gives (Fits levels) (inner s)) where
  parse_values-Gives :
      (count : ℕ) (s : Bytes)
      → AllBytes s
      → Gives (FitsValues levels count) (parse_values inner count s)
  unfolding parse_values AllSound values_depth
  parse_values-Gives zero s h = ((tt, omega arith, refl), h)
  parse_values-Gives (suc count) s h =
      Gives-then (Fits levels) (FitsValues levels (suc count)) (inner s) _ (inner-Gives s h)
        λ v t fits all.
          Gives-then (FitsValues levels count) (FitsValues levels (suc count))
            (parse_values inner count t) _ (parse_values-Gives count t all)
            λ vs r others rest.
              (((fits.0, others.0), omega (arith, fits.1, others.1), ap suc others.2), rest)

  parse_members-Gives :
      (count : ℕ) (s : Bytes)
      → AllBytes s
      → Gives (FitsMembers levels count) (parse_members inner count s)
  unfolding parse_members AllMembersSound members_depth
  parse_members-Gives zero s h = ((tt, omega arith, refl), h)
  parse_members-Gives (suc count) s h =
      let P = FitsMembers levels (suc count) in
      Gives-then (λ _. Unit {0}) P (expect 107 s) _ (expect-Gives 107 s h)
        λ b t _ all.
          Gives-then (λ xs. length xs < 2 ^ 32) P (parse_counted t) _ (parse_counted-Gives t all)
            λ key u short all_u.
              Gives-then (Fits levels) P (inner u) _ (inner-Gives u all_u) λ v w fits all_w.
                Gives-then (FitsMembers levels count) P (parse_members inner count w) _
                  (parse_members-Gives count w all_w)
                  λ ms r others rest. (
                    ((short, fits.0, others.0), omega (arith, fits.1, others.1), ap suc others.2),
                    rest,
                  )

  -- A value of counted bytes.
  counted-Gives :
      (make : Bytes → Value) (s : Bytes)
      → ((xs : Bytes) → length xs < 2 ^ 32 → Fits (suc levels) (make xs))
      → AllBytes s
      → Gives (Fits (suc levels)) (and_then (parse_counted s) (λ xs. give (make xs)))
  counted-Gives make s fits h =
      Gives-then (λ xs. length xs < 2 ^ 32) (Fits (suc levels)) (parse_counted s) _
        (parse_counted-Gives s h) λ xs t short all. (fits xs short, all)

  parse_tagged-Gives :
      (tag : Tag) (s : Bytes) → AllBytes s → Gives (Fits (suc levels)) (parse_tagged inner tag s)
  unfolding parse_tagged IsSound depth
  parse_tagged-Gives tag_undefined s h = ((tt, omega arith), h)
  parse_tagged-Gives tag_true s h = ((tt, omega arith), h)
  parse_tagged-Gives tag_false s h = ((tt, omega arith), h)
  parse_tagged-Gives tag_integer s h =
      Gives-then (λ n. n < 2 ^ 32) (Fits (suc levels)) (take_u32 s) _ (take_u32-Gives s h)
        λ n t p all. ((to_i32-IsInt32 n, omega arith), all)
  parse_tagged-Gives tag_real s h =
      Gives-then (λ n. n < 2 ^ 64) (Fits (suc levels)) (take_u64 s) _ (take_u64-Gives s h)
        λ n t p all. ((p, omega arith), all)
  parse_tagged-Gives tag_date s h =
      Gives-then (λ n. n < 2 ^ 64) (Fits (suc levels)) (take_u64 s) _ (take_u64-Gives s h)
        λ n t p all. ((p, omega arith), all)
  parse_tagged-Gives tag_uuid s h =
      Gives-then (λ xs. (length xs ≡ 16) × AllBytes xs) (Fits (suc levels)) (take_bytes 16 s) _
        (take_bytes-Gives 16 s h)
        λ xs t p all. (
          (record { bytes = xs; sixteen = p.0; all_bytes = p.1; written = refl }, omega arith),
          all,
        )
  parse_tagged-Gives tag_string s h = counted-Gives text s (λ xs p. (p, omega arith)) h
  parse_tagged-Gives tag_uri s h = counted-Gives uri s (λ xs p. (p, omega arith)) h
  parse_tagged-Gives tag_binary s h = counted-Gives binary s (λ xs p. (p, omega arith)) h
  parse_tagged-Gives tag_map s h =
      let P = Fits (suc levels) in
      Gives-then (λ n. n ≤ 2 ^ 20) P (take_count s) _ (take_count-Gives s h)
        λ n t few all.
          Gives-then (FitsMembers levels n) P (parse_members inner n t) _
            (parse_members-Gives n t all)
            λ ms u fits all_u.
              Gives-then (λ _. Unit {0}) P (expect 125 u) _ (expect-Gives 125 u all_u)
                λ b r _ rest. (((omega (arith, few, fits.2), fits.0), omega (arith, fits.1)), rest)
  parse_tagged-Gives tag_array s h =
      let P = Fits (suc levels) in
      Gives-then (λ n. n ≤ 2 ^ 20) P (take_count s) _ (take_count-Gives s h)
        λ n t few all.
          Gives-then (FitsValues levels n) P (parse_values inner n t) _ (parse_values-Gives n t all)
            λ vs u fits all_u.
              Gives-then (λ _. Unit {0}) P (expect 93 u) _ (expect-Gives 93 u all_u)
                λ b r _ rest. (((omega (arith, few, fits.2), fits.0), omega (arith, fits.1)), rest)
  parse_tagged-Gives tag_unknown s h = tt

parse_value-Gives :
    (levels : ℕ) (s : Bytes) → AllBytes s → Gives (Fits levels) (parse_value levels s)
unfolding parse_value
parse_value-Gives zero s h = tt
parse_value-Gives (suc levels) s h =
    Gives-then (λ b. b < 256) (Fits (suc levels)) (take_byte s) _ (take_byte-Gives s h)
      λ b t p all.
        parse_tagged-Gives levels (parse_value levels) (parse_value-Gives levels) (tag_of b) t all

-- What makes a value be read again.
Again : Value → Type 0
Again v = IsSound v × (depth v ≤ 33) × (parse_binary (to_binary v) ≡ some v)

Fits-Again : (v : Value) → Fits 33 v → Again v
unfolding Again
Fits-Again v (sound, shallow) =
    (sound, shallow, parse_binary-to_binary v sound ∙ ground (arith, shallow))

returned-Again :
    (o : Option (Value × Bytes)) (v : Value) → Gives (Fits 33) o → without_rest o ≡ some v → Again v
returned-Again none v fits e = cc
returned-Again (some (w, rest)) v (fits, _) e = subst Again (ground (arith, e)) (Fits-Again w fits)

-- A value that is parsed from any bytes is sound and nested at most 33 deep, and its binary form is
-- parsed as the same value.
pub parse_binary_again :
    (bytes : Bytes) (v : Value)
    → AllBytes bytes
    → parse_binary bytes ≡ some v
    → IsSound v × (depth v ≤ 33) × (parse_binary (to_binary v) ≡ some v)
unfolding parse_binary Again
parse_binary_again bytes v h e =
    returned-Again (parse_value 33 bytes) v (parse_value-Gives 33 bytes h) e
