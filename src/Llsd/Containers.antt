-- ===== src/Llsd/Containers.antt =====
-- Containers of the binary form, from what holds for their members.
use Prim.Native.Nat.{max}
use homeworldz.Common.{
  ℕ, zero, suc, ◌≤◌, ◌<◌, ◌^◌, ◌≡◌, Option, none, some, ◌∷◌, ◌&&◌, arith, length, leb,
  if◌then◌else◌, Bool-cases, inl, inr,
}
use homeworldz.Common.Bytes.{Bytes}
use homeworldz.Viewer.Wire.{append_be_u32}
use homeworldz.Llsd.Value.{
  Value, map_of, array_of, Members, no_members, member, Values, no_values, value, members_size,
  values_size,
}
use homeworldz.Llsd.Write.{append_counted, write_value, write_members, write_values}
use homeworldz.Llsd.Parse.{
  take_byte, parse_members, parse_values, parse_tagged, parse_value, Parser,
}
use homeworldz.Llsd.Sound.{depth, members_depth, values_depth}
use homeworldz.Llsd.Scalars.{parse_counted-append, take_count-append, expect_lem}

-- What reading gives: the result and the rest, if so many levels are enough.
abbrev pub read_at : {A : Type 0} → ℕ → ℕ → A → Bytes → Option (A × Bytes)
read_at needed levels a rest = if leb needed levels then some (a, rest) else none

-- After the loop over its members a container takes its end.
pub map_end :
    (ms : Members) (below : ℕ) (rest : Bytes)
    → members_size ms ≤ 2 ^ 20
    → parse_members (parse_value below) (members_size ms) (write_members ms (125 ∷ rest))
      ≡ read_at (members_depth ms) below ms (125 ∷ rest)
    → parse_value
        (suc below)
        (123 ∷ append_be_u32 (members_size ms) (write_members ms (125 ∷ rest)))
      ≡ read_at (suc (members_depth ms)) (suc below) (map_of ms) rest
unfolding parse_value take_byte parse_tagged
map_end ms below rest few h =
    rw (take_count-append (members_size ms) (write_members ms (125 ∷ rest)) few, h)
      (elim (Bool-cases (leb (members_depth ms) below)) [
        | inl q ↦ ground (arith, q, expect_lem 125 rest)
        | inr q ↦ ground (arith, q)
      ])

pub array_end :
    (vs : Values) (below : ℕ) (rest : Bytes)
    → values_size vs ≤ 2 ^ 20
    → parse_values (parse_value below) (values_size vs) (write_values vs (93 ∷ rest))
      ≡ read_at (values_depth vs) below vs (93 ∷ rest)
    → parse_value (suc below) (91 ∷ append_be_u32 (values_size vs) (write_values vs (93 ∷ rest)))
      ≡ read_at (suc (values_depth vs)) (suc below) (array_of vs) rest
unfolding parse_value take_byte parse_tagged
array_end vs below rest few h =
    rw (take_count-append (values_size vs) (write_values vs (93 ∷ rest)) few, h)
      (elim (Bool-cases (leb (values_depth vs) below)) [
        | inl q ↦ ground (arith, q, expect_lem 93 rest)
        | inr q ↦ ground (arith, q)
      ])

-- No container is read where no level is left.
pub no_level :
    (needed : ℕ) (body rest : Bytes) (v : Value)
    → parse_value zero body ≡ read_at (suc needed) zero v rest
unfolding parse_value
no_level needed body rest v = ground arith

leb-max : (a b n : ℕ) → leb (max a b) n ≡ (leb a n && leb b n)
leb-max a b n = ground arith

module _ (inner : Parser Value) (v : Value) (levels : ℕ) (rest : Bytes) where
  pub members_step :
      (key : Bytes) (ms : Members) (body : Bytes)
      → length key < 2 ^ 32
      → inner (write_value v body) ≡ read_at (depth v) levels v body
      → parse_members inner (members_size ms) body ≡ read_at (members_depth ms) levels ms rest
      → parse_members inner (suc (members_size ms)) (107 ∷ append_counted key (write_value v body))
        ≡ read_at (max (depth v) (members_depth ms)) levels (member key v ms) rest
  unfolding parse_members
  members_step key ms body short hv hs =
      rw
        (
          expect_lem 107 (append_counted key (write_value v body)),
          parse_counted-append key (write_value v body) short,
          hv,
        )
        (elim (Bool-cases (leb (depth v) levels)) [
          | inl q ↦ rw (q, hs) (ground (arith, q, leb-max (depth v) (members_depth ms) levels))
          | inr q ↦ rw q (ground (arith, q, leb-max (depth v) (members_depth ms) levels))
        ])

  pub values_step :
      (vs : Values) (body : Bytes)
      → inner (write_value v body) ≡ read_at (depth v) levels v body
      → parse_values inner (values_size vs) body ≡ read_at (values_depth vs) levels vs rest
      → parse_values inner (suc (values_size vs)) (write_value v body)
        ≡ read_at (max (depth v) (values_depth vs)) levels (value v vs) rest
  unfolding parse_values
  values_step vs body hv hs = rw (hv) (elim (Bool-cases (leb (depth v) levels)) [
    | inl q ↦ rw (q, hs) (ground (arith, q, leb-max (depth v) (values_depth vs) levels))
    | inr q ↦ rw q (ground (arith, q, leb-max (depth v) (values_depth vs) levels))
  ])

pub no_more :
    (levels : ℕ) (rest : Bytes)
    → (parse_members (parse_value levels) 0 rest ≡ read_at 0 levels no_members rest)
      × (parse_values (parse_value levels) 0 rest ≡ read_at 0 levels no_values rest)
unfolding parse_members parse_values
no_more levels rest = (ground arith, ground arith)
