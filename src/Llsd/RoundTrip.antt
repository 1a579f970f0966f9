-- ===== src/Llsd/RoundTrip.antt =====
-- What is written for a value is read as that value, if it is not nested too deeply.
use homeworldz.Common.{
  ℕ, zero, suc, ◌/◌, ◌%◌, ◌<◌, ◌^◌, ◌≡◌, refl, ap, sym, ◌∙◌, true, false, none, some, [], ◌∷◌, ◌++◌,
  arith, length, leb, if◌then◌else◌,
}
use homeworldz.Common.Bytes.{Bytes}
use homeworldz.Common.Int.{ℤ}
use homeworldz.Common.Words.{IsInt32, to_u32, to_u32-lt, to_i32-to_u32}
use homeworldz.Viewer.Wire.{append_be_u32}
use homeworldz.Llsd.Value.{
  Value, undefined, boolean, integer, real, text, uuid, uri, binary, map_of, array_of, Members,
  no_members, member, Values, no_values, value, members_size, values_size, tag_of,
}
use homeworldz.Llsd.Write.{
  append_counted, append_uuid, write_value, write_members, write_values, to_binary,
}
use homeworldz.Llsd.Parse.{
  and_then, take_byte, take_bytes, parse_counted, parse_members, parse_values, parse_tagged,
  parse_value, parse_binary, give, uuid_text,
}
use homeworldz.Llsd.Sound.{
  IsUuid, IsSound, AllMembersSound, AllSound, depth, members_depth, values_depth,
}
use homeworldz.Llsd.Scalars.{
  take_u32-append, take_u64-append, take_bytes-append, parse_counted-append, append_uuid_lem,
}
use homeworldz.Llsd.Containers.{
  read_at, map_end, array_end, no_level, members_step, values_step, no_more,
}

-- A value without members takes one level.
scalar :
    (levels tag : ℕ) (body rest : Bytes) (v : Value)
    → ((below : ℕ) → parse_tagged (parse_value below) (tag_of tag) body ≡ some (v, rest))
    → parse_value levels (tag ∷ body) ≡ read_at 1 levels v rest
unfolding parse_value take_byte
scalar zero tag body rest v h = refl
scalar (suc below) tag body rest v h = h below ∙ ground arith

uuid_scalar :
    (below : ℕ) (t rest : Bytes)
    → IsUuid t
    → parse_tagged (parse_value below) (tag_of 117) (append_uuid t rest) ≡ some (uuid t, rest)
unfolding parse_tagged
uuid_scalar below t rest h = rw (append_uuid_lem t rest h) (
    ap (λ o. and_then o (λ bytes. give (uuid (uuid_text 0 bytes))))
      (ap (λ n. take_bytes n (h.bytes ++ rest)) (sym h.sixteen) ∙ take_bytes-append h.bytes rest)
    ∙ ap (λ s. some (uuid s, rest)) (sym h.written))

counted :
    (levels tag : ℕ) (bytes rest : Bytes) (make : Bytes → Value)
    → ((below : ℕ) (s : Bytes)
        → parse_tagged (parse_value below) (tag_of tag) s
          ≡ and_then (parse_counted s) (λ b. give (make b)))
    → length bytes < 2 ^ 32
    → parse_value levels (tag ∷ append_counted bytes rest) ≡ read_at 1 levels (make bytes) rest
counted levels tag bytes rest make tagged short =
    scalar levels tag (append_counted bytes rest) rest (make bytes) (λ below.
      tagged below (append_counted bytes rest)
      ∙ ap (λ o. and_then o (λ b. give (make b))) (parse_counted-append bytes rest short))

integer_scalar :
    (below : ℕ) (z : ℤ) (rest : Bytes)
    → IsInt32 z
    → parse_tagged (parse_value below) (tag_of 105) (append_be_u32 (to_u32 z) rest)
      ≡ some (integer z, rest)
unfolding parse_tagged
integer_scalar below z rest h =
    rw (take_u32-append (to_u32 z) rest (to_u32-lt z))
      (ap (λ i. some (integer i, rest)) (to_i32-to_u32 z h))

real_scalar :
    (below bits : ℕ) (rest : Bytes)
    → bits < 2 ^ 64
    → parse_tagged
        (parse_value below)
        (tag_of 114)
        (append_be_u32 (bits / 2 ^ 32) (append_be_u32 (bits % 2 ^ 32) rest))
      ≡ some (real bits, rest)
unfolding parse_tagged
real_scalar below bits rest h = rw (take_u64-append bits rest h) refl

-- The three tags of counted bytes.
counted_tags :
    (below : ℕ) (s : Bytes)
    → (parse_tagged (parse_value below) (tag_of 115) s
        ≡ and_then (parse_counted s) (λ b. give (text b)))
      × (parse_tagged (parse_value below) (tag_of 108) s
          ≡ and_then (parse_counted s) (λ b. give (uri b)))
      × (parse_tagged (parse_value below) (tag_of 98) s
          ≡ and_then (parse_counted s) (λ b. give (binary b)))
unfolding parse_tagged
counted_tags below s = (refl, refl, refl)

-- The three tags without a body.
plain_tags :
    (below : ℕ) (rest : Bytes)
    → (parse_tagged (parse_value below) (tag_of 33) rest ≡ some (undefined, rest))
      × (parse_tagged (parse_value below) (tag_of 49) rest ≡ some (boolean true, rest))
      × (parse_tagged (parse_value below) (tag_of 48) rest ≡ some (boolean false, rest))
unfolding parse_tagged
plain_tags below rest = (refl, refl, refl)

mutual
  unfolding write_value IsSound depth

  read_value :
      (v : Value) (levels : ℕ) (rest : Bytes)
      → IsSound v
      → parse_value levels (write_value v rest) ≡ read_at (depth v) levels v rest
  read_value undefined levels rest h =
      scalar levels 33 rest rest undefined (λ below. (plain_tags below rest).0)
  read_value (boolean true) levels rest h =
      scalar levels 49 rest rest (boolean true) (λ below. (plain_tags below rest).1)
  read_value (boolean false) levels rest h =
      scalar levels 48 rest rest (boolean false) (λ below. (plain_tags below rest).2)
  read_value (integer z) levels rest h =
      scalar levels 105 (append_be_u32 (to_u32 z) rest) rest (integer z)
        (λ below. integer_scalar below z rest h)
  read_value (real bits) levels rest h =
      scalar levels 114 (append_be_u32 (bits / 2 ^ 32) (append_be_u32 (bits % 2 ^ 32) rest)) rest
        (real bits) (λ below. real_scalar below bits rest h)
  read_value (uuid t) levels rest h =
      scalar levels 117 (append_uuid t rest) rest (uuid t) (λ below. uuid_scalar below t rest h)
  read_value (text t) levels rest h =
      counted levels 115 t rest text (λ below s. (counted_tags below s).0) h
  read_value (uri t) levels rest h =
      counted levels 108 t rest uri (λ below s. (counted_tags below s).1) h
  read_value (binary bytes) levels rest h =
      counted levels 98 bytes rest binary (λ below s. (counted_tags below s).2) h
  read_value (map_of ms) zero rest h =
      no_level (members_depth ms) (write_value (map_of ms) rest) rest (map_of ms)
  read_value (map_of ms) (suc below) rest (few, h) =
      map_end ms below rest few (read_members ms below (125 ∷ rest) h)
  read_value (array_of vs) zero rest h =
      no_level (values_depth vs) (write_value (array_of vs) rest) rest (array_of vs)
  read_value (array_of vs) (suc below) rest (few, h) =
      array_end vs below rest few (read_values vs below (93 ∷ rest) h)

  read_members :
      (ms : Members) (levels : ℕ) (rest : Bytes)
      → AllMembersSound ms
      → parse_members (parse_value levels) (members_size ms) (write_members ms rest)
        ≡ read_at (members_depth ms) levels ms rest
  read_members no_members levels rest h = (no_more levels rest).0
  read_members (member key v ms) levels rest (short, h, hs) =
      members_step (parse_value levels) v levels rest key ms (write_members ms rest) short
        (read_value v levels (write_members ms rest) h) (read_members ms levels rest hs)

  read_values :
      (vs : Values) (levels : ℕ) (rest : Bytes)
      → AllSound vs
      → parse_values (parse_value levels) (values_size vs) (write_values vs rest)
        ≡ read_at (values_depth vs) levels vs rest
  read_values no_values levels rest h = (no_more levels rest).1
  read_values (value v vs) levels rest (h, hs) =
      values_step (parse_value levels) v levels rest vs (write_values vs rest)
        (read_value v levels (write_values vs rest) h) (read_values vs levels rest hs)

-- The binary form of a value is read back as that value if it is nested at most 33 deep, itself
-- included, and refused otherwise. The value has to be sound: its integers of 32 bits and its
-- reals of 64, its identifiers texts of sixteen bytes as the parser writes them, its other texts
-- shorter than 2 ^ 32 bytes, and no container larger than 2 ^ 20.
pub parse_binary-to_binary :
    (v : Value)
    → IsSound v
    → parse_binary (to_binary v) ≡ (if leb (depth v) 33 then some v else none)
unfolding parse_binary to_binary
parse_binary-to_binary v h = rw (read_value v 33 [] h) (ground arith)
