-- ===== src/Llsd/Sound.antt =====
-- The values that the binary form of LLSD can hold, and how deep they are nested.
use Prim.Native.Nat.{max}
use homeworldz.Common.{ℕ, suc, ◌≤◌, ◌<◌, ◌^◌, ◌≡◌, [], ◌∷◌, length}
use homeworldz.Common.Bytes.{Bytes}
use homeworldz.Common.Words.{IsInt32}
use homeworldz.Llsd.Value.{
  Value, undefined, boolean, integer, real, text, uuid, uri, binary, map_of, array_of, Members,
  no_members, member, Values, no_values, value, members_size, values_size,
}
use homeworldz.Llsd.Parse.{uuid_text}

abbrev pub AllBytes : Bytes → Type 0
AllBytes [] = Unit {0}
AllBytes (b ∷ bs) = (b < 256) × AllBytes bs

-- A text that stands for sixteen bytes, written in the way of the parser.
pub record IsUuid (t : Bytes) : Type 0 where
  pub bytes : Bytes
  pub sixteen : length bytes ≡ 16
  pub all_bytes : AllBytes bytes
  pub written : t ≡ uuid_text 0 bytes

-- Integers of 32 bits, reals of 64, texts and binaries of less than 2 ^ 32 bytes, and containers of
-- no more members than the parser takes.
unfoldable mutual
  pub IsSound : Value → Type 0
  IsSound undefined = Unit {0}
  IsSound (boolean b) = Unit {0}
  IsSound (integer z) = IsInt32 z
  IsSound (real bits) = bits < 2 ^ 64
  IsSound (text t) = length t < 2 ^ 32
  IsSound (uuid t) = IsUuid t
  IsSound (uri t) = length t < 2 ^ 32
  IsSound (binary bytes) = length bytes < 2 ^ 32
  IsSound (map_of ms) = (members_size ms ≤ 2 ^ 20) × AllMembersSound ms
  IsSound (array_of vs) = (values_size vs ≤ 2 ^ 20) × AllSound vs

  pub AllMembersSound : Members → Type 0
  AllMembersSound no_members = Unit {0}
  AllMembersSound (member key v ms) = (length key < 2 ^ 32) × IsSound v × AllMembersSound ms

  pub AllSound : Values → Type 0
  AllSound no_values = Unit {0}
  AllSound (value v vs) = IsSound v × AllSound vs

-- A value without members has depth 1.
unfoldable mutual
  pub depth : Value → ℕ
  depth undefined = 1
  depth (boolean b) = 1
  depth (integer z) = 1
  depth (real bits) = 1
  depth (text t) = 1
  depth (uuid t) = 1
  depth (uri t) = 1
  depth (binary bytes) = 1
  depth (map_of ms) = suc (members_depth ms)
  depth (array_of vs) = suc (values_depth vs)

  pub members_depth : Members → ℕ
  members_depth no_members = 0
  members_depth (member key v ms) = max (depth v) (members_depth ms)

  pub values_depth : Values → ℕ
  values_depth no_values = 0
  values_depth (value v vs) = max (depth v) (values_depth vs)
