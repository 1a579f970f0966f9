-- ===== src/Transit/Gate.antt =====
-- `CapabilityArrivalGate` of region/src/region_transit.cpp: the seed capabilities that were served,
-- by session and visit. `served_seeds_` is a set of keys, held here as a list without repetition.
pub mod Sessions
pub mod Visits
use homeworldz.Common.{
  ℕ, Bool, true, false, List, [], ◌∷◌, ◌++◌, ◌&&◌, ◌||◌, not, ◌==◌, if◌then◌else◌, length,
}
use homeworldz.Common.Bytes.{Bytes, bytes_eq}
use homeworldz.Transit.Registry.{is_empty}

abbrev pub Seeds : Type 0
Seeds = List Bytes

unfoldable pub contains : Bytes → Seeds → Bool
contains k [] = false
contains k (s ∷ seeds) = if bytes_eq s k then true else contains k seeds

-- `std::erase_if`
unfoldable pub erase_if : (Bytes → Bool) → Seeds → Seeds
erase_if test [] = []
erase_if test (s ∷ seeds) = let rest = erase_if test seeds in if test s then rest else s ∷ rest

unfoldable pub starts_with : Bytes → Bytes → Bool
starts_with [] s = true
starts_with (c ∷ cs) [] = false
starts_with (c ∷ cs) (d ∷ ds) = c == d && starts_with cs ds

-- `session + '|' + visit`
abbrev pub key : Bytes → Bytes → Bytes
key session visit = session ++ b'|' ∷ visit

unfoldable pub mark_seed_served : Bytes → Bytes → Seeds → Bool × Seeds
mark_seed_served session visit seeds =
    if is_empty session || is_empty visit
    then (false, seeds)
    else if contains (key session visit) seeds
    then (false, seeds)
    else (true, key session visit ∷ seeds)

unfoldable pub consume_seed : Bytes → Bytes → Seeds → Bool × Seeds
consume_seed session visit seeds =
    if is_empty session || is_empty visit
    then (false, seeds)
    else (contains (key session visit) seeds, erase_if (λ s. bytes_eq s (key session visit)) seeds)

unfoldable pub clear_session : Bytes → Seeds → Seeds
clear_session session seeds =
    if is_empty session then seeds else erase_if (starts_with (session ++ b'|' ∷ [])) seeds

abbrev pub size : Seeds → ℕ
size seeds = length seeds
