-- ===== src/Transit/Tests.antt =====
-- The theorems about arriving avatars on a registry and a gate with one or two entries.
use homeworldz.Common.{List, ℕ, ◌≡◌, ◌↔◌, refl, true, false, none, some, [], ◌∷◌, arith}
use homeworldz.Common.Int.{ℤ, pos}
use homeworldz.Common.Bytes.{Bytes, codes, bytes_eq}
use homeworldz.Common.Assoc.{IsMap, lookup, erase_if}
use homeworldz.Transit.Registry.{
  AvatarTransit, Registry, stage, authorize, consume, remove, size, is_admissible, purge,
}
use homeworldz.Transit.Registry.Invariant.{
  IsAccepted, is_admissible-IsAccepted, IsRegistry, Registry-invariant,
}
use homeworldz.Transit.Registry.Lifetime.{
  Waits, authorize-consume-live, lookup-consume, authorize-stage,
}
use homeworldz.Transit.Gate.{
  mark_seed_served, consume_seed, clear_session, contains, erase_if as erase_seeds, starts_with,
}
use homeworldz.Transit.Gate.Sessions.{served, IsPlain}
use homeworldz.Transit.Gate.Visits.{
  SeedCall, marked, consumed, cleared, handle_all, meant_all, no_visits, handle_all_refines,
}

abbrev arriving : AvatarTransit ℕ
arriving = record {
  id = codes "t1";
  generation = 3;
  agent_id = codes "a1";
  session_id = codes "s1";
  source_region_id = codes "r1";
  destination_region_id = codes "r2";
  position = (1, 2, 3);
  look_at = (1, 0, 0);
  flying = false;
  state = codes "accepted";
}

abbrev one_entry : Registry ℕ
one_entry = (codes "s1", record { transit = arriving; expires_at = 9 }) ∷ []

one_entry-IsMap : IsMap one_entry
unfolding lookup
one_entry-IsMap = (refl, tt)

arriving-IsAccepted : IsAccepted (codes "r2") arriving
arriving-IsAccepted =
    is_admissible-IsAccepted arriving (codes "r2") (unfold is_admissible bytes_eq in refl)

one_entry-IsRegistry : IsRegistry (codes "r2") one_entry
one_entry-IsRegistry = record {
  is_map = one_entry-IsMap;
  admitted = (refl, arriving-IsAccepted, tt);
}

abbrev Kept : Registry ℕ → Type 0
Kept m = IsRegistry (codes "r2") m

Registry-invariant_example :
    ((t : AvatarTransit ℕ) (now : ℕ) (lifetime : ℤ)
      → Kept (stage t (codes "r2") now lifetime one_entry).1)
    × ((agent session : Bytes) (now : ℕ) → Kept (authorize agent session now one_entry).1)
    × ((session : Bytes) (now : ℕ) → Kept (consume session now one_entry).1)
    × ((session : Bytes) → Kept (remove session one_entry))
    × ((now : ℕ) → Kept (size now one_entry).1)
Registry-invariant_example = Registry-invariant (codes "r2") one_entry one_entry-IsRegistry

authorize-consume-live_example :
    (((authorize (codes "a1") (codes "s1") 5 one_entry).0 ≡ some arriving)
      ↔ (Waits (codes "s1") 5 one_entry arriving × (codes "a1" ≡ codes "a1")))
    × (((consume (codes "s1") 5 one_entry).0 ≡ some arriving)
        ↔ Waits (codes "s1") 5 one_entry arriving)
authorize-consume-live_example =
    authorize-consume-live (codes "a1") (codes "s1") 5 one_entry arriving one_entry-IsMap

lookup-consume_example : lookup (codes "s1") (consume (codes "s1") 5 one_entry).1 ≡ none
unfolding bytes_eq
lookup-consume_example = lookup-consume (codes "s1") (codes "s1") 5 one_entry one_entry-IsMap

taken_in : (stage arriving (codes "r2") 0 (pos 30) []).0 ≡ true
unfolding stage is_admissible bytes_eq lookup purge erase_if
taken_in = refl

authorize-stage_example :
    (authorize
      (codes "a1")
      (codes "s1")
      40_000_000_000
      (stage arriving (codes "r2") 0 (pos 30) []).1).0
    ≡ none
authorize-stage_example =
    authorize-stage arriving (codes "r2") 0 30 [] tt (omega arith) taken_in (codes "a1")
      40_000_000_000

s1-IsPlain : IsPlain (codes "s1")
s1-IsPlain = ((λ e. omega arith), ((λ e. omega arith), tt))

s2-IsPlain : IsPlain (codes "s2")
s2-IsPlain = ((λ e. omega arith), ((λ e. omega arith), tt))

abbrev seed_calls : List SeedCall
seed_calls =
    marked (codes "s1") (codes "v1")
    ∷ marked (codes "s2") (codes "v1")
    ∷ consumed (codes "s1") (codes "v1")
    ∷ cleared (codes "s2")
    ∷ []

seed_answers : (handle_all seed_calls []).0 ≡ true ∷ true ∷ true ∷ false ∷ []
unfolding handle_all mark_seed_served consume_seed clear_session contains erase_seeds starts_with
    bytes_eq
seed_answers = refl

handle_all_refines_example :
    ((handle_all seed_calls []).0 ≡ (meant_all seed_calls no_visits).0)
    × ((s w : Bytes)
        → IsPlain s
        → served s w (handle_all seed_calls []).1 ≡ (meant_all seed_calls no_visits).1 s w)
handle_all_refines_example =
    handle_all_refines seed_calls (s1-IsPlain, (s2-IsPlain, (s1-IsPlain, (s2-IsPlain, tt))))
