-- ===== src/Transit/Registry.antt =====
-- `InboundTransitRegistry` of region/src/region_transit.cpp: the transits that this region has
-- accepted and not yet seen arrive, by session. `F` is the type of the coordinates, which the
-- registry only stores. A time point counts nanoseconds.
pub mod Invariant
pub mod Lifetime
use homeworldz.Common.{
  ℕ, ◌+◌, ◌*◌, Bool, true, false, Option, none, some, List, [], ◌∷◌, ◌&&◌, ◌||◌, not, leb, ◌==◌,
  if◌then◌else◌, length,
}
use homeworldz.Common.Int.{ℤ, pos, negsuc}
use homeworldz.Common.Bytes.{Bytes, bytes_eq, codes}
use homeworldz.Common.Assoc.{Assoc, lookup, insert, erase_if}

-- `grid::AvatarTransit`
pub record AvatarTransit (F : Type 0) : Type 0 where
  pub id : Bytes
  pub generation : ℕ
  pub agent_id : Bytes
  pub session_id : Bytes
  pub source_region_id : Bytes
  pub destination_region_id : Bytes
  pub position : F × F × F
  pub look_at : F × F × F
  pub flying : Bool
  pub state : Bytes

pub record Entry (F : Type 0) : Type 0 where
  pub transit : AvatarTransit F
  pub expires_at : ℕ

-- `entries_`
abbrev pub Registry : Type 0 → Type 0
Registry F = Assoc (Entry F)

abbrev pub is_empty : Bytes → Bool
is_empty [] = true
is_empty (c ∷ cs) = false

-- A lifetime in whole seconds above zero. The source's time points count in 64 signed bits: the
-- model is of times whose sum with the lifetime is below 2 ^ 63.
abbrev pub nanoseconds : ℕ → ℕ
nanoseconds s = s * 1_000_000_000

abbrev pub lifetime_of : ℤ → Option ℕ
lifetime_of (pos n) = if n == 0 then none else some (nanoseconds n)
lifetime_of (negsuc n) = none

module _ {F : Type 0} where
  abbrev pub expired : ℕ → Bytes → Entry F → Bool
  expired now session e = leb e.expires_at now

  unfoldable pub purge : ℕ → Registry F → Registry F
  purge now entries = erase_if (expired now) entries

  -- The transit's own conditions in `stage`.
  unfoldable pub is_admissible : AvatarTransit F → Bytes → Bool
  is_admissible t local_region =
      bytes_eq t.state (codes "accepted")
      && (not (is_empty t.id)
          && (not (t.generation == 0)
              && (not (is_empty t.agent_id)
                  && (not (is_empty t.session_id)
                      && (not (is_empty t.source_region_id)
                          && (bytes_eq t.destination_region_id local_region
                              && not (bytes_eq t.source_region_id t.destination_region_id)))))))

  -- Another transit than `t` is staged for its session.
  abbrev pub conflicts : AvatarTransit F → Option (Entry F) → Bool
  conflicts t none = false
  conflicts t (some e) =
      not (bytes_eq e.transit.id t.id) || not (e.transit.generation == t.generation)

  stage_for : AvatarTransit F → Bytes → ℕ → Option ℕ → Registry F → Bool × Registry F
  stage_for t local_region now none entries = (false, entries)
  stage_for t local_region now (some lifetime) entries =
      if is_admissible t local_region
      then (if conflicts t (lookup t.session_id entries) then (false, entries) else (
        true,
        insert t.session_id (record { transit = t; expires_at = now + lifetime }) entries,
      ))
      else (false, entries)

  unfoldable pub stage : AvatarTransit F → Bytes → ℕ → ℤ → Registry F → Bool × Registry F
  unfolding stage_for
  stage t local_region now lifetime entries =
      stage_for t local_region now (lifetime_of lifetime) (purge now entries)

  abbrev pub authorized : Bytes → Option (Entry F) → Option (AvatarTransit F)
  authorized agent none = none
  authorized agent (some e) = if bytes_eq e.transit.agent_id agent then some e.transit else none

  unfoldable pub authorize : Bytes → Bytes → ℕ → Registry F → Option (AvatarTransit F) × Registry F
  authorize agent session now entries =
      let kept = purge now entries in (authorized agent (lookup session kept), kept)

  -- `remove`
  abbrev pub is_session : Bytes → Bytes → Entry F → Bool
  is_session session key e = bytes_eq key session

  unfoldable pub remove : Bytes → Registry F → Registry F
  remove session entries = erase_if (is_session session) entries

  consume_found : Bytes → Option (Entry F) → Registry F → Option (AvatarTransit F) × Registry F
  consume_found session none entries = (none, entries)
  consume_found session (some e) entries = (some e.transit, erase_if (is_session session) entries)

  unfoldable pub consume : Bytes → ℕ → Registry F → Option (AvatarTransit F) × Registry F
  unfolding consume_found
  consume session now entries =
      let kept = purge now entries in consume_found session (lookup session kept) kept

  unfoldable pub size : ℕ → Registry F → ℕ × Registry F
  size now entries = let kept = purge now entries in (length kept, kept)
