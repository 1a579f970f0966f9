-- ===== src/Transit/Registry/Invariant.antt =====
-- The registry of inbound transits stays well formed.
use homeworldz.Common.{
  ℕ, ◌+◌, ◌<◌, ◌≡◌, ◌≢◌, refl, ap, sym, ◌∙◌, arith, Bool, true, false, Option, none, some, [], ◌∷◌,
  Bool-cases, inl, inr,
}
use homeworldz.Common.Int.{ℤ}
use homeworldz.Common.Bytes.{Bytes, codes, bytes_eq, bytes_eq_refl, bytes_eq→eq}
use homeworldz.Common.Assoc.{lookup, insert, erase_if, IsMap, insert-IsMap, erase_if-IsMap}
use homeworldz.Transit.Registry.{
  AvatarTransit, Entry, Registry, lifetime_of, is_empty, expired, purge, is_admissible, conflicts,
  stage_for, stage, authorize, is_session, remove, consume_found, consume, size,
}

-- A transit that may wait in the region `local`.
pub record IsAccepted {F : Type 0} (local : Bytes) (t : AvatarTransit F) : Type 0 where
  pub accepted : t.state ≡ codes "accepted"
  pub has_id : t.id ≢ []
  pub generated : 0 < t.generation
  pub has_agent : t.agent_id ≢ []
  pub has_session : t.session_id ≢ []
  pub has_source : t.source_region_id ≢ []
  pub to_here : t.destination_region_id ≡ local
  pub from_another : t.source_region_id ≢ local

not_empty : (b : Bytes) → is_empty b ≡ false → b ≢ []
not_empty b h e = ground (arith, ap is_empty e, h)

other_bytes : (a b : Bytes) → bytes_eq a b ≡ false → a ≢ b
other_bytes a b h e = ground (arith, ap (λ x. bytes_eq x b) e, bytes_eq_refl b, h)

pub is_admissible-IsAccepted :
    {F : Type 0} (t : AvatarTransit F) (local : Bytes)
    → is_admissible t local ≡ true
    → IsAccepted local t
unfolding is_admissible
is_admissible-IsAccepted t local h = record {
  accepted = bytes_eq→eq t.state (codes "accepted") (ground (arith, h));
  has_id = not_empty t.id (ground (arith, h));
  generated = ground (arith, h);
  has_agent = not_empty t.agent_id (ground (arith, h));
  has_session = not_empty t.session_id (ground (arith, h));
  has_source = not_empty t.source_region_id (ground (arith, h));
  to_here = here;
  from_another = λ e.
      other_bytes t.source_region_id t.destination_region_id (ground (arith, h)) (e ∙ sym here);
}
  where
    here : t.destination_region_id ≡ local
    here = bytes_eq→eq t.destination_region_id local (ground (arith, h))

module _ {F : Type 0} where
  -- Every entry stands under its own session, and is an accepted transit to this region.
  abbrev pub AllAdmitted : Bytes → Registry F → Type 0
  AllAdmitted local [] = Unit {0}
  AllAdmitted local ((k, e) ∷ m) =
      (k ≡ e.transit.session_id) × IsAccepted local e.transit × AllAdmitted local m

  pub record IsRegistry (local : Bytes) (m : Registry F) : Type 0 where
    pub is_map : IsMap m
    pub admitted : AllAdmitted local m

  AllAdmitted-erase_if :
      (local : Bytes) (test : Bytes → Entry F → Bool) (m : Registry F)
      → AllAdmitted local m
      → AllAdmitted local (erase_if test m)
  unfolding erase_if
  AllAdmitted-erase_if local test [] h = tt
  AllAdmitted-erase_if local test ((k, e) ∷ m) (hk, ha, hs) = elim (Bool-cases (test k e)) [
    | inl q ↦ rw q (AllAdmitted-erase_if local test m hs)
    | inr q ↦ rw q (hk, ha, AllAdmitted-erase_if local test m hs)
  ]

  AllAdmitted-insert :
      (local : Bytes) (e : Entry F) (m : Registry F)
      → IsAccepted local e.transit
      → AllAdmitted local m
      → AllAdmitted local (insert e.transit.session_id e m)
  unfolding insert
  AllAdmitted-insert local e [] ha h = (refl, ha, tt)
  AllAdmitted-insert local e ((k, e') ∷ m) ha (hk, ha', hs) =
      elim (Bool-cases (bytes_eq k e.transit.session_id)) [
        | inl q ↦ rw q (bytes_eq→eq k e.transit.session_id q, ha, hs)
        | inr q ↦ rw q (hk, ha', AllAdmitted-insert local e m ha hs)
      ]

  erase_if-IsRegistry :
      (local : Bytes) (test : Bytes → Entry F → Bool) (m : Registry F)
      → IsRegistry local m
      → IsRegistry local (erase_if test m)
  erase_if-IsRegistry local test m h = record {
    is_map = erase_if-IsMap test m h.is_map;
    admitted = AllAdmitted-erase_if local test m h.admitted;
  }

  insert-IsRegistry :
      (local : Bytes) (e : Entry F) (m : Registry F)
      → IsAccepted local e.transit
      → IsRegistry local m
      → IsRegistry local (insert e.transit.session_id e m)
  insert-IsRegistry local e m ha h = record {
    is_map = insert-IsMap e.transit.session_id e m h.is_map;
    admitted = AllAdmitted-insert local e m ha h.admitted;
  }

  stage_for-IsRegistry :
      (t : AvatarTransit F) (local : Bytes) (now : ℕ) (o : Option ℕ) (m : Registry F)
      → IsRegistry local m
      → IsRegistry local (stage_for t local now o m).1
  unfolding stage_for
  stage_for-IsRegistry t local now none m h = h
  stage_for-IsRegistry t local now (some n) m h = elim (Bool-cases (is_admissible t local)) [
    | inr q ↦ rw q h
    | inl q ↦ elim (Bool-cases (conflicts t (lookup t.session_id m))) [
      | inl c ↦ rw (q, c) h
      | inr c ↦
          rw (q, c)
            (insert-IsRegistry local (record { transit = t; expires_at = now + n }) m
              (is_admissible-IsAccepted t local q) h)
    ]
  ]

  consume_found-IsRegistry :
      (local session : Bytes) (o : Option (Entry F)) (m : Registry F)
      → IsRegistry local m
      → IsRegistry local (consume_found session o m).1
  unfolding consume_found
  consume_found-IsRegistry local session none m h = h
  consume_found-IsRegistry local session (some e) m h =
      erase_if-IsRegistry local (is_session session) m h

  -- Every operation keeps a well-formed registry well formed: one entry to a session, filed under that session,
  -- each in the state "accepted", to this region from another, with a generation above zero and an id, an agent, a session and a source
  -- that are not empty.
  pub Registry-invariant :
      (local : Bytes) (m : Registry F)
      → IsRegistry local m
      → ((t : AvatarTransit F) (now : ℕ) (lifetime : ℤ)
          → IsRegistry local (stage t local now lifetime m).1)
        × ((agent session : Bytes) (now : ℕ) → IsRegistry local (authorize agent session now m).1)
        × ((session : Bytes) (now : ℕ) → IsRegistry local (consume session now m).1)
        × ((session : Bytes) → IsRegistry local (remove session m))
        × ((now : ℕ) → IsRegistry local (size now m).1)
  unfolding stage authorize consume remove size purge
  Registry-invariant local m h = (
    (λ t now lifetime. stage_for-IsRegistry t local now (lifetime_of lifetime) _ (fresh now)),
    (λ agent session now. fresh now),
    (λ session now.
        consume_found-IsRegistry local session (lookup session (purge now m)) _ (fresh now)),
    (λ session. erase_if-IsRegistry local (is_session session) m h),
    λ now. fresh now,
  )
    where
      fresh : (now : ℕ) → IsRegistry local (purge now m)
      fresh now = erase_if-IsRegistry local (expired now) m h
