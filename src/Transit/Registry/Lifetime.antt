-- ===== src/Transit/Registry/Lifetime.antt =====
-- What the registry of inbound transits gives out, and until when.
use homeworldz.Common.{
  ℕ, ◌+◌, ◌*◌, ◌<◌, ◌≡◌, ◌↔◌, refl, ap, sym, ◌∙◌, true, Option, none, some, leb, arith,
  if◌then◌else◌, Bool-cases, inl, inr,
}
use homeworldz.Common.Int.{pos}
use homeworldz.Common.Bytes.{Bytes, bytes_eq, bytes_eq_refl, bytes_eq→eq}
use homeworldz.Common.Assoc.{
  lookup, insert, IsMap, unless, lookup-insert, insert-IsMap, erase_if-IsMap, lookup-erase_if,
}
use homeworldz.Transit.Registry.{
  AvatarTransit, Entry, Registry, nanoseconds, lifetime_of, expired, purge, stage_for, stage,
  authorized, authorize, is_session, consume_found, consume,
}

lifetime_seconds : (n x : ℕ) → lifetime_of (pos n) ≡ some x → x ≡ nanoseconds n
lifetime_seconds n x e = ground arith

module _ {F : Type 0} where
  -- The transit that is staged for a session and not expired.
  abbrev pub live : ℕ → Bytes → Registry F → Option (Entry F)
  live now session m = unless (expired now session) (lookup session m)

  lookup-purge :
      (now : ℕ) (session : Bytes) (m : Registry F)
      → IsMap m
      → lookup session (purge now m) ≡ live now session m
  unfolding purge
  lookup-purge now session m h = lookup-erase_if (expired now) session m h

  abbrev pub transit_of : Option (Entry F) → Option (AvatarTransit F)
  transit_of none = none
  transit_of (some e) = some e.transit

  consume_found-transit :
      (session : Bytes) (o : Option (Entry F)) (m : Registry F)
      → (consume_found session o m).0 ≡ transit_of o
  unfolding consume_found
  consume_found-transit session none m = refl
  consume_found-transit session (some e) m = refl

  authorize-live :
      (agent session : Bytes) (now : ℕ) (m : Registry F)
      → IsMap m
      → (authorize agent session now m).0 ≡ authorized agent (live now session m)
  unfolding authorize
  authorize-live agent session now m h = ap (authorized agent) (lookup-purge now session m h)

  consume-live :
      (session : Bytes) (now : ℕ) (m : Registry F)
      → IsMap m
      → (consume session now m).0 ≡ transit_of (live now session m)
  unfolding consume
  consume-live session now m h =
      consume_found-transit session (lookup session (purge now m)) (purge now m)
      ∙ ap transit_of (lookup-purge now session m h)

  -- The session has an entry with this transit, and the time it expires is not reached.
  pub record Waits (session : Bytes) (now : ℕ) (m : Registry F) (t : AvatarTransit F) : Type 0 where
    pub entry : Entry F
    pub found : lookup session m ≡ some entry
    pub staged : entry.transit ≡ t
    pub unexpired : now < entry.expires_at

  consumed→Waits :
      (session : Bytes) (now : ℕ) (m : Registry F) (t : AvatarTransit F) (o : Option (Entry F))
      → lookup session m ≡ o
      → transit_of (unless (expired now session) o) ≡ some t
      → Waits session now m t
  consumed→Waits session now m t none e h = cc
  consumed→Waits session now m t (some x) e h = elim (Bool-cases (leb x.expires_at now)) [
    | inl q ↦ absurd (ground (arith, q, h))
    | inr q ↦ record {
      entry = x;
      found = e;
      staged = ground (arith, q, h);
      unexpired = ground (arith, q);
    }
  ]

  Waits→consumed :
      (session : Bytes) (now : ℕ) (m : Registry F) (t : AvatarTransit F)
      → Waits session now m t
      → transit_of (live now session m) ≡ some t
  Waits→consumed session now m t w = rw w.found (ground (arith, w.unexpired, w.staged))

  agent_of : AvatarTransit F → Option (AvatarTransit F) → Bytes
  agent_of t none = t.agent_id
  agent_of t (some u) = u.agent_id

  transit_of-agent :
      (x : Entry F) (t : AvatarTransit F)
      → transit_of (some x) ≡ some t
      → x.transit.agent_id ≡ t.agent_id
  unfolding agent_of
  transit_of-agent x t h = ap (agent_of t) h

  authorized→own :
      (agent : Bytes) (t : AvatarTransit F) (o : Option (Entry F))
      → authorized agent o ≡ some t
      → (transit_of o ≡ some t) × (t.agent_id ≡ agent)
  authorized→own agent t none h = cc
  authorized→own agent t (some x) h = elim (Bool-cases (bytes_eq x.transit.agent_id agent)) [
    | inl q ↦
        let same : transit_of (some x) ≡ some t = ground (arith, q, h) in
        (same, sym (transit_of-agent x t same) ∙ bytes_eq→eq x.transit.agent_id agent q)
    | inr q ↦ absurd (ground (arith, q, h))
  ]

  own→authorized :
      (agent : Bytes) (t : AvatarTransit F) (o : Option (Entry F))
      → transit_of o ≡ some t
      → t.agent_id ≡ agent
      → authorized agent o ≡ some t
  own→authorized agent t none h e = cc
  own→authorized agent t (some x) h e =
      let same : bytes_eq x.transit.agent_id agent ≡ true =
        ap (λ a. bytes_eq a agent) (transit_of-agent x t h ∙ e) ∙ bytes_eq_refl agent in
      rw same h

  -- On a registry with one entry to a session, `consume` gives out a transit exactly if the session
  -- has an entry with that transit that expires later than now, and `authorize` exactly if, besides,
  -- the transit is the agent's own.
  pub authorize-consume-live :
      (agent session : Bytes) (now : ℕ) (m : Registry F) (t : AvatarTransit F)
      → IsMap m
      → (((authorize agent session now m).0 ≡ some t)
          ↔ (Waits session now m t × (t.agent_id ≡ agent)))
        × (((consume session now m).0 ≡ some t) ↔ Waits session now m t)
  authorize-consume-live agent session now m t h = (
    (
      (λ e.
          let own =
            authorized→own agent t (live now session m)
              (sym (authorize-live agent session now m h) ∙ e) in
          (consumed→Waits session now m t (lookup session m) refl own.0, own.1)),
      λ w.
          authorize-live agent session now m h
          ∙ own→authorized agent t (live now session m) (Waits→consumed session now m t w.0) w.1,
    ),
    (
      (λ e.
          consumed→Waits session now m t (lookup session m) refl
            (sym (consume-live session now m h) ∙ e)),
      λ w. consume-live session now m h ∙ Waits→consumed session now m t w,
    ),
  )

  -- On a registry with one entry to a session, a transit is given out once: after `consume` the session has nothing, and every other session
  -- has its live transit.
  pub lookup-consume :
      (session other : Bytes) (now : ℕ) (m : Registry F)
      → IsMap m
      → lookup other (consume session now m).1
        ≡ (if bytes_eq other session then none else live now other m)
  unfolding consume
  lookup-consume session other now m h =
      go (lookup session (purge now m)) refl
      ∙ ap (λ o. if bytes_eq other session then none else o) (lookup-purge now other m h)
    where
      kept_map : IsMap (purge now m)
      kept_map = unfold purge in erase_if-IsMap (expired now) m h

      go :
          (o : Option (Entry F))
          → lookup session (purge now m) ≡ o
          → lookup other (consume_found session o (purge now m)).1
            ≡ (if bytes_eq other session then none else lookup other (purge now m))
      go none e = elim (Bool-cases (bytes_eq other session)) [
        | inl q ↦ rw q (ap (λ k. lookup k (purge now m)) (bytes_eq→eq other session q) ∙ e)
        | inr q ↦ rw q
      ]
      go (some x) e =
          ground (arith, lookup-erase_if (is_session session) other (purge now m) kept_map)

  staged_entry :
      (t : AvatarTransit F) (local : Bytes) (now : ℕ) (o : Option ℕ) (m : Registry F)
      → (stage_for t local now o m).0 ≡ true
      → (n : ℕ) × (o ≡ some n)
        × ((stage_for t local now o m).1
            ≡ insert t.session_id (record { transit = t; expires_at = now + n }) m)
  unfolding stage_for
  staged_entry t local now none m h = cc
  staged_entry t local now (some n) m h = (n, refl, ground arith)

  authorize-inserted :
      (agent : Bytes) (t : AvatarTransit F) (x later : ℕ) (m : Registry F)
      → IsMap m
      → (authorize agent t.session_id later
          (insert t.session_id (record { transit = t; expires_at = x }) m)).0
        ≡ (if leb x later then none else (if bytes_eq t.agent_id agent then some t else none))
  authorize-inserted agent t x later m h =
      let staged : Entry F = record { transit = t; expires_at = x } in
      let m' = insert t.session_id staged m in
      authorize-live agent t.session_id later m' (insert-IsMap t.session_id staged m h)
      ∙ ground (arith, lookup-insert t.session_id t.session_id staged m, bytes_eq_refl t.session_id)

  -- A transit that `stage` took into a registry with one entry to a session, for `n` seconds that
  -- end at a time below 2 ^ 63 nanoseconds: until the `n` seconds have run out `authorize` gives it
  -- to its own agent and to no other, and from then on to nobody.
  pub authorize-stage :
      (t : AvatarTransit F) (local : Bytes) (now n : ℕ) (m : Registry F)
      → IsMap m
      → now + n * 1_000_000_000 < 9_223_372_036_854_775_808
      → (stage t local now (pos n) m).0 ≡ true
      → (agent : Bytes) (later : ℕ)
      → (authorize agent t.session_id later (stage t local now (pos n) m).1).0 ≡ (
          if leb (now + n * 1_000_000_000) later
          then none
          else (if bytes_eq t.agent_id agent then some t else none))
  unfolding stage
  authorize-stage t local now n m h in_range ok agent later =
      let (x, e, r) = staged_entry t local now (lifetime_of (pos n)) (purge now m) ok in
      ap (λ k. (authorize agent t.session_id later k).0) r
      ∙ authorize-inserted agent t (now + x) later (purge now m)
          (unfold purge in erase_if-IsMap (expired now) m h)
      ∙ ap
          (λ y.
            if leb (now + y) later
            then none
            else (if bytes_eq t.agent_id agent then some t else none))
          (lifetime_seconds n x e)
