-- ===== src/Viewer/Registry/Identity.antt =====
-- Which identity every endpoint has after an operation of the registry.
use homeworldz.Common.{
  ℕ, ◌≡◌, refl, ap, sym, ◌∙◌, Bool, true, Option, none, some, [], ◌∷◌, arith, if◌then◌else◌,
  if_both, Bool-cases, inl, inr, ◌⊎◌,
}
use homeworldz.Common.Bytes.{Bytes, bytes_eq, bytes_eq→eq}
use homeworldz.Common.Bits.{has_bit}
use homeworldz.Common.Assoc.{
  Assoc, IsMap, lookup, insert, erase_if, unless, lookup-insert, lookup-erase_if,
}
use homeworldz.Viewer.Packet.{reliable, Decoded, malformed, undefined, packet, decode_packet}
use homeworldz.Viewer.Circuit.{Doubles, Circuit, Received, expired, new_circuit}
use homeworldz.Viewer.Registry.{
  UseCircuitCode, decode_use_circuit_code, Entry, authorized, Registry, conflicts, with_identity,
  identity, remove, displace, receive_at, default_timeout, admit_requested, admit_decoded,
  receive_found, receive_from, send_found, send_to, poll_entries, poll_all,
}

module _ {D : Type 0} where
  -- Every endpoint that has an identity after an operation had it before.
  abbrev pub Narrows : Registry D → Registry D → Type 0
  Narrows r after =
      (i : Bytes) (x : UseCircuitCode) → identity i after ≡ some x → identity i r ≡ some x

  -- A new circuit for the entry of an endpoint changes no identity.
  insert_same :
      (endpoint i : Bytes) (entry : Entry D) (circuit : Circuit D) (m : Assoc (Entry D))
      → lookup endpoint m ≡ some entry
      → with_identity (lookup i (insert endpoint (record entry { circuit = circuit }) m))
        ≡ with_identity (lookup i m)
  insert_same endpoint i entry circuit m found =
      ap with_identity (lookup-insert endpoint i (record entry { circuit = circuit }) m)
      ∙ (elim (Bool-cases (bytes_eq endpoint i)) [
        | inl e ↦
            rw e (
              sym
                (ap with_identity (ap (λ k. lookup k m) (sym (bytes_eq→eq endpoint i e)) ∙ found)))
        | inr e ↦ rw e refl
      ])

  erase_if_identity :
      (test : UseCircuitCode → Bool) (r : Registry D) (i : Bytes)
      → IsMap r.circuits
      → with_identity (lookup i (erase_if (λ key entry. test entry.identity) r.circuits))
        ≡ unless test (identity i r)
  unfolding identity
  erase_if_identity test r i is_map =
      ap with_identity (lookup-erase_if (λ key entry. test entry.identity) i r.circuits is_map)
      ∙ entries (lookup i r.circuits)
    where
      entries :
          (o : Option (Entry D))
          → with_identity (unless (λ entry. test entry.identity) o) ≡ unless test (with_identity o)
      entries none = refl
      entries (some entry) = ground arith

  -- After a request was admitted its endpoint has its identity, and every other one has what it
  -- had, unless that conflicts with the request.
  pub admit_identity :
      (endpoint datagram : Bytes) (now : ℕ) (requested : UseCircuitCode) (circuit : Circuit D)
      (r : Registry D) (i : Bytes)
      → IsMap r.circuits
      → identity i
          (receive_at endpoint datagram now
            (record { identity = requested; circuit = circuit })
            (displace requested r)).1
        ≡ (if bytes_eq endpoint i
            then some requested
            else unless (conflicts requested) (identity i r))
  unfolding identity receive_at displace
  admit_identity endpoint datagram now requested circuit r i is_map =
      ap with_identity (lookup-insert endpoint i _ _)
      ∙ ground (arith, erase_if_identity (conflicts requested) r i is_map)

  receive_at-Narrows :
      (endpoint datagram : Bytes) (now : ℕ) (entry : Entry D) (r : Registry D)
      → lookup endpoint r.circuits ≡ some entry
      → Narrows r (receive_at endpoint datagram now entry r).1
  unfolding receive_at identity
  receive_at-Narrows endpoint datagram now entry r found i x h =
      sym (insert_same endpoint i entry _ r.circuits found) ∙ h

  pub remove-Narrows :
      (endpoint : Bytes) (r : Registry D) → IsMap r.circuits → Narrows r (remove endpoint r)
  unfolding remove identity
  remove-Narrows endpoint r is_map i x h =
      ground (arith, h, lookup-erase_if (λ key entry. bytes_eq key endpoint) i r.circuits is_map)

module _ {D : Type 0} (doubles : Doubles D) (now : ℕ) where
  poll_entries-none :
      (i : Bytes) (m : Assoc (Entry D))
      → lookup i m ≡ none
      → lookup i (poll_entries doubles now m).1 ≡ none
  unfolding lookup poll_entries
  poll_entries-none i [] h = refl
  poll_entries-none i ((j, entry) ∷ m) h = ground (arith, h, poll_entries-none i m)

  pub poll_entries-IsMap : (m : Assoc (Entry D)) → IsMap m → IsMap (poll_entries doubles now m).1
  unfolding poll_entries
  poll_entries-IsMap [] h = tt
  poll_entries-IsMap ((j, entry) ∷ m) (h, hs) = elim (Bool-cases (expired now entry.circuit)) [
    | inl e ↦ rw e (poll_entries-IsMap m hs)
    | inr e ↦ rw e (poll_entries-none j m h, poll_entries-IsMap m hs)
  ]

  poll_entries_narrows :
      (m : Assoc (Entry D)) (i : Bytes) (x : UseCircuitCode)
      → IsMap m
      → with_identity (lookup i (poll_entries doubles now m).1) ≡ some x
      → with_identity (lookup i m) ≡ some x
  unfolding lookup poll_entries
  poll_entries_narrows [] i x is_map h = h
  poll_entries_narrows ((j, entry) ∷ m) i x (h, hs) e = elim (Bool-cases (bytes_eq j i)) [
    | inl q ↦
        ground
          (arith, e, q, poll_entries-none i m (ap (λ k. lookup k m) (sym (bytes_eq→eq j i q)) ∙ h))
    | inr q ↦ ground (arith, e, q, poll_entries_narrows m i x hs)
  ]

  pub poll_all-Narrows : (r : Registry D) → IsMap r.circuits → Narrows r (poll_all doubles now r).1
  unfolding poll_all identity
  poll_all-Narrows r is_map i x h = poll_entries_narrows r.circuits i x is_map h

module _ {D : Type 0} (doubles : Doubles D) (now : ℕ) (r : Registry D) where
  pub send_to-Narrows :
      (endpoint payload : Bytes) (is_reliable is_zero_coded : Bool)
      → Narrows r (send_to doubles endpoint payload is_reliable now is_zero_coded r).1
  unfolding send_to
  send_to-Narrows endpoint payload is_reliable is_zero_coded =
      found (lookup endpoint r.circuits) refl
    where
      found :
          (o : Option (Entry D))
          → lookup endpoint r.circuits ≡ o
          → Narrows r (send_found doubles endpoint payload is_reliable now is_zero_coded r o).1
      found none e i x h = h
      found (some entry) e i x h =
          unfold identity in sym (insert_same endpoint i entry _ r.circuits e) ∙ h

  -- What `receive` does: it brings no identity to any endpoint, or it admits an authorized request.
  abbrev pub Receives : Bytes → Received × Registry D → Type 0
  Receives endpoint (result, after) =
      Narrows r after
      ⊎ ((requested : UseCircuitCode) × (authorized r.authorizer requested ≡ true)
          × ((i : Bytes)
              → identity i after ≡ (
                  if bytes_eq endpoint i
                  then some requested
                  else unless (conflicts requested) (identity i r))))

  requested-Receives :
      (endpoint datagram : Bytes) (o : Option UseCircuitCode)
      → IsMap r.circuits
      → Receives endpoint (admit_requested doubles endpoint datagram now r o)
  unfolding admit_requested
  requested-Receives endpoint datagram none is_map = inl (λ i x h. h)
  requested-Receives endpoint datagram (some requested) is_map =
      if_both (Receives endpoint) (authorized r.authorizer requested)
        (λ q. inr (
          requested,
          q,
          λ i.
              admit_identity endpoint datagram now requested
                (new_circuit doubles now (doubles.of_size 128000) default_timeout) r i is_map,
        ))
        (λ q. inl (λ i x h. h))

  pub receive_from-Receives :
      (endpoint datagram : Bytes)
      → IsMap r.circuits
      → Receives endpoint (receive_from doubles endpoint datagram now r)
  unfolding receive_from
  receive_from-Receives endpoint datagram is_map = found (lookup endpoint r.circuits) refl
    where
      decoded : (d : Decoded) → Receives endpoint (admit_decoded doubles endpoint datagram now r d)
      decoded malformed = inl (λ i x h. h)
      decoded undefined = inl (λ i x h. h)
      decoded (packet p) =
          if_both (Receives endpoint) (has_bit reliable p.flags)
            (λ q. requested-Receives endpoint datagram (decode_use_circuit_code p.payload) is_map)
            (λ q. inl (λ i x h. h))

      found :
          (o : Option (Entry D))
          → lookup endpoint r.circuits ≡ o
          → Receives endpoint (receive_found doubles endpoint datagram now r o)
      found none e = decoded (decode_packet datagram)
      found (some entry) e = inl (receive_at-Narrows endpoint datagram now entry r e)
