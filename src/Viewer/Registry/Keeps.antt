-- ===== src/Viewer/Registry/Keeps.antt =====
-- That the operations of the registry keep its endpoints distinct and its authorizer.
use homeworldz.Common.{ℕ, ◌≡◌, refl, ◌∙◌, Bool, Option, none, some, if_both}
use homeworldz.Common.Bytes.{Bytes, bytes_eq}
use homeworldz.Common.Assoc.{IsMap, lookup, insert-IsMap, erase_if-IsMap}
use homeworldz.Common.Bits.{has_bit}
use homeworldz.Viewer.Packet.{reliable, Decoded, malformed, undefined, packet, decode_packet}
use homeworldz.Viewer.Circuit.{Doubles, Received, new_circuit}
use homeworldz.Viewer.Registry.{
  UseCircuitCode, decode_use_circuit_code, Entry, authorized, Registry, conflicts, remove, displace,
  receive_at, default_timeout, admit_requested, admit_decoded, receive_found, receive_from,
  send_found, send_to, poll_all,
}
use homeworldz.Viewer.Registry.Identity.{poll_entries-IsMap}

module _ {D : Type 0} where
  abbrev pub Keeps : Registry D → Registry D → Type 0
  Keeps r after = (after.authorizer ≡ r.authorizer) × IsMap after.circuits

  receive_at-Keeps :
      (endpoint datagram : Bytes) (now : ℕ) (entry : Entry D) (r : Registry D)
      → IsMap r.circuits
      → Keeps r (receive_at endpoint datagram now entry r).1
  unfolding receive_at
  receive_at-Keeps endpoint datagram now entry r is_map =
      (refl, insert-IsMap endpoint _ r.circuits is_map)

  displace-IsMap :
      (requested : UseCircuitCode) (r : Registry D)
      → IsMap r.circuits
      → IsMap (displace requested r).circuits
  unfolding displace
  displace-IsMap requested r is_map =
      erase_if-IsMap (λ key entry. conflicts requested entry.identity) r.circuits is_map

  displace_authorizer :
      (requested : UseCircuitCode) (r : Registry D)
      → (displace requested r).authorizer ≡ r.authorizer
  unfolding displace
  displace_authorizer requested r = refl

  pub remove-Keeps :
      (endpoint : Bytes) (r : Registry D) → IsMap r.circuits → Keeps r (remove endpoint r)
  unfolding remove
  remove-Keeps endpoint r is_map =
      (refl, erase_if-IsMap (λ key entry. bytes_eq key endpoint) r.circuits is_map)

module _ {D : Type 0} (doubles : Doubles D) where
  requested-Keeps :
      (endpoint datagram : Bytes) (now : ℕ) (r : Registry D)
      → IsMap r.circuits
      → (o : Option UseCircuitCode) → Keeps r (admit_requested doubles endpoint datagram now r o).1
  unfolding admit_requested
  requested-Keeps endpoint datagram now r is_map none = (refl, is_map)
  requested-Keeps endpoint datagram now r is_map (some requested) =
      let entry : Entry D = record {
        identity = requested;
        circuit = new_circuit doubles now (doubles.of_size 128000) default_timeout;
      } in
      let kept =
        receive_at-Keeps endpoint datagram now entry (displace requested r)
          (displace-IsMap requested r is_map) in
      if_both {A = Received × Registry D} (λ s. Keeps r s.1) (authorized r.authorizer requested)
        (λ q. (kept.0 ∙ displace_authorizer requested r, kept.1)) (λ q. (refl, is_map))

  pub receive_from-Keeps :
      (endpoint datagram : Bytes) (now : ℕ) (r : Registry D)
      → IsMap r.circuits
      → Keeps r (receive_from doubles endpoint datagram now r).1
  unfolding receive_from
  receive_from-Keeps endpoint datagram now r is_map = found (lookup endpoint r.circuits)
    where
      decoded : (d : Decoded) → Keeps r (admit_decoded doubles endpoint datagram now r d).1
      decoded malformed = (refl, is_map)
      decoded undefined = (refl, is_map)
      decoded (packet p) =
          if_both {A = Received × Registry D} (λ s. Keeps r s.1) (has_bit reliable p.flags)
            (λ q.
              requested-Keeps endpoint datagram now r is_map (decode_use_circuit_code p.payload))
            (λ q. (refl, is_map))

      found : (o : Option (Entry D)) → Keeps r (receive_found doubles endpoint datagram now r o).1
      found none = decoded (decode_packet datagram)
      found (some entry) = receive_at-Keeps endpoint datagram now entry r is_map

  pub send_to-Keeps :
      (endpoint payload : Bytes) (is_reliable is_zero_coded : Bool) (now : ℕ) (r : Registry D)
      → IsMap r.circuits
      → Keeps r (send_to doubles endpoint payload is_reliable now is_zero_coded r).1
  unfolding send_to
  send_to-Keeps endpoint payload is_reliable is_zero_coded now r is_map =
      found (lookup endpoint r.circuits)
    where
      found :
          (o : Option (Entry D))
          → Keeps r (send_found doubles endpoint payload is_reliable now is_zero_coded r o).1
      found none = (refl, is_map)
      found (some entry) = (refl, insert-IsMap endpoint _ r.circuits is_map)

  pub poll_all-Keeps :
      (now : ℕ) (r : Registry D) → IsMap r.circuits → Keeps r (poll_all doubles now r).1
  unfolding poll_all
  poll_all-Keeps now r is_map = (refl, poll_entries-IsMap doubles now r.circuits is_map)
