-- ===== src/Viewer/Circuit/Deliveries.antt =====
-- Reliable packets that a circuit delivers of a row of datagrams.
use mathlib.Core.Path.{subst}
use homeworldz.Common.{
  ℕ, ◌+◌, ◌≤◌, ◌<◌, ◌≡◌, ◌≢◌, refl, ap, sym, ◌∙◌, true, false, List, [], ◌∷◌, arith, length,
  if◌then◌else◌, if_both, Bool-cases, inl, inr, ◌⊎◌, ==_iff,
}
use homeworldz.Common.Bytes.{Bytes}
use homeworldz.Common.Bits.{has_bit}
use homeworldz.Viewer.Packet.{
  reliable, Packet, malformed, undefined, packet, Decoded, decode_packet,
}
use homeworldz.Viewer.Circuit.{
  Circuit, contains, Received, nothing, undefined_read, delivered, erase_acked, remember,
  receive_reliable, receive_packet, receive_decoded, receive,
}

-- The sequence number of what was delivered, in front of others, if it was sent reliably.
abbrev pub note_delivery : Received → List ℕ → List ℕ
note_delivery nothing rest = rest
note_delivery undefined_read rest = rest
note_delivery (delivered p) rest = if has_bit reliable p.flags then p.sequence ∷ rest else rest

module _ {D : Type 0} where
  -- The reliable packets that a circuit delivers of a row of datagrams, by sequence number.
  unfoldable pub deliveries : List (Bytes × ℕ) → Circuit D → List ℕ
  deliveries [] c = []
  deliveries ((datagram, now) ∷ rest) c =
      let r = receive datagram now c in note_delivery r.0 (deliveries rest r.1)

  -- What a datagram does to the deliveries: none, and what was received stays; or one of a number
  -- that was not received before, and it is.
  abbrev Steps : Circuit D → Received × Circuit D → Type 0
  Steps c (r, after) =
      (((rest : List ℕ) → note_delivery r rest ≡ rest)
        × (after.received_reliable ≡ c.received_reliable))
      ⊎ ((n : ℕ) × ((rest : List ℕ) → note_delivery r rest ≡ n ∷ rest)
          × (contains n c.received_reliable ≡ false)
          × (after.received_reliable ≡ n ∷ c.received_reliable))

  receive_reliable-Steps :
      (p : Packet) (c : Circuit D)
      → has_bit reliable p.flags ≡ true
      → length c.received_reliable < 4096
      → Steps c (receive_reliable p c)
  unfolding receive_reliable remember
  receive_reliable-Steps p c flagged room =
      elim (Bool-cases (contains p.sequence c.received_reliable)) [
        | inl q ↦ rw q (inl (λ rest. refl, refl))
        | inr q ↦ rw q (inr (p.sequence, λ rest. ground (arith, flagged), q, ground (arith, room)))
      ]

  receive_packet-Steps :
      (p : Packet) (now : ℕ) (c : Circuit D)
      → length c.received_reliable < 4096
      → Steps c (receive_packet p now c)
  unfolding receive_packet
  receive_packet-Steps p now c room =
      let acked = record c { last_activity = now; pending = erase_acked p c.pending } in
      if_both (Steps c) (has_bit reliable p.flags) (λ q. receive_reliable-Steps p acked q room)
        (λ q. inl (λ rest. ground (arith, q), refl))

  receive-Steps :
      (datagram : Bytes) (now : ℕ) (c : Circuit D)
      → length c.received_reliable < 4096
      → Steps c (receive datagram now c)
  unfolding receive
  receive-Steps datagram now c room = decoded (decode_packet datagram)
    where
      decoded : (d : Decoded) → Steps c (receive_decoded d now c)
      decoded malformed = inl (λ rest. refl, refl)
      decoded undefined = inl (λ rest. refl, refl)
      decoded (packet p) = receive_packet-Steps p now c room

  -- While the set has room, what was received is not delivered again.
  deliveries_fresh :
      (inputs : List (Bytes × ℕ)) (c : Circuit D) (n : ℕ)
      → length inputs + length c.received_reliable ≤ 4096
      → contains n c.received_reliable ≡ true
      → contains n (deliveries inputs c) ≡ false
  unfolding deliveries contains
  deliveries_fresh [] c n room there = refl
  deliveries_fresh ((datagram, now) ∷ rest) c n room there =
      let r = receive datagram now c in
      elim (receive-Steps datagram now c (omega arith)) [
        | inl (e, same) ↦
            ap (contains n) (e (deliveries rest r.1))
            ∙ deliveries_fresh rest r.1 n (omega (arith, room, ap length same))
                (ap (contains n) same ∙ there)
        | inr (m, e, fresh, more) ↦
            ap (contains n) (e (deliveries rest r.1))
            ∙ ground (
              arith,
              fresh,
              there,
              ==_iff m n,
              deliveries_fresh rest r.1 n (omega (arith, room, ap length more))
                  (ap (contains n) more ∙ ground (arith, there)),
            )
      ]

abbrev pub AllDistinct : List ℕ → Type 0
AllDistinct [] = Unit {0}
AllDistinct (n ∷ ns) = (contains n ns ≡ false) × AllDistinct ns

-- No datagram of the row is read out of its bounds, after which a program has no meaning.
abbrev pub AllDefined : List (Bytes × ℕ) → Type 0
AllDefined [] = Unit {0}
AllDefined ((datagram, now) ∷ rest) = (decode_packet datagram ≢ undefined) × AllDefined rest

module _ {D : Type 0} where
  -- A circuit delivers no reliable packet twice, by sequence number, in a row of datagrams of which
  -- none is read out of its bounds and for which its set of received numbers has room: at most 4096
  -- with those that it holds.
  pub deliveries-AllDistinct :
      (inputs : List (Bytes × ℕ)) (c : Circuit D)
      → AllDefined inputs
      → length inputs + length c.received_reliable ≤ 4096
      → AllDistinct (deliveries inputs c)
  unfolding deliveries
  deliveries-AllDistinct [] c defined room = tt
  deliveries-AllDistinct ((datagram, now) ∷ rest) c (_, defined) room =
      elim (receive-Steps datagram now c (omega arith)) [
        | inl (e, same) ↦ subst AllDistinct (sym (e (deliveries rest (receive datagram now c).1))) (
            deliveries-AllDistinct rest (receive datagram now c).1 defined
              (omega (arith, room, ap length same)))
        | inr (m, e, fresh, more) ↦
            let after = (receive datagram now c).1 in
            let room_after : length rest + length after.received_reliable ≤ 4096 =
              omega (arith, room, ap length more) in
            subst AllDistinct (sym (e (deliveries rest after))) (
              deliveries_fresh rest after m room_after
                  (ap (contains m) more ∙ (unfold contains in ground arith)),
              deliveries-AllDistinct rest after defined room_after,
            )
      ]
