-- ===== src/Viewer/Circuit/Reliable.antt =====
-- What `receive` of a circuit does with acknowledgements, and with a reliable packet that is resent.
use homeworldz.Common.{
  ℕ, Option, none, some, ◌≡◌, ap, ◌∙◌, true, false, List, [], ◌∷◌, ◌++◌, arith, length, ltb, ◌==◌,
  if◌then◌else◌, Bool-cases, inl, inr,
}
use homeworldz.Common.Bytes.{Bytes}
use homeworldz.Common.Bits.{has_bit}
use homeworldz.Viewer.Packet.{reliable, Packet, packet, decode_packet}
use homeworldz.Viewer.Circuit.Acks.{keys, contains-erase}
use homeworldz.Viewer.Circuit.{
  Circuit, contains, nothing, delivered, erase, erase_all, erase_message, erase_acked,
  decode_packet_ack, Pending, queue_ack, remember, receive_reliable, receive_packet, receive,
}

contains-erase_all-none :
    (k : ℕ) (acks : List ℕ) (pending : List (ℕ × Pending))
    → contains k (keys pending) ≡ false
    → contains k (keys (erase_all acks pending)) ≡ false
unfolding erase_all
contains-erase_all-none k [] pending h = h
contains-erase_all-none k (j ∷ js) pending h =
    contains-erase_all-none k js (erase j pending) (ground (arith, h, contains-erase k j pending))

contains-erase_all :
    (k : ℕ) (acks : List ℕ) (pending : List (ℕ × Pending))
    → contains k acks ≡ true
    → contains k (keys (erase_all acks pending)) ≡ false
unfolding erase_all contains
contains-erase_all k [] pending h = cc
contains-erase_all k (j ∷ js) pending h = elim (Bool-cases (j == k)) [
  | inl q ↦
      contains-erase_all-none k js (erase j pending) (ground (arith, q, contains-erase k j pending))
  | inr q ↦ contains-erase_all k js (erase j pending) (ground (arith, h, q))
]

contains-erase_acked :
    (k : ℕ) (p : Packet) (pending : List (ℕ × Pending))
    → contains k p.acknowledgements ≡ true
    → contains k (keys (erase_acked p pending)) ≡ false
unfolding erase_acked
contains-erase_acked k p pending h = message (decode_packet_ack p.payload)
  where
    message :
        (o : Option (List ℕ))
        → contains k (keys (erase_message o (erase_all p.acknowledgements pending))) ≡ false
    message none = contains-erase_all k p.acknowledgements pending h
    message (some acks) =
        contains-erase_all-none k acks (erase_all p.acknowledgements pending)
          (contains-erase_all k p.acknowledgements pending h)

contains-erase_acked-message :
    (k : ℕ) (p : Packet) (pending : List (ℕ × Pending)) (acks : List ℕ)
    → decode_packet_ack p.payload ≡ some acks
    → contains k acks ≡ true
    → contains k (keys (erase_acked p pending)) ≡ false
unfolding erase_acked
contains-erase_acked-message k p pending acks e h =
    rw e (contains-erase_all k acks (erase_all p.acknowledgements pending) h)

contains-append_last : (n : ℕ) (queue : List ℕ) → contains n (queue ++ n ∷ []) ≡ true
unfolding contains
contains-append_last n [] = ground arith
contains-append_last n (m ∷ ms) = ground (arith, contains-append_last n ms)

contains-queue_ack : (n : ℕ) (queue : List ℕ) → contains n (queue_ack n queue) ≡ true
unfolding queue_ack
contains-queue_ack n queue = ground (arith, contains-append_last n queue)

module _ {D : Type 0} (p : Packet) (now : ℕ) (c : Circuit D) where
  receive_packet_pending : (receive_packet p now c).1.pending ≡ erase_acked p c.pending
  unfolding receive_packet receive_reliable
  receive_packet_pending = ground arith

  pub receive_packet_queue :
      has_bit reliable p.flags ≡ true
      → (receive_packet p now c).1.queued_acks ≡ queue_ack p.sequence c.queued_acks
  unfolding receive_packet receive_reliable
  receive_packet_queue flagged = ground (arith, flagged)

  receive_packet_result :
      has_bit reliable p.flags ≡ true
      → (receive_packet p now c).0
        ≡ (if contains p.sequence c.received_reliable then nothing else delivered p)
  unfolding receive_packet receive_reliable
  receive_packet_result flagged = ground (arith, flagged)

  receive_packet_received :
      has_bit reliable p.flags ≡ true
      → contains p.sequence c.received_reliable ≡ false
      → (receive_packet p now c).1.received_reliable ≡ remember p.sequence c.received_reliable
  unfolding receive_packet receive_reliable
  receive_packet_received flagged fresh = ground (arith, flagged, fresh)

contains-remember :
    (n : ℕ) (received : List ℕ)
    → contains n (remember n received) ≡ (if ltb 4095 (length received) then false else true)
unfolding contains remember
contains-remember n received = ground arith

module _ {D : Type 0} (d : Bytes) (p : Packet) (c : Circuit D) where
  -- What `receive` leaves of a packet, delivered or not: no packet that its appended
  -- acknowledgements name waits any longer, and none that its payload names, where that is a message
  -- of acknowledgements; and if it is reliable its sequence number is queued to be acknowledged.
  pub receive_acks :
      (now : ℕ)
      → decode_packet d ≡ packet p
      → ((k : ℕ)
          → contains k p.acknowledgements ≡ true
          → contains k (keys (receive d now c).1.pending) ≡ false)
        × (has_bit reliable p.flags ≡ true
            → contains p.sequence (receive d now c).1.queued_acks ≡ true)
        × ((acks : List ℕ)
            → decode_packet_ack p.payload ≡ some acks
            → (k : ℕ) → contains k acks ≡ true
            → contains k (keys (receive d now c).1.pending) ≡ false)
  unfolding receive
  receive_acks now e = rw e (
    (λ k h.
        ap (λ m. contains k (keys m)) (receive_packet_pending p now c)
        ∙ contains-erase_acked k p c.pending h),
    (λ flagged.
        ap (contains p.sequence) (receive_packet_queue p now c flagged)
        ∙ contains-queue_ack p.sequence c.queued_acks),
    λ acks m k h.
        ap (λ rest. contains k (keys rest)) (receive_packet_pending p now c)
        ∙ contains-erase_acked-message k p c.pending acks m h,
  )

  -- A reliable packet that was not received before is delivered; the same datagram once more is
  -- not, unless the set of received numbers was full and has been cleared.
  pub receive_again :
      (now later : ℕ)
      → decode_packet d ≡ packet p
      → has_bit reliable p.flags ≡ true
      → contains p.sequence c.received_reliable ≡ false
      → ((receive d now c).0 ≡ delivered p)
        × ((receive d later (receive d now c).1).0
            ≡ (if ltb 4095 (length c.received_reliable) then delivered p else nothing))
  unfolding receive
  receive_again now later e flagged fresh =
      let after = (receive_packet p now c).1 in
      rw e (
        receive_packet_result p now c flagged ∙ rw fresh,
        receive_packet_result p later after flagged
            ∙ ground (
              arith,
              ap (contains p.sequence) (receive_packet_received p now c flagged fresh),
              contains-remember p.sequence c.received_reliable,
            ),
      )
