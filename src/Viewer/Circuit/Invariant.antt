-- ===== src/Viewer/Circuit/Invariant.antt =====
-- What every call of a circuit keeps of its state.
use mathlib.Core.Path.{subst}
use homeworldz.Common.{
  ℕ, suc, ◌≤◌, ◌<◌, ◌≡◌, refl, ap, sym, Bool, true, false, Option, List, [], ◌∷◌, ◌&&◌, not, arith,
  length, ltb, if◌then◌else◌, if_both, Bool-cases, inl, inr,
}
use homeworldz.Common.Bytes.{Bytes}
use homeworldz.Common.Bits.{has_bit}
use homeworldz.Viewer.Packet.{
  reliable, Packet, is_nil, encode_packet, Decoded, malformed, undefined, packet, decode_packet,
}
use homeworldz.Viewer.Circuit.{
  Doubles, Bucket, Pending, Circuit, contains, emplace, erase_acked, outgoing, consume, send,
  remember, receive_reliable, receive_packet, receive_decoded, receive, Received,
}
use homeworldz.Viewer.Circuit.Poll.{attempt, poll_pending, poll_acks, poll}
use homeworldz.Viewer.Circuit.Acks.{keys}
use homeworldz.Viewer.Circuit.Deliveries.{AllDistinct}
use homeworldz.Viewer.Circuit.Waiting.{
  AllAttempts, emplace-AllAttempts, emplace-AllDistinct, Waits, erase_acked-Waits,
}

-- No sequence number waits twice, none was received twice, and the set of received ones is bounded.
pub record IsCircuit {D : Type 0} (c : Circuit D) : Type 0 where
  pub attempts : AllAttempts c.pending
  pub keys_distinct : AllDistinct (keys c.pending)
  pub received_distinct : AllDistinct c.received_reliable
  pub received_few : length c.received_reliable ≤ 4096

remembers :
    (n : ℕ) (received : List ℕ)
    → AllDistinct received
    → contains n received ≡ false
    → AllDistinct (remember n received) × (length (remember n received) ≤ 4096)
unfolding remember
remembers n received h fresh =
    if_both (λ r. AllDistinct r × (length r ≤ 4096)) (ltb 4096 (suc (length received)))
      (λ _. (tt, omega arith)) (λ q. ((fresh, h), ground (arith, q)))

emplace_if :
    (test : Bool) (k : ℕ) (e : Pending) (pending : List (ℕ × Pending))
    → 0 < e.attempts
    → e.attempts ≤ 5
    → Waits pending
    → Waits (if test then emplace k e pending else pending)
emplace_if true k e pending p q (a, d) =
    (emplace-AllAttempts k e pending p q a, emplace-AllDistinct k e pending d)
emplace_if false k e pending p q h = h

module _ {D : Type 0} where
  -- A change that leaves the received numbers alone.
  keeps_received :
      (c after : Circuit D)
      → IsCircuit c
      → Waits after.pending
      → after.received_reliable ≡ c.received_reliable
      → IsCircuit after
  keeps_received c after h waits same = record {
    attempts = waits.0;
    keys_distinct = waits.1;
    received_distinct = subst AllDistinct (sym same) h.received_distinct;
    received_few = omega (arith, ap length same, h.received_few);
  }

  receive_reliable-IsCircuit :
      (p : Packet) (c : Circuit D) → IsCircuit c → IsCircuit (receive_reliable p c).1
  unfolding receive_reliable
  receive_reliable-IsCircuit p c h = elim (Bool-cases (contains p.sequence c.received_reliable)) [
    | inl q ↦ rw q (record {
      attempts = h.attempts;
      keys_distinct = h.keys_distinct;
      received_distinct = h.received_distinct;
      received_few = h.received_few;
    })
    | inr q ↦ rw q (record {
      attempts = h.attempts;
      keys_distinct = h.keys_distinct;
      received_distinct = (remembers p.sequence c.received_reliable h.received_distinct q).0;
      received_few = (remembers p.sequence c.received_reliable h.received_distinct q).1;
    })
  ]

  receive_packet-IsCircuit :
      (p : Packet) (now : ℕ) (c : Circuit D) → IsCircuit c → IsCircuit (receive_packet p now c).1
  unfolding receive_packet
  receive_packet-IsCircuit p now c h =
      let acked = record c { last_activity = now; pending = erase_acked p c.pending } in
      let kept =
        keeps_received c acked h (erase_acked-Waits p c.pending (h.attempts, h.keys_distinct))
          refl in
      if_both {A = Received × Circuit D} (λ r. IsCircuit r.1) (has_bit reliable p.flags)
        (λ _. receive_reliable-IsCircuit p acked kept) (λ _. kept)

  pub receive-IsCircuit :
      (datagram : Bytes) (now : ℕ) (c : Circuit D)
      → IsCircuit c
      → IsCircuit (receive datagram now c).1
  unfolding receive
  receive-IsCircuit datagram now c h = decoded (decode_packet datagram)
    where
      decoded : (d : Decoded) → IsCircuit (receive_decoded d now c).1
      decoded malformed = h
      decoded undefined = h
      decoded (packet p) = receive_packet-IsCircuit p now c h

module _ {D : Type 0} (doubles : Doubles D) where
  pub send-IsCircuit :
      (payload : Bytes) (is_reliable : Bool) (now : ℕ) (is_zero_coded : Bool) (c : Circuit D)
      → IsCircuit c
      → IsCircuit (send doubles payload is_reliable now is_zero_coded c).1
  unfolding send
  send-IsCircuit payload is_reliable now is_zero_coded c h =
      let p = outgoing c payload is_reliable is_zero_coded in
      let paid = consume doubles (length (encode_packet p)) now c.bucket in
      let waits : Waits c.pending = (h.attempts, h.keys_distinct) in
      if_both {A = Option Bytes × Circuit D} (λ r. IsCircuit r.1) (is_nil (encode_packet p))
        (λ _. keeps_received c _ h waits refl)
        (λ _.
          if_both {A = Option Bytes × Circuit D} (λ r. IsCircuit r.1) paid.0
            (λ _.
              keeps_received c _ h
                (emplace_if is_reliable p.sequence
                  (record { packet_sent = p; sent_at = now; attempts = 1 }) c.pending (omega arith)
                  (omega arith) waits)
                refl)
            (λ _. keeps_received c _ h waits refl))

  attempt_attempts :
      (now : ℕ) (e : Pending) (acks : List ℕ) (b : Bucket D)
      → 0 < e.attempts
      → e.attempts ≤ 5
      → (0 < (attempt doubles now e acks b).entry.attempts)
        × ((attempt doubles now e acks b).entry.attempts ≤ 5)
  unfolding attempt
  attempt_attempts now e acks b p q = (ground (arith, p, q), ground (arith, p, q))

  keys-poll_pending :
      (now : ℕ) (pending : List (ℕ × Pending)) (acks : List ℕ) (b : Bucket D)
      → keys (poll_pending doubles now pending acks b).entries ≡ keys pending
  unfolding poll_pending
  keys-poll_pending now [] acks b = refl
  keys-poll_pending now ((k, e) ∷ rest) acks b =
      let a = attempt doubles now e acks b in
      ap (λ ks. k ∷ ks) (keys-poll_pending now rest a.acks a.left)

  poll_pending-AllAttempts :
      (now : ℕ) (pending : List (ℕ × Pending)) (acks : List ℕ) (b : Bucket D)
      → AllAttempts pending
      → AllAttempts (poll_pending doubles now pending acks b).entries
  unfolding poll_pending
  poll_pending-AllAttempts now [] acks b h = tt
  poll_pending-AllAttempts now ((k, e) ∷ rest) acks b (p, q, h) =
      let a = attempt doubles now e acks b in
      let bounds = attempt_attempts now e acks b p q in
      (bounds.0, bounds.1, poll_pending-AllAttempts now rest a.acks a.left h)

  poll_acks-same :
      (now : ℕ) (c : Circuit D)
      → ((poll_acks doubles now c).1.pending ≡ c.pending)
        × ((poll_acks doubles now c).1.received_reliable ≡ c.received_reliable)
  unfolding poll_acks
  poll_acks-same now c = (ground arith, ground arith)

  pub poll-IsCircuit : (now : ℕ) (c : Circuit D) → IsCircuit c → IsCircuit (poll doubles now c).1
  unfolding poll
  poll-IsCircuit now c h =
      let p = poll_pending doubles now c.pending c.queued_acks c.bucket in
      let polled = record c { pending = p.entries; queued_acks = p.acks; bucket = p.left } in
      let waits : Waits p.entries = (
        poll_pending-AllAttempts now c.pending c.queued_acks c.bucket h.attempts,
        subst AllDistinct (sym (keys-poll_pending now c.pending c.queued_acks c.bucket))
            h.keys_distinct,
      ) in
      if_both {A = List Bytes × Circuit D} (λ r. IsCircuit r.1)
        (is_nil p.output && not (is_nil p.acks))
        (λ _.
          keeps_received c _ h (subst Waits (sym (poll_acks-same now polled).0) waits)
            (poll_acks-same now polled).1)
        (λ _. keeps_received c _ h waits refl)
