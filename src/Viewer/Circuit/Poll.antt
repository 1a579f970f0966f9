-- ===== src/Viewer/Circuit/Poll.antt =====
-- `Circuit::poll` of region/src/viewer_protocol.cpp: the resends, and the acknowledgements alone.
use homeworldz.Common.{
  ℕ, suc, ◌+◌, ◌-◌, ◌%◌, ◌^◌, List, [], ◌∷◌, ◌++◌, ◌||◌, ◌&&◌, not, length, ltb, leb, if◌then◌else◌,
}
use homeworldz.Common.Bytes.{Bytes}
use homeworldz.Common.Bits.{with_bit}
use homeworldz.Viewer.Packet.{resent, Packet, is_nil, encode_packet, encode_packet_ack}
use homeworldz.Viewer.Circuit.{Doubles, Bucket, Pending, Circuit, taken_acks, kept_acks, consume}

-- What an entry of `pending_` does in `poll`: the datagram that is sent, and what it leaves.
pub record Attempt (D : Type 0) : Type 0 where
  pub datagrams : List Bytes
  pub entry : Pending
  pub acks : List ℕ
  pub left : Bucket D

-- What the loop of `poll` over `pending_` leaves.
pub record Polled (D : Type 0) : Type 0 where
  pub output : List Bytes
  pub entries : List (ℕ × Pending)
  pub acks : List ℕ
  pub left : Bucket D

-- Half a second, in ticks of a nanosecond.
abbrev pub resend_after : ℕ
resend_after = 500000000

-- The packet of an entry, as it is sent again.
unfoldable pub again : Pending → List ℕ → Packet
again e acks = record e.packet_sent {
  flags = with_bit resent e.packet_sent.flags;
  acknowledgements = taken_acks acks;
}

-- The packet that brings nothing but acknowledgements.
unfoldable pub ack_packet : {D : Type 0} → Circuit D → Packet
ack_packet c = record {
  flags = 0;
  sequence = c.next_sequence;
  extra_header = [];
  payload = encode_packet_ack (taken_acks c.queued_acks);
  acknowledgements = [];
}

module _ {D : Type 0} (doubles : Doubles D) where
  unfoldable pub attempt : ℕ → Pending → List ℕ → Bucket D → Attempt D
  attempt now e acks b =
      let paid = consume doubles (length (encode_packet (again e acks))) now b in
      if ltb (now - e.sent_at) resend_after || leb 5 e.attempts
      then record { datagrams = []; entry = e; acks = acks; left = b }
      else (if paid.0
          then record {
            datagrams = encode_packet (again e acks) ∷ [];
            entry = record e { sent_at = now; attempts = suc e.attempts };
            acks = kept_acks acks;
            left = paid.1;
          }
          else record {
            datagrams = [];
            entry = e;
            acks = taken_acks acks ++ kept_acks acks;
            left = paid.1;
          })

  unfoldable pub poll_pending : ℕ → List (ℕ × Pending) → List ℕ → Bucket D → Polled D
  poll_pending now [] acks b = record { output = []; entries = []; acks = acks; left = b }
  poll_pending now ((k, e) ∷ rest) acks b =
      let a = attempt now e acks b in
      let others = poll_pending now rest a.acks a.left in
      record others {
        output = a.datagrams ++ others.output;
        entries = (k, a.entry) ∷ others.entries;
      }

  unfoldable pub poll_acks : ℕ → Circuit D → List Bytes × Circuit D
  poll_acks now c =
      let paid = consume doubles (length (encode_packet (ack_packet c))) now c.bucket in
      let sent = record c {
        next_sequence = (c.next_sequence + 1) % 2 ^ 32;
        queued_acks = kept_acks c.queued_acks;
        bucket = paid.1;
      } in
      if paid.0
      then (encode_packet (ack_packet c) ∷ [], sent)
      else ([], record sent { queued_acks = taken_acks c.queued_acks ++ kept_acks c.queued_acks })

  unfoldable pub poll : ℕ → Circuit D → List Bytes × Circuit D
  poll now c =
      let p = poll_pending now c.pending c.queued_acks c.bucket in
      let polled = record c { pending = p.entries; queued_acks = p.acks; bucket = p.left } in
      if is_nil p.output && not (is_nil p.acks) then poll_acks now polled else (p.output, polled)
