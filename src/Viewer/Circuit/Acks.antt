-- ===== src/Viewer/Circuit/Acks.antt =====
-- What `send` of a circuit puts into a datagram, and what it does with the acknowledgements.
use Prim.Native.Nat.{min}
use homeworldz.Common.{
  ℕ, zero, suc, ◌≤◌, ◌<◌, ◌^◌, ◌≡◌, refl, ◌∙◌, Bool, true, false, Option, none, some, List, [], ◌∷◌,
  ◌++◌, arith, length, ◌==◌, if◌then◌else◌, if_both, take, length-take, take-append-drop,
  length-drop, ◌-◌,
}
use homeworldz.Common.Bytes.{Bytes}
use homeworldz.Common.Bits.{has_bit, with_bit, has_bit-with_bit}
use homeworldz.Viewer.Wire.{AllWords}
use homeworldz.Viewer.Packet.{
  zero_coded, reliable, appended_acks, Packet, is_nil, sent_flags, encode_packet, packet,
  decode_packet,
}
use homeworldz.Viewer.Packet.RoundTrip.{IsPacket, decode_packet-encode_packet}
use homeworldz.Viewer.Circuit.{
  Doubles, Bucket, Pending, Circuit, contains, emplace, erase, taken_acks, kept_acks, bit_if,
  outgoing, consume, refused, accepted, send,
}

AllWords-take : (n : ℕ) (xs : List ℕ) → AllWords xs → AllWords (take n xs)
AllWords-take zero xs h = tt
AllWords-take (suc n) [] h = tt
AllWords-take (suc n) (x ∷ xs) (h, hs) = (h, AllWords-take n xs hs)

pub taken-append-kept : (queue : List ℕ) → taken_acks queue ++ kept_acks queue ≡ queue
taken-append-kept queue = take-append-drop (min (length queue) 255) queue

length-kept_acks : (queue : List ℕ) → length (kept_acks queue) ≡ length queue - 255
length-kept_acks queue = omega (arith, length-drop (min (length queue) 255) queue)

-- The sequence numbers that wait for an acknowledgement.
abbrev pub keys : List (ℕ × Pending) → List ℕ
keys [] = []
keys ((k, e) ∷ rest) = k ∷ keys rest

pub contains-emplace :
    (k : ℕ) (e : Pending) (pending : List (ℕ × Pending))
    → contains k (keys (emplace k e pending)) ≡ true
unfolding contains emplace
contains-emplace k e [] = ground arith
contains-emplace k e ((j, f) ∷ rest) = ground (arith, contains-emplace k e rest)

contains-emplace_if :
    (test : Bool) (k : ℕ) (e : Pending) (pending : List (ℕ × Pending))
    → test ≡ true
    → contains k (keys (if test then emplace k e pending else pending)) ≡ true
contains-emplace_if true k e pending h = contains-emplace k e pending
contains-emplace_if false k e pending h = cc

pub contains-erase :
    (k j : ℕ) (pending : List (ℕ × Pending))
    → contains k (keys (erase j pending)) ≡ (if j == k then false else contains k (keys pending))
unfolding contains erase
contains-erase k j [] = ground arith
contains-erase k j ((i, f) ∷ rest) = ground (arith, contains-erase k j rest)

-- A circuit whose numbers are words.
pub record IsReady {D : Type 0} (c : Circuit D) : Type 0 where
  pub sequence_fits : c.next_sequence < 2 ^ 32
  pub acks_fit : AllWords c.queued_acks

flags_no_acks :
    (is_reliable is_zero_coded : Bool)
    → has_bit appended_acks (bit_if is_zero_coded zero_coded (bit_if is_reliable reliable 0))
      ≡ false
unfolding has_bit with_bit
flags_no_acks true true = refl
flags_no_acks true false = refl
flags_no_acks false true = refl
flags_no_acks false false = refl

flags_reliable :
    (is_reliable is_zero_coded : Bool)
    → has_bit reliable (bit_if is_zero_coded zero_coded (bit_if is_reliable reliable 0))
      ≡ is_reliable
unfolding has_bit with_bit
flags_reliable true true = refl
flags_reliable true false = refl
flags_reliable false true = refl
flags_reliable false false = refl

has_bit-sent_flags : (p : Packet) → has_bit reliable (sent_flags p) ≡ has_bit reliable p.flags
has_bit-sent_flags p = ground (arith, has_bit-with_bit reliable appended_acks p.flags)

module _ {D : Type 0} (c : Circuit D) (payload : Bytes) where
  pub outgoing-IsPacket :
      (is_reliable is_zero_coded : Bool)
      → IsReady c
      → length payload ≤ 65535
      → IsPacket (outgoing c payload is_reliable is_zero_coded)
  unfolding outgoing
  outgoing-IsPacket is_reliable is_zero_coded ready short = record {
    sequence_fits = ready.sequence_fits;
    header_fits = omega arith;
    payload_fits = short;
    acks_fit = omega (arith, length-take (min (length c.queued_acks) 255) c.queued_acks);
    acks_words = AllWords-take (min (length c.queued_acks) 255) c.queued_acks ready.acks_fit;
    acks_flagged = λ _. flags_no_acks is_reliable is_zero_coded;
  }

  pub encode_packet-outgoing :
      (is_reliable is_zero_coded : Bool)
      → is_nil (encode_packet (outgoing c payload is_reliable is_zero_coded)) ≡ false
  unfolding encode_packet outgoing
  encode_packet-outgoing is_reliable is_zero_coded =
      ground (arith, length-take (min (length c.queued_acks) 255) c.queued_acks)

-- What a call of `send` has done to the circuit, and what the other end reads of the datagram.
abbrev pub Sends : {D : Type 0} → Circuit D → Bytes → Bool → Option Bytes × Circuit D → Type 0
Sends c payload is_reliable (none, after) =
    (after.queued_acks ≡ c.queued_acks) × (after.pending ≡ c.pending)
Sends c payload is_reliable (some datagram, after) =
    (p : Packet) × (decode_packet datagram ≡ packet p)
    × (p.payload ≡ payload)
    × (p.sequence ≡ c.next_sequence)
    × (has_bit reliable p.flags ≡ is_reliable)
    × (p.acknowledgements ++ after.queued_acks ≡ c.queued_acks)
    × (length after.queued_acks ≡ length c.queued_acks - 255)
    × (is_reliable ≡ true → contains p.sequence (keys after.pending) ≡ true)

module _ {D : Type 0} (c : Circuit D) (payload : Bytes) where
  accepted-Sends :
      (is_reliable is_zero_coded : Bool) (now : ℕ) (b : Bucket D)
      → IsReady c
      → length payload ≤ 65535
      → Sends c payload is_reliable (
          accepted
            (outgoing c payload is_reliable is_zero_coded)
            is_reliable
            now
            (record c { bucket = b }))
  accepted-Sends is_reliable is_zero_coded now b ready short =
      let p = outgoing c payload is_reliable is_zero_coded in
      (
        record p { flags = sent_flags p },
        decode_packet-encode_packet p
            (outgoing-IsPacket c payload is_reliable is_zero_coded ready short),
        unfold outgoing in refl,
        unfold outgoing in refl,
        has_bit-sent_flags p ∙ (unfold outgoing in flags_reliable is_reliable is_zero_coded),
        unfold outgoing in taken-append-kept c.queued_acks,
        length-kept_acks c.queued_acks,
        contains-emplace_if is_reliable p.sequence
            (record { packet_sent = p; sent_at = now; attempts = 1 }) c.pending,
      )

  refused-Sends :
      (is_reliable is_zero_coded : Bool) (b : Bucket D)
      → Sends c payload is_reliable
          (refused (outgoing c payload is_reliable is_zero_coded) (record c { bucket = b }))
  unfolding outgoing
  refused-Sends is_reliable is_zero_coded b = (taken-append-kept c.queued_acks, refl)

module _ {D : Type 0} (doubles : Doubles D) (c : Circuit D) (payload : Bytes) where
  -- `send` of a payload of at most 65535 bytes either returns nothing, and then the queue of
  -- acknowledgements and the packets that wait are what they were; or it returns a datagram that
  -- is read as a packet with the payload, the next sequence number and the reliable flag that was
  -- asked for, whose acknowledgements, at most 255, in front of those that are left are the queue
  -- as it was, and a reliable packet waits to be acknowledged. The next sequence number and the
  -- queued ones have to be words.
  pub send-Sends :
      (is_reliable is_zero_coded : Bool) (now : ℕ)
      → IsReady c
      → length payload ≤ 65535
      → Sends c payload is_reliable (send doubles payload is_reliable now is_zero_coded c)
  unfolding send
  send-Sends is_reliable is_zero_coded now ready short =
      let p = outgoing c payload is_reliable is_zero_coded in
      let paid = consume doubles (length (encode_packet p)) now c.bucket in
      if_both (Sends c payload is_reliable) (is_nil (encode_packet p))
        (λ _. refused-Sends c payload is_reliable is_zero_coded c.bucket)
        (λ _.
          if_both (Sends c payload is_reliable) paid.0
            (λ _. accepted-Sends c payload is_reliable is_zero_coded now paid.1 ready short)
            (λ _. refused-Sends c payload is_reliable is_zero_coded paid.1))
