-- ===== src/Viewer/Circuit/Exchange.antt =====
-- Two circuits: a reliable packet goes one way and its acknowledgement the other.
use mathlib.Core.Path.{subst}
use homeworldz.Common.{
  ℕ, suc, ◌≤◌, ◌<◌, ◌^◌, ◌≡◌, refl, ap, sym, ◌∙◌, Bool, true, false, some, List, [], ◌∷◌, ◌++◌,
  arith, length, if_both, append-nil, length-append,
}
use homeworldz.Common.Bytes.{Bytes}
use homeworldz.Common.Bits.{has_bit}
use homeworldz.Viewer.Wire.{AllWords}
use homeworldz.Viewer.Packet.{reliable, Packet, packet, decode_packet}
use homeworldz.Viewer.Circuit.{
  Doubles, Circuit, contains, delivered, queue_ack, receive_reliable, receive_packet, receive, send,
}
use homeworldz.Viewer.Circuit.Acks.{keys, IsReady, Sends, send-Sends}
use homeworldz.Viewer.Circuit.Reliable.{receive_acks, receive_again, receive_packet_queue}

-- The two ends of a connection, and the two datagrams that pass.
pub record Exchange {D : Type 0} (doubles : Doubles D) (a b : Circuit D) : Type 0 where
  pub payload : Bytes
  pub reply : Bytes
  pub zero_coded_there : Bool
  pub zero_coded_back : Bool
  pub reliable_back : Bool
  pub sent_at : ℕ
  pub received_at : ℕ
  pub replied_at : ℕ
  pub back_at : ℕ
  pub there : Bytes
  pub back : Bytes
  pub a_sent : Circuit D
  pub b_replied : Circuit D
  pub sends : send doubles payload true sent_at zero_coded_there a ≡ (some there, a_sent)
  pub replies :
      send doubles reply reliable_back replied_at zero_coded_back (receive there received_at b).1
      ≡ (some back, b_replied)
  pub payload_short : length payload ≤ 65535
  pub reply_short : length reply ≤ 65535

AllWords-queue_ack :
    (n : ℕ) (queue : List ℕ) → n < 2 ^ 32 → AllWords queue → AllWords (queue_ack n queue)
unfolding queue_ack
AllWords-queue_ack n queue h all =
    if_both AllWords (contains n queue) (λ _. all) (λ _. last queue all)
  where
    last : (queue : List ℕ) → AllWords queue → AllWords (queue ++ n ∷ [])
    last [] all = (h, tt)
    last (m ∷ ms) (first, all) = (first, last ms all)

length-queue_ack : (n : ℕ) (queue : List ℕ) → length (queue_ack n queue) ≤ suc (length queue)
unfolding queue_ack
length-queue_ack n queue = ground (arith, length-append queue (n ∷ []))

none_kept :
    (taken kept : List ℕ) {queue : List ℕ} → taken ++ kept ≡ queue → length kept ≡ 0 → taken ≡ queue
none_kept taken [] e none_left = sym (append-nil taken) ∙ e
none_kept taken (k ∷ ks) e none_left = absurd (omega arith)

receive_packet_sequence :
    {D : Type 0} (p : Packet) (now : ℕ) (c : Circuit D)
    → (receive_packet p now c).1.next_sequence ≡ c.next_sequence
unfolding receive_packet receive_reliable
receive_packet_sequence p now c = ground arith

module _ {D : Type 0} (c : Circuit D) (datagram : Bytes) (now : ℕ) (p : Packet) where
  receive-IsReady :
      decode_packet datagram ≡ packet p
      → has_bit reliable p.flags ≡ true
      → p.sequence < 2 ^ 32
      → IsReady c
      → IsReady (receive datagram now c).1
  unfolding receive
  receive-IsReady e flagged word ready = rw e (record {
    sequence_fits = omega (arith, receive_packet_sequence p now c, ready.sequence_fits);
    acks_fit =
        subst AllWords (sym (receive_packet_queue p now c flagged))
          (AllWords-queue_ack p.sequence c.queued_acks word ready.acks_fit);
  })

  length-receive :
      decode_packet datagram ≡ packet p
      → has_bit reliable p.flags ≡ true
      → length (receive datagram now c).1.queued_acks ≤ suc (length c.queued_acks)
  unfolding receive
  length-receive e flagged = rw e (
      omega (
        arith,
        ap length (receive_packet_queue p now c flagged),
        length-queue_ack p.sequence c.queued_acks,
      ))

-- A number in a queue of at most 255 is acknowledged by what is sent next.
acknowledged :
    {D : Type 0} (n : ℕ) (payload : Bytes) (is_reliable : Bool) (sender sent c : Circuit D)
    (datagram : Bytes) (now : ℕ)
    → Sends sender payload is_reliable (some datagram, sent)
    → contains n sender.queued_acks ≡ true
    → length sender.queued_acks ≤ 255
    → contains n (keys (receive datagram now c).1.pending) ≡ false
acknowledged n payload is_reliable sender sent c datagram now (p, decoded, _, _, _, split, size, _)
      there few =
    (receive_acks datagram p c now decoded).0 n (
      ap (contains n)
        (none_kept p.acknowledgements sent.queued_acks split (omega (arith, size, few)))
      ∙ there)

module _ {D : Type 0} {a b : Circuit D} (doubles : Doubles D) where
  -- A reliable packet of `a` whose sequence number `b` has not received, while fewer than 255
  -- acknowledgements are queued at `b`, is delivered with its payload to `b` by the datagram that
  -- `send` returns, and `a` keeps it waiting; after the datagram of the next packet, of any kind,
  -- that `b` sends, it waits no longer. The numbers of both have to be words and the payloads at
  -- most 65535 bytes long.
  pub exchange_delivers :
      IsReady a
      → IsReady b
      → contains a.next_sequence b.received_reliable ≡ false
      → length b.queued_acks < 255
      → (x : Exchange doubles a b)
      → ((p : Packet) × ((receive x.there x.received_at b).0 ≡ delivered p)
          × (p.payload ≡ x.payload))
        × (contains a.next_sequence (keys x.a_sent.pending) ≡ true)
        × (contains a.next_sequence (keys (receive x.back x.back_at x.a_sent).1.pending) ≡ false)
  exchange_delivers ready_a ready_b fresh room x = sent (
      subst (Sends a x.payload true) x.sends
        (send-Sends doubles a x.payload true x.zero_coded_there x.sent_at ready_a x.payload_short))
    where
      sent :
          Sends a x.payload true (some x.there, x.a_sent)
          → ((p : Packet) × ((receive x.there x.received_at b).0 ≡ delivered p)
              × (p.payload ≡ x.payload))
            × (contains a.next_sequence (keys x.a_sent.pending) ≡ true)
            × (contains a.next_sequence (keys (receive x.back x.back_at x.a_sent).1.pending)
                ≡ false)
      sent (p, decoded, same, number, flagged, split, size, waits) =
          let received = (receive x.there x.received_at b).1 in
          let replied = subst (Sends received x.reply x.reliable_back) x.replies (
            send-Sends doubles received x.reply x.reliable_back x.zero_coded_back x.replied_at
              (receive-IsReady b x.there x.received_at p decoded flagged
                (omega (arith, number, ready_a.sequence_fits)) ready_b)
              x.reply_short) in
          (
            (
              p,
              (receive_again x.there p b x.received_at x.received_at decoded flagged
                  (ap (λ n. contains n b.received_reliable) number ∙ fresh)).0,
              same,
            ),
            ap (λ n. contains n (keys x.a_sent.pending)) (sym number) ∙ waits refl,
            acknowledged a.next_sequence x.reply x.reliable_back received x.b_replied x.a_sent
                x.back x.back_at replied
                (ap (λ n. contains n received.queued_acks) (sym number)
                  ∙ (receive_acks x.there p b x.received_at decoded).1 flagged)
                (omega (arith, room, length-receive b x.there x.received_at p decoded flagged)),
          )
