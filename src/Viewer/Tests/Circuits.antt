-- ===== src/Viewer/Tests/Circuits.antt =====
-- Two circuits on concrete datagrams.
use homeworldz.Common.{ℕ, ◌+◌, ◌≡◌, ◌≢◌, refl, true, false, some, List, [], ◌∷◌, arith, length, ◌≤◌}
use homeworldz.Common.Bytes.{Bytes}
use homeworldz.Common.Bits.{has_bit, with_bit}
use homeworldz.Viewer.Wire.{read_be_u32, append_all, read_all}
use homeworldz.Viewer.Packet.{
  Packet, packet, undefined, ack_tail, encode_packet, decode_payload, decode_acks, decode_header,
  decode_packet, decode_packet_ack,
}
use homeworldz.Viewer.Circuit.{
  new_circuit, Circuit, delivered, nothing, receive_packet, receive_reliable, remember, erase_acked,
  erase_all, queue_ack, contains, emplace, outgoing, consume, send, receive,
}
use homeworldz.Viewer.Circuit.Invariant.{IsCircuit}
use homeworldz.Viewer.Circuit.Calls.{Call, sends, receives, polls, handle_all, handle_all-IsCircuit}
use homeworldz.Viewer.Circuit.Acks.{keys, IsReady, send-Sends, Sends}
use homeworldz.Viewer.Circuit.Deliveries.{deliveries, deliveries-AllDistinct, AllDistinct}
use homeworldz.Viewer.Circuit.Reliable.{receive_acks, receive_again}
use homeworldz.Viewer.Circuit.Resends.{remaining, poll_times, length-poll_times}
use homeworldz.Viewer.Circuit.Exchange.{Exchange, exchange_delivers}
use homeworldz.Viewer.Tests.{whole, bytes_sent, full, viewer, viewer-IsReady}

-- A circuit with an acknowledgement to send.
abbrev region : Circuit ℕ
region = record viewer { queued_acks = 6 ∷ []; received_reliable = 6 ∷ [] }

region-IsReady : IsReady region
region-IsReady = record { sequence_fits = omega arith; acks_fit = (omega arith, tt) }

send-Sends_example : Sends region bytes_sent true (send whole bytes_sent true 0 true region)
send-Sends_example = send-Sends whole region bytes_sent true true 0 region-IsReady (omega arith)

abbrev there_bytes : Bytes
there_bytes = 64 ∷ 0 ∷ 0 ∷ 0 ∷ 1 ∷ 0 ∷ 7 ∷ 8 ∷ []

abbrev sent_packet : Packet
sent_packet = record {
  flags = 64;
  sequence = 1;
  extra_header = [];
  payload = 7 ∷ 8 ∷ [];
  acknowledgements = [];
}

there_decoded : decode_packet there_bytes ≡ packet sent_packet
unfolding decode_packet decode_header decode_payload has_bit read_be_u32
there_decoded = refl

abbrev there_twice : List (Bytes × ℕ)
there_twice = (there_bytes, 5) ∷ (there_bytes, 9) ∷ []

there_defined : decode_packet there_bytes ≢ undefined
there_defined = rw there_decoded (λ e. cc)

deliveries-AllDistinct_example : AllDistinct (deliveries there_twice region)
deliveries-AllDistinct_example =
    deliveries-AllDistinct there_twice region (there_defined, (there_defined, tt)) (omega arith)

deliveries-there : deliveries there_twice region ≡ 1 ∷ []
unfolding deliveries receive receive_packet receive_reliable remember contains erase_acked erase_all
    decode_packet_ack queue_ack decode_packet decode_header decode_payload has_bit read_be_u32
deliveries-there = refl

receive_again_example :
    ((receive there_bytes 5 region).0 ≡ delivered sent_packet)
    × ((receive there_bytes 9 (receive there_bytes 5 region).1).0 ≡ nothing)
receive_again_example =
    receive_again there_bytes sent_packet region 5 9 there_decoded (unfold has_bit in refl)
      (unfold contains in refl)

abbrev back_bytes : Bytes
back_bytes = 16 ∷ 0 ∷ 0 ∷ 0 ∷ 1 ∷ 0 ∷ 9 ∷ 0 ∷ 0 ∷ 0 ∷ 6 ∷ 0 ∷ 0 ∷ 0 ∷ 1 ∷ 2 ∷ []

abbrev viewer_sent : Circuit ℕ
viewer_sent = record viewer {
  next_sequence = 2;
  pending = (1, record { packet_sent = sent_packet; sent_at = 3; attempts = 1 }) ∷ [];
  last_activity = 3;
  bucket = record full { token_time = 3; tokens = 127992 };
}

abbrev region_replied : Circuit ℕ
region_replied = record region {
  next_sequence = 2;
  received_reliable = 1 ∷ 6 ∷ [];
  queued_acks = [];
  last_activity = 6;
  bucket = record full { token_time = 6; tokens = 127984 };
}

viewer_sends : send whole (7 ∷ 8 ∷ []) true 3 false viewer ≡ (some there_bytes, viewer_sent)
unfolding send outgoing encode_packet ack_tail consume emplace with_bit has_bit
viewer_sends = refl

region_replies :
    send whole (9 ∷ []) false 6 false (receive there_bytes 5 region).1
    ≡ (some back_bytes, region_replied)
unfolding send outgoing encode_packet ack_tail append_all consume emplace with_bit receive
    receive_packet receive_reliable remember contains erase_acked erase_all decode_packet_ack
    queue_ack decode_packet decode_header decode_payload has_bit read_be_u32
region_replies = refl

abbrev exchange : Exchange whole viewer region
exchange = record {
  payload = 7 ∷ 8 ∷ [];
  reply = 9 ∷ [];
  zero_coded_there = false;
  zero_coded_back = false;
  reliable_back = false;
  sent_at = 3;
  received_at = 5;
  replied_at = 6;
  back_at = 8;
  there = there_bytes;
  back = back_bytes;
  a_sent = viewer_sent;
  b_replied = region_replied;
  sends = viewer_sends;
  replies = region_replies;
  payload_short = omega arith;
  reply_short = omega arith;
}

exchange_delivers_example :
    ((p : Packet) × ((receive there_bytes 5 region).0 ≡ delivered p) × (p.payload ≡ 7 ∷ 8 ∷ []))
    × (contains 1 (keys viewer_sent.pending) ≡ true)
    × (contains 1 (keys (receive back_bytes 8 viewer_sent).1.pending) ≡ false)
exchange_delivers_example =
    exchange_delivers whole viewer-IsReady region-IsReady (unfold contains in refl) (omega arith)
      exchange

-- The datagram that brings the acknowledgement, at the circuit that waits for it.
abbrev back_packet : Packet
back_packet = record {
  flags = 16;
  sequence = 1;
  extra_header = [];
  payload = 9 ∷ [];
  acknowledgements = 6 ∷ 1 ∷ [];
}

back_decoded : decode_packet back_bytes ≡ packet back_packet
unfolding decode_packet decode_header decode_acks decode_payload has_bit read_all read_be_u32
back_decoded = refl

receive_acks_example :
    ((k : ℕ)
      → contains k (6 ∷ 1 ∷ []) ≡ true
      → contains k (keys (receive back_bytes 8 viewer_sent).1.pending) ≡ false)
    × (has_bit 6 16 ≡ true → contains 1 (receive back_bytes 8 viewer_sent).1.queued_acks ≡ true)
    × ((acks : List ℕ)
        → decode_packet_ack (9 ∷ []) ≡ some acks
        → (k : ℕ) → contains k acks ≡ true
        → contains k (keys (receive back_bytes 8 viewer_sent).1.pending) ≡ false)
receive_acks_example = receive_acks back_bytes back_packet viewer_sent 8 back_decoded

abbrev two_times : List ℕ
two_times = 1000000000 ∷ 2000000000 ∷ []

length-poll_times_example :
    length (poll_times whole two_times viewer_sent).0
      + remaining (poll_times whole two_times viewer_sent).1.pending
      + length (poll_times whole two_times viewer_sent).1.queued_acks
    ≤ 4
length-poll_times_example = length-poll_times whole two_times viewer_sent

abbrev three_calls : List Call
three_calls = sends (7 ∷ []) true 3 false ∷ receives there_bytes 5 ∷ polls 1000000000 ∷ []

handle_all-IsCircuit_example :
    IsCircuit (handle_all whole three_calls (new_circuit whole 0 128000 30))
handle_all-IsCircuit_example =
    handle_all-IsCircuit whole 0 128000 30 three_calls (there_defined, tt)
