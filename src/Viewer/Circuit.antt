-- ===== src/Viewer/Circuit.antt =====
-- `Circuit` of region/include/homeworldz/viewer_protocol.h and region/src/viewer_protocol.cpp.
--
-- Times are ticks of the steady clock. A difference of two times that would be negative is 0, which
-- takes the same branches: no idle timeout is passed, no resend is due, and no token is added.
-- `std::unordered_map` and `std::unordered_set` are lists: the order of a list is the order of the
-- iteration, which the code leaves to the library.
pub mod Poll
pub mod Acks
pub mod Deliveries
pub mod Reliable
pub mod Resends
pub mod Exchange
pub mod Waiting
pub mod Invariant
pub mod Calls
use Prim.Native.Nat.{min}
use homeworldz.Common.{
  ℕ, suc, ◌+◌, ◌-◌, ◌%◌, ◌^◌, Bool, true, false, Option, none, some, List, [], ◌∷◌, ◌++◌, ◌||◌,
  ◌&&◌, not, length, ltb, leb, ◌==◌, if◌then◌else◌, take, drop,
}
use homeworldz.Common.Bytes.{Bytes}
use homeworldz.Common.Bits.{has_bit, with_bit}
use homeworldz.Viewer.Packet.{
  zero_coded, reliable, resent, Packet, is_nil, encode_packet, Decoded, malformed, undefined,
  packet, decode_packet, encode_packet_ack, decode_packet_ack,
}

-- What is used of `double`: `seconds` is `std::chrono::duration<double>` of a number of ticks,
-- `of_size` a conversion of a size.
pub record Doubles (D : Type 0) : Type 0 where
  pub of_size : ℕ → D
  pub seconds : ℕ → D
  pub plus : D → D → D
  pub minus : D → D → D
  pub times : D → D → D
  pub smaller : D → D → D
  pub larger : D → D → D
  pub below : D → D → Bool

-- The fields of `Circuit` that limit the rate.
pub record Bucket (D : Type 0) : Type 0 where
  pub token_time : ℕ
  pub rate : D
  pub capacity : D
  pub tokens : D

pub record Pending : Type 0 where
  pub packet_sent : Packet
  pub sent_at : ℕ
  pub attempts : ℕ

pub record Circuit (D : Type 0) : Type 0 where
  pub next_sequence : ℕ
  pub pending : List (ℕ × Pending)
  pub received_reliable : List ℕ
  pub queued_acks : List ℕ
  pub last_activity : ℕ
  pub idle_timeout : ℕ
  pub bucket : Bucket D

unfoldable pub contains : ℕ → List ℕ → Bool
contains n [] = false
contains n (m ∷ ms) = m == n || contains n ms

-- `pending_.emplace`: an entry that is there stays.
unfoldable pub emplace : ℕ → Pending → List (ℕ × Pending) → List (ℕ × Pending)
emplace k e [] = (k, e) ∷ []
emplace k e ((j, f) ∷ rest) = (j, f) ∷ (if j == k then rest else emplace k e rest)

-- `pending_.erase`
unfoldable pub erase : ℕ → List (ℕ × Pending) → List (ℕ × Pending)
erase k [] = []
erase k ((j, f) ∷ rest) = let others = erase k rest in if j == k then others else (j, f) ∷ others

unfoldable pub erase_all : List ℕ → List (ℕ × Pending) → List (ℕ × Pending)
erase_all [] pending = pending
erase_all (k ∷ ks) pending = erase_all ks (erase k pending)

-- `take_acks`: what is taken of the queue, and what stays.
abbrev pub taken_acks : List ℕ → List ℕ
taken_acks queue = take (min (length queue) 255) queue

abbrev pub kept_acks : List ℕ → List ℕ
kept_acks queue = drop (min (length queue) 255) queue

abbrev pub bit_if : Bool → ℕ → ℕ → ℕ
bit_if test index flags = if test then with_bit index flags else flags

-- The packet that `send` makes.
unfoldable pub outgoing : {D : Type 0} → Circuit D → Bytes → Bool → Bool → Packet
outgoing c payload is_reliable is_zero_coded = record {
  flags = bit_if is_zero_coded zero_coded (bit_if is_reliable reliable 0);
  sequence = c.next_sequence;
  extra_header = [];
  payload = payload;
  acknowledgements = taken_acks c.queued_acks;
}

-- What `receive` returns: nothing, a packet, or the read outside of the datagram.
pub data Received : Type 0 where
  nothing undefined_read : Received
  delivered : Packet → Received

-- `decode_packet_ack` of the payload, and the loop over its result.
abbrev pub erase_message : Option (List ℕ) → List (ℕ × Pending) → List (ℕ × Pending)
erase_message none pending = pending
erase_message (some acks) pending = erase_all acks pending

unfoldable pub erase_acked : Packet → List (ℕ × Pending) → List (ℕ × Pending)
erase_acked p pending =
    erase_message (decode_packet_ack p.payload) (erase_all p.acknowledgements pending)

unfoldable pub queue_ack : ℕ → List ℕ → List ℕ
queue_ack sequence queue = if contains sequence queue then queue else queue ++ sequence ∷ []

-- The set with one number more, which is cleared when it has grown too large.
unfoldable pub remember : ℕ → List ℕ → List ℕ
remember sequence received = if ltb 4096 (suc (length received)) then [] else sequence ∷ received

unfoldable pub receive_reliable : {D : Type 0} → Packet → Circuit D → Received × Circuit D
receive_reliable p c =
    let queued = record c { queued_acks = queue_ack p.sequence c.queued_acks } in
    if contains p.sequence c.received_reliable then (nothing, queued) else (
      delivered p,
      record queued { received_reliable = remember p.sequence c.received_reliable },
    )

unfoldable pub receive_packet : {D : Type 0} → Packet → ℕ → Circuit D → Received × Circuit D
receive_packet p now c =
    let acked = record c { last_activity = now; pending = erase_acked p c.pending } in
    if has_bit reliable p.flags then receive_reliable p acked else (delivered p, acked)

-- After a read out of bounds a program has no meaning: that the circuit stays stands for none, and
-- the theorems on rows of calls are of rows without such a read.
abbrev pub receive_decoded : {D : Type 0} → Decoded → ℕ → Circuit D → Received × Circuit D
receive_decoded malformed now c = (nothing, c)
receive_decoded undefined now c = (undefined_read, c)
receive_decoded (packet p) now c = receive_packet p now c

unfoldable pub receive : {D : Type 0} → Bytes → ℕ → Circuit D → Received × Circuit D
receive datagram now c = receive_decoded (decode_packet datagram) now c

unfoldable pub expired : {D : Type 0} → ℕ → Circuit D → Bool
expired now c = ltb c.idle_timeout (now - c.last_activity)

-- The packet is dropped, and its acknowledgements return to the front of the queue.
abbrev pub refused : {D : Type 0} → Packet → Circuit D → Option Bytes × Circuit D
refused p c = (
  none,
  record c {
    next_sequence = (c.next_sequence + 1) % 2 ^ 32;
    queued_acks = p.acknowledgements ++ kept_acks c.queued_acks;
  },
)

abbrev pub accepted : {D : Type 0} → Packet → Bool → ℕ → Circuit D → Option Bytes × Circuit D
accepted p is_reliable now c = (
  some (encode_packet p),
  record c {
    next_sequence = (c.next_sequence + 1) % 2 ^ 32;
    queued_acks = kept_acks c.queued_acks;
    pending =
        if is_reliable
        then emplace p.sequence (record { packet_sent = p; sent_at = now; attempts = 1 }) c.pending
        else c.pending;
    last_activity = now;
  },
)

module _ {D : Type 0} (doubles : Doubles D) where
  unfoldable pub new_circuit : ℕ → D → ℕ → Circuit D
  new_circuit now bytes_per_second idle_timeout = record {
    next_sequence = 1;
    pending = [];
    received_reliable = [];
    queued_acks = [];
    last_activity = now;
    idle_timeout = idle_timeout;
    bucket = record {
      token_time = now;
      rate = doubles.larger (doubles.of_size 1) bytes_per_second;
      capacity = doubles.larger (doubles.of_size 1200) bytes_per_second;
      tokens = doubles.larger (doubles.of_size 1200) bytes_per_second;
    };
  }

  unfoldable pub consume : ℕ → ℕ → Bucket D → Bool × Bucket D
  consume bytes now b =
      let elapsed = doubles.larger (doubles.of_size 0) (doubles.seconds (now - b.token_time)) in
      let tokens =
        doubles.smaller b.capacity (doubles.plus b.tokens (doubles.times elapsed b.rate)) in
      if doubles.below tokens (doubles.of_size bytes)
      then (false, record b { token_time = now; tokens = tokens })
      else (
        true,
        record b { token_time = now; tokens = doubles.minus tokens (doubles.of_size bytes) },
      )

  unfoldable pub send : Bytes → Bool → ℕ → Bool → Circuit D → Option Bytes × Circuit D
  send payload is_reliable now is_zero_coded c =
      let p = outgoing c payload is_reliable is_zero_coded in
      let paid = consume (length (encode_packet p)) now c.bucket in
      if is_nil (encode_packet p)
      then refused p c
      else (if paid.0
          then accepted p is_reliable now (record c { bucket = paid.1 })
          else refused p (record c { bucket = paid.1 }))
