-- ===== src/Viewer/Packet.antt =====
-- `Packet`, `encode_packet` and `decode_packet`, and the acknowledgements that are a message of their
-- own, of region/src/viewer_protocol.cpp.
pub mod RoundTrip
pub mod Overlap
use homeworldz.Common.{
  ℕ, zero, suc, ◌+◌, ◌-◌, ◌*◌, ◌/◌, ◌<◌, Bool, true, false, Option, none, some, List, [], ◌∷◌, ◌++◌,
  ◌||◌, not, length, ltb, ◌==◌, if◌then◌else◌, take, drop,
}
use homeworldz.Common.Bytes.{Bytes, bytes_eq}
use homeworldz.Common.Bits.{has_bit, with_bit}
use homeworldz.Viewer.ZeroCode.{zero_encode, zero_decode}
use homeworldz.Viewer.Wire.{
  byte_at, read_be_u32, read_le_u32, append_be_u32, append_le_u32, append_all, read_all,
}

-- The bits of `flag_zero_coded`, `flag_reliable`, `flag_resent` and `flag_appended_acks`.
abbrev pub zero_coded : ℕ
zero_coded = 7

abbrev pub reliable : ℕ
reliable = 6

abbrev pub resent : ℕ
resent = 5

abbrev pub appended_acks : ℕ
appended_acks = 4

pub record Packet : Type 0 where
  pub flags : ℕ
  pub sequence : ℕ
  pub extra_header : Bytes
  pub payload : Bytes
  pub acknowledgements : List ℕ

abbrev pub is_nil {ℓ} : {A : Type ℓ} → List A → Bool
is_nil [] = true
is_nil (x ∷ xs) = false

-- The flags that are sent: acknowledgements set theirs.
abbrev pub sent_flags : Packet → ℕ
sent_flags p = if is_nil p.acknowledgements then p.flags else with_bit appended_acks p.flags

abbrev pub encoded_payload : ℕ → Bytes → Bytes
encoded_payload flags payload = if has_bit zero_coded flags then zero_encode payload else payload

unfoldable pub ack_tail : List ℕ → Bytes
ack_tail acks = if is_nil acks then [] else append_all append_be_u32 acks (length acks ∷ [])

-- Nothing is written for a packet with too long a header or too many acknowledgements.
unfoldable pub encode_packet : Packet → Bytes
encode_packet p =
    if ltb 255 (length p.extra_header) || ltb 255 (length p.acknowledgements)
    then []
    else sent_flags p
      ∷ append_be_u32 p.sequence (
          length p.extra_header
          ∷ (p.extra_header
              ++ (encoded_payload (sent_flags p) p.payload ++ ack_tail p.acknowledgements)))

-- `undefined` is a read outside of the datagram: a span of a length that the datagram does not have.
pub data Decoded : Type 0 where
  malformed undefined : Decoded
  packet : Packet → Decoded

abbrev pub with_decoded : Packet → Option Bytes → Decoded
with_decoded p none = malformed
with_decoded p (some payload) = packet (record p { payload = payload })

abbrev pub with_payload : Packet → Bytes → Decoded
with_payload p encoded =
    if has_bit zero_coded p.flags
    then with_decoded p (zero_decode encoded)
    else packet (record p { payload = encoded })

-- The bytes from the header to `payload_end`. The source subtracts in `std::size_t`: for an end one
-- byte before the payload the count is `std::dynamic_extent`, which is all that is left of the
-- datagram, and for an end that is earlier the count is longer than the datagram.
unfoldable pub decode_payload : Bytes → Packet → ℕ → Decoded
decode_payload datagram p payload_end =
    let start = 6 + length p.extra_header in
    if payload_end + 1 == start
    then with_payload p (drop start datagram)
    else if ltb payload_end start
    then undefined
    else with_payload p (take (payload_end - start) (drop start datagram))

unfoldable pub decode_acks : Bytes → Packet → ℕ → ℕ → Decoded
decode_acks datagram p payload_end count =
    if ltb payload_end 7 || ((count == 0) || ltb ((payload_end - 7) / 4) count)
    then malformed
    else let ack_start = payload_end - 1 - count * 4 in
      decode_payload datagram
        (record p { acknowledgements = read_all read_be_u32 count datagram ack_start }) ack_start

unfoldable pub decode_header : Bytes → ℕ → Decoded
decode_header datagram extra_size =
    if ltb (length datagram) (6 + extra_size)
    then malformed
    else let p : Packet = record {
      flags = byte_at datagram 0;
      sequence = read_be_u32 datagram 1;
      extra_header = take extra_size (drop 6 datagram);
      payload = [];
      acknowledgements = [];
    } in
      let size = length datagram in
      if has_bit appended_acks p.flags
      then decode_acks datagram p size (byte_at datagram (size - 1))
      else decode_payload datagram p size

unfoldable pub decode_packet : Bytes → Decoded
decode_packet datagram =
    if ltb (length datagram) 6 then malformed else decode_header datagram (byte_at datagram 5)

-- The message of acknowledgements.
abbrev pub packet_ack_id : Bytes
packet_ack_id = 0xff ∷ 0xff ∷ 0xff ∷ 0xfb ∷ []

unfoldable pub encode_packet_ack : List ℕ → Bytes
encode_packet_ack sequences =
    if is_nil sequences || ltb 255 (length sequences)
    then []
    else packet_ack_id ++ (length sequences ∷ append_all append_le_u32 sequences [])

unfoldable pub decode_packet_ack : Bytes → Option (List ℕ)
decode_packet_ack payload =
    if ltb (length payload) 9 || not (bytes_eq (take 4 payload) packet_ack_id)
    then none
    else let count = byte_at payload 4 in
      if (count == 0) || not (length payload == 5 + count * 4)
      then none
      else some (read_all read_le_u32 count payload 5)
