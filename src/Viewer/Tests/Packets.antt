-- ===== src/Viewer/Tests/Packets.antt =====
-- Packets on concrete bytes.
use homeworldz.Common.{◌≡◌, refl, some, [], ◌∷◌, arith}
use homeworldz.Common.Bytes.{Bytes}
use homeworldz.Common.Bits.{has_bit, with_bit}
use homeworldz.Viewer.ZeroCode.{zero_encode, zero_decode, zero_decode-zero_encode}
use homeworldz.Viewer.Wire.{read_be_u32, read_all}
use homeworldz.Viewer.Packet.{
  Packet, packet, undefined, encode_packet, decode_payload, decode_acks, decode_header,
  decode_packet,
}
use homeworldz.Viewer.Packet.RoundTrip.{IsPacket, decode_packet-encode_packet}
use homeworldz.Viewer.Tests.{bytes_sent}

zero_decode-zero_encode_example : zero_decode (zero_encode bytes_sent) ≡ some bytes_sent
zero_decode-zero_encode_example = zero_decode-zero_encode bytes_sent (omega arith)

abbrev two_acks : Packet
two_acks = record {
  flags = 0xc0;
  sequence = 5;
  extra_header = 1 ∷ 2 ∷ [];
  payload = bytes_sent;
  acknowledgements = 3 ∷ 4 ∷ [];
}

two_acks-IsPacket : IsPacket two_acks
two_acks-IsPacket = record {
  sequence_fits = omega arith;
  header_fits = omega arith;
  payload_fits = omega arith;
  acks_fit = omega arith;
  acks_words = (omega arith, (omega arith, tt));
  acks_flagged = λ e. cc;
}

decode_packet-encode_packet_example :
    decode_packet (encode_packet two_acks) ≡ packet (record two_acks { flags = with_bit 4 0xc0 })
decode_packet-encode_packet_example = decode_packet-encode_packet two_acks two_acks-IsPacket

-- A header of four more bytes, and an acknowledgement that begins inside it.
abbrev behind : Bytes
behind = 0x10 ∷ 0 ∷ 0 ∷ 0 ∷ 1 ∷ 4 ∷ 0 ∷ 0 ∷ 0 ∷ 0 ∷ 1 ∷ []

decode_packet-behind : decode_packet behind ≡ undefined
unfolding decode_packet decode_header decode_acks decode_payload has_bit read_all read_be_u32
decode_packet-behind = refl
