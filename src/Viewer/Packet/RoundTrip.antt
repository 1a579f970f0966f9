-- ===== src/Viewer/Packet/RoundTrip.antt =====
-- What is written for a packet is read as that packet.
use homeworldz.Common.{
  ℕ, ◌+◌, ◌-◌, ◌*◌, ◌/◌, ◌≤◌, ◌<◌, ◌^◌, ◌≡◌, refl, ap, sym, ◌∙◌, true, false, some, List, [], ◌∷◌,
  ◌++◌, not, arith, length, ltb, if◌then◌else◌, length-append, drop-append, take-append,
  get_or-append, append_assoc, Bool-cases, inl, inr,
}
use native.Mathlib.Nat.{add-zero}
use homeworldz.Common.Bytes.{Bytes, bytes_eq}
use homeworldz.Common.Bits.{has_bit, has_bit-with_bit}
use homeworldz.Viewer.ZeroCode.{zero_decode-zero_encode}
use homeworldz.Viewer.Wire.{
  byte_at, read_be_u32, read_le_u32, append_be_u32, append_le_u32, append_all, read_all, be-IsWire,
  le-IsWire, AllWords, read_all-append_all, read_all-shift, length-append_all,
}
use homeworldz.Viewer.Packet.{
  appended_acks, Packet, is_nil, sent_flags, encoded_payload, ack_tail, encode_packet, packet,
  with_payload, decode_payload, decode_acks, decode_header, decode_packet, packet_ack_id,
  encode_packet_ack, decode_packet_ack,
}

-- The message for `count` acknowledgements that are written in `body`.
decode_packet_ack_lem :
    (count : ℕ) (body : Bytes)
    → 0 < count
    → length body ≡ count * 4
    → decode_packet_ack (packet_ack_id ++ count ∷ body) ≡ some (read_all read_le_u32 count body 0)
unfolding decode_packet_ack bytes_eq
decode_packet_ack_lem count body h e =
    ground (arith, read_all-shift le-IsWire count (packet_ack_id ++ count ∷ []) body 0)

-- A message of one to 255 acknowledgements is read back.
pub decode_packet_ack-encode_packet_ack :
    (sequences : List ℕ)
    → AllWords sequences
    → 0 < length sequences
    → length sequences ≤ 255
    → decode_packet_ack (encode_packet_ack sequences) ≡ some sequences
unfolding encode_packet_ack
decode_packet_ack-encode_packet_ack [] words given few = absurd (omega arith)
decode_packet_ack-encode_packet_ack (s ∷ ss) words given few =
    let body = append_all append_le_u32 (s ∷ ss) [] in
    let count = length (s ∷ ss) in
    let short : ltb 255 count ≡ false = ground arith in
    rw short (
      decode_packet_ack_lem count body given
        (omega (arith, length-append_all le-IsWire (s ∷ ss) []))
      ∙ ap some (read_all-append_all le-IsWire (s ∷ ss) [] words))

with_payload_lem :
    (p : Packet) (payload : Bytes)
    → length payload ≤ 65535
    → with_payload p (encoded_payload p.flags payload) ≡ packet (record p { payload = payload })
with_payload_lem p payload h = ground (arith, zero_decode-zero_encode payload h)

-- The payload stands between the header and `payload_end`.
decode_payload_lem :
    (front encoded rest : Bytes) (p : Packet)
    → length front ≡ 6 + length p.extra_header
    → decode_payload (front ++ (encoded ++ rest)) p (length front + length encoded)
      ≡ with_payload p encoded
unfolding decode_payload
decode_payload_lem front encoded rest p h = rw (← h) (
    rw (drop-append front (encoded ++ rest))
      (rw (minus (length front) (length encoded), take-append encoded rest) (ground arith)))
  where
    minus : (a b : ℕ) → a + b - a ≡ b
    minus a b = omega arith

-- The bytes in front of the payload.
abbrev header : ℕ → ℕ → Bytes → Bytes
header flags sequence extra = flags ∷ append_be_u32 sequence (length extra ∷ extra)

abbrev decoded_header : ℕ → ℕ → Bytes → Packet
decoded_header flags sequence extra = record {
  flags = flags;
  sequence = sequence;
  extra_header = extra;
  payload = [];
  acknowledgements = [];
}

decode_header_lem :
    (flags sequence : ℕ) (extra rest : Bytes)
    → sequence < 2 ^ 32
    → let datagram = header flags sequence extra ++ rest in
      let p = decoded_header flags sequence extra in
      let size = length datagram in
      decode_packet datagram ≡ (
        if has_bit appended_acks flags
        then decode_acks datagram p size (byte_at datagram (size - 1))
        else decode_payload datagram p size)
unfolding decode_packet decode_header
decode_header_lem flags sequence extra rest h =
    let tail = length extra ∷ (extra ++ rest) in
    rw
      (be-IsWire.shifts (flags ∷ []) (append_be_u32 sequence tail) 0
        ∙ be-IsWire.reads sequence tail h)
      (rw (take-append extra rest) (ground (arith, length-append extra rest)))

append_all-append :
    (vs : List ℕ) (rest more : Bytes)
    → append_all append_be_u32 vs (rest ++ more) ≡ append_all append_be_u32 vs rest ++ more
unfolding append_all
append_all-append [] rest more = refl
append_all-append (v ∷ vs) rest more = rw (append_all-append vs rest more) refl

decode_acks_at :
    (datagram : Bytes) (p : Packet) (size count start : ℕ)
    → size ≡ start + count * 4 + 1
    → 0 < count
    → 6 ≤ start
    → decode_acks datagram p size count
      ≡ decode_payload datagram
          (record p { acknowledgements = read_all read_be_u32 count datagram start })
          start
unfolding decode_acks
decode_acks_at datagram p size count start e given long =
    let acks_from : size - 1 - count * 4 ≡ start = omega arith in
    let enough : count ≤ (size - 7) / 4 = omega arith in rw acks_from (ground arith)

last_of : (front : Bytes) (count k : ℕ) → k ≡ length front → byte_at (front ++ count ∷ []) k ≡ count
last_of front count k e =
    ap (byte_at (front ++ count ∷ [])) (e ∙ sym (add-zero (length front)))
    ∙ get_or-append front (count ∷ []) 0 0

-- The count at the end and the acknowledgements before it are found from the end.
decode_acks_lem :
    (front : Bytes) (acks : List ℕ) (p : Packet)
    → AllWords acks
    → 0 < length acks
    → 6 ≤ length front
    → let datagram = front ++ append_all append_be_u32 acks (length acks ∷ []) in
      let size = length datagram in
      decode_acks datagram p size (byte_at datagram (size - 1))
      ≡ decode_payload datagram (record p { acknowledgements = acks }) (length front)
decode_acks_lem front acks p words given long =
    let count = length acks in
    let tail = append_all append_be_u32 acks (count ∷ []) in
    let datagram = front ++ tail in
    let body = append_all append_be_u32 acks [] in
    let split : datagram ≡ (front ++ body) ++ count ∷ [] =
      ap (λ t. front ++ t) (append_all-append acks [] (count ∷ []))
      ∙ sym (append_assoc front body (count ∷ [])) in
    let size : length datagram ≡ length front + count * 4 + 1 =
      omega (arith, length-append front tail, length-append_all be-IsWire acks (count ∷ [])) in
    let body_size : length (front ++ body) ≡ length front + count * 4 =
      omega (arith, length-append front body, length-append_all be-IsWire acks []) in
    let last : byte_at datagram (length datagram - 1) ≡ count =
      ap (λ d. byte_at d (length datagram - 1)) split
      ∙ last_of (front ++ body) count (length datagram - 1) (omega arith) in
    let read : read_all read_be_u32 count datagram (length front) ≡ acks =
      ap (read_all read_be_u32 count datagram) (sym (add-zero (length front)))
      ∙ read_all-shift be-IsWire count front tail 0
      ∙ read_all-append_all be-IsWire acks (count ∷ []) words in
    ap (decode_acks datagram p (length datagram)) last
    ∙ decode_acks_at datagram p (length datagram) count (length front) size given long
    ∙ ap (λ a. decode_payload datagram (record p { acknowledgements = a }) (length front)) read

-- A packet that fits its format, its payload short enough for zero-coding and its flag of appended
-- acknowledgements set only with some.
pub record IsPacket (p : Packet) : Type 0 where
  pub sequence_fits : p.sequence < 2 ^ 32
  pub header_fits : length p.extra_header ≤ 255
  pub payload_fits : length p.payload ≤ 65535
  pub acks_fit : length p.acknowledgements ≤ 255
  pub acks_words : AllWords p.acknowledgements
  pub acks_flagged : is_nil p.acknowledgements ≡ true → has_bit appended_acks p.flags ≡ false

encode_packet_lem :
    (p : Packet)
    → IsPacket p
    → encode_packet p
      ≡ header (sent_flags p) p.sequence p.extra_header
        ++ (encoded_payload (sent_flags p) p.payload ++ ack_tail p.acknowledgements)
unfolding encode_packet
encode_packet_lem p h = ground arith

-- The rest of the datagram, from the header on.
decode_rest :
    (flags sequence : ℕ) (extra payload : Bytes) (acks : List ℕ)
    → sequence < 2 ^ 32
    → length payload ≤ 65535
    → AllWords acks
    → has_bit appended_acks flags ≡ not (is_nil acks)
    → decode_packet
        (header flags sequence extra ++ (encoded_payload flags payload ++ ack_tail acks))
      ≡ packet (record (decoded_header flags sequence extra) {
        payload = payload;
        acknowledgements = acks;
      })
unfolding ack_tail
decode_rest flags sequence extra payload [] h k words flagged =
    let front = header flags sequence extra in
    let encoded = encoded_payload flags payload in
    let p = decoded_header flags sequence extra in
    let datagram = front ++ (encoded ++ []) in
    let size : length datagram ≡ length front + length encoded =
      omega (arith, length-append front (encoded ++ []), length-append encoded []) in
    decode_header_lem flags sequence extra (encoded ++ []) h
    ∙ rw flagged (
        ap (decode_payload datagram p) size
        ∙ decode_payload_lem front encoded [] p (omega arith)
        ∙ with_payload_lem p payload k)
decode_rest flags sequence extra payload (a ∷ acks) h k words flagged =
    let front = header flags sequence extra in
    let encoded = encoded_payload flags payload in
    let p = decoded_header flags sequence extra in
    let p' : Packet = record p { acknowledgements = a ∷ acks } in
    let tail = append_all append_be_u32 (a ∷ acks) (length (a ∷ acks) ∷ []) in
    let grouped : (front ++ encoded) ++ tail ≡ front ++ (encoded ++ tail) =
      append_assoc front encoded tail in
    let size : length (front ++ encoded) ≡ length front + length encoded =
      length-append front encoded in
    decode_header_lem flags sequence extra (encoded ++ tail) h
    ∙ rw flagged (
        ap (λ d. decode_acks d p (length d) (byte_at d (length d - 1))) (sym grouped)
        ∙ decode_acks_lem (front ++ encoded) (a ∷ acks) p words (omega arith) (omega (arith, size))
        ∙ ap (λ d. decode_payload d p' (length (front ++ encoded))) grouped
        ∙ ap (decode_payload (front ++ (encoded ++ tail)) p') size
        ∙ decode_payload_lem front encoded tail p' (omega arith)
        ∙ with_payload_lem p' payload k)

sent_flags_lem :
    (p : Packet)
    → IsPacket p
    → has_bit appended_acks (sent_flags p) ≡ not (is_nil p.acknowledgements)
sent_flags_lem p h = elim (Bool-cases (is_nil p.acknowledgements)) [
  | inl q ↦ rw q (h.acks_flagged q)
  | inr q ↦ rw q (has_bit-with_bit appended_acks appended_acks p.flags)
]

-- The datagram for a packet that fits its format is read back as the packet, in every field but the
-- flags, where the flag of appended acknowledgements is set if there are any.
pub decode_packet-encode_packet :
    (p : Packet)
    → IsPacket p
    → decode_packet (encode_packet p) ≡ packet (record p { flags = sent_flags p })
decode_packet-encode_packet p h =
    ap decode_packet (encode_packet_lem p h)
    ∙ decode_rest (sent_flags p) p.sequence p.extra_header p.payload p.acknowledgements
        h.sequence_fits h.payload_fits h.acks_words (sent_flags_lem p h)
