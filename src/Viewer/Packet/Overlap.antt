-- ===== src/Viewer/Packet/Overlap.antt =====
-- Datagrams whose appended acknowledgements reach into the header.
use homeworldz.Common.{◌+◌, ◌-◌, ◌*◌, ◌≤◌, ◌<◌, ◌≡◌, true, [], length, take, drop}
use homeworldz.Common.Bytes.{Bytes}
use homeworldz.Common.Bits.{has_bit}
use homeworldz.Viewer.Wire.{byte_at, read_be_u32}
use homeworldz.Viewer.Packet.{appended_acks, Packet}

-- The header of `extra` more bytes is there, and the acknowledgements that the last byte counts fit
-- between the sixth byte and the last, but begin more than one byte before the end of the header.
pub record Overlaps (d : Bytes) : Type 0 where
  pub flagged : has_bit appended_acks (byte_at d 0) ≡ true
  pub header_there : 6 + byte_at d 5 ≤ length d
  pub some_acks : 0 < byte_at d (length d - 1)
  pub acks_there : 7 + byte_at d (length d - 1) * 4 ≤ length d
  pub not_behind : length d - 1 - byte_at d (length d - 1) * 4 + 1 < 6 + byte_at d 5

module _ (d : Bytes) where
  -- What the header says.
  abbrev header : Packet
  header = record {
    flags = byte_at d 0;
    sequence = read_be_u32 d 1;
    extra_header = take (byte_at d 5) (drop 6 d);
    payload = [];
    acknowledgements = [];
  }
