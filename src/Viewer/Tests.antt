-- ===== src/Viewer/Tests.antt =====
-- Datagrams, and a circuit over whole numbers, for the tests of the transport.
mod Packets
mod Circuits
mod Registries
use Prim.Native.Nat.{min, max}
use homeworldz.Common.{ℕ, ◌+◌, ◌-◌, ◌*◌, ◌/◌, [], ◌∷◌, arith, ltb}
use homeworldz.Common.Bytes.{Bytes}
use homeworldz.Viewer.Circuit.{Doubles, Bucket, Circuit}
use homeworldz.Viewer.Circuit.Acks.{IsReady}

-- Whole numbers in place of the floating-point ones.
abbrev pub whole : Doubles ℕ
whole = record {
  of_size = λ n. n;
  seconds = λ ticks. ticks / 1000000000;
  plus = λ a b. a + b;
  minus = λ a b. a - b;
  times = λ a b. a * b;
  smaller = min;
  larger = max;
  below = ltb;
}

abbrev pub bytes_sent : Bytes
bytes_sent = 7 ∷ 0 ∷ 0 ∷ 8 ∷ []

abbrev pub full : Bucket ℕ
full = record { token_time = 0; rate = 128000; capacity = 128000; tokens = 128000 }

abbrev pub viewer : Circuit ℕ
viewer = record {
  next_sequence = 1;
  pending = [];
  received_reliable = [];
  queued_acks = [];
  last_activity = 0;
  idle_timeout = 30;
  bucket = full;
}

pub viewer-IsReady : IsReady viewer
viewer-IsReady = record { sequence_fits = omega arith; acks_fit = tt }
