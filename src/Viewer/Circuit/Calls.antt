-- ===== src/Viewer/Circuit/Calls.antt =====
-- Rows of calls of a circuit.
use homeworldz.Common.{ℕ, ◌≢◌, Bool, List, [], ◌∷◌, arith}
use homeworldz.Common.Bytes.{Bytes}
use homeworldz.Viewer.Packet.{undefined, decode_packet}
use homeworldz.Viewer.Circuit.{Doubles, Circuit, send, receive, new_circuit}
use homeworldz.Viewer.Circuit.Poll.{poll}
use homeworldz.Viewer.Circuit.Invariant.{
  IsCircuit, send-IsCircuit, receive-IsCircuit, poll-IsCircuit,
}

-- A call of a circuit, with its arguments.
pub data Call : Type 0 where
  sends : Bytes → Bool → ℕ → Bool → Call
  receives : Bytes → ℕ → Call
  polls : ℕ → Call

-- No datagram of the row is read out of its bounds, after which a program has no meaning.
abbrev pub AllDefined : List Call → Type 0
AllDefined [] = Unit {0}
AllDefined (sends payload is_reliable now is_zero_coded ∷ calls) = AllDefined calls
AllDefined (receives datagram now ∷ calls) = (decode_packet datagram ≢ undefined) × AllDefined calls
AllDefined (polls now ∷ calls) = AllDefined calls

module _ {D : Type 0} (doubles : Doubles D) where
  unfoldable pub handle : Call → Circuit D → Circuit D
  handle (sends payload is_reliable now is_zero_coded) c =
      (send doubles payload is_reliable now is_zero_coded c).1
  handle (receives datagram now) c = (receive datagram now c).1
  handle (polls now) c = (poll doubles now c).1

  -- The circuit after a row of calls.
  unfoldable pub handle_all : List Call → Circuit D → Circuit D
  handle_all [] c = c
  handle_all (call ∷ calls) c = handle_all calls (handle call c)

  handle-IsCircuit : (call : Call) (c : Circuit D) → IsCircuit c → IsCircuit (handle call c)
  unfolding handle
  handle-IsCircuit (sends payload is_reliable now is_zero_coded) c h =
      send-IsCircuit doubles payload is_reliable now is_zero_coded c h
  handle-IsCircuit (receives datagram now) c h = receive-IsCircuit datagram now c h
  handle-IsCircuit (polls now) c h = poll-IsCircuit doubles now c h

  handle_all_from :
      (calls : List Call) (c : Circuit D) → IsCircuit c → IsCircuit (handle_all calls c)
  unfolding handle_all
  handle_all_from [] c h = h
  handle_all_from (call ∷ calls) c h =
      handle_all_from calls (handle call c) (handle-IsCircuit call c h)

  -- After any row of calls on a new circuit, in which no datagram is read out of its bounds: every
  -- packet that waits was sent once to five times, no sequence number waits twice, and the set of
  -- received numbers has none twice and at most 4096.
  pub handle_all-IsCircuit :
      (now : ℕ) (bytes_per_second : D) (idle_timeout : ℕ) (calls : List Call)
      → AllDefined calls
      → IsCircuit (handle_all calls (new_circuit doubles now bytes_per_second idle_timeout))
  unfolding new_circuit
  handle_all-IsCircuit now bytes_per_second idle_timeout calls defined =
      handle_all_from calls (new_circuit doubles now bytes_per_second idle_timeout) (record {
        attempts = tt;
        keys_distinct = tt;
        received_distinct = tt;
        received_few = omega arith;
      })
