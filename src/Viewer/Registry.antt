-- ===== src/Viewer/Registry.antt =====
-- `CircuitRegistry` of region/include/homeworldz/viewer_protocol.h and
-- region/src/viewer_protocol.cpp, and the message that asks for a circuit.
--
-- The order of the association list is the order in which `std::unordered_map` is iterated, which
-- the code leaves to the library.
pub mod Identity
pub mod Keeps
pub mod Invariant
pub mod Connect
use homeworldz.Common.{
  ℕ, ◌+◌, ◌*◌, Bool, true, false, Option, none, some, List, [], ◌∷◌, ◌++◌, ◌||◌, not, map, length,
  ◌==◌, if◌then◌else◌, take, drop,
}
use homeworldz.Common.Bytes.{Bytes, bytes_eq}
use homeworldz.Common.Assoc.{Assoc, lookup, insert, erase_if}
use homeworldz.Common.Bits.{has_bit}
use homeworldz.Viewer.Wire.{read_le_u32, append_le_u32}
use homeworldz.Viewer.Packet.{
  reliable, Packet, Decoded, malformed, undefined, packet, decode_packet,
}
use homeworldz.Viewer.Circuit.{
  Doubles, Circuit, Received, nothing, undefined_read, new_circuit, receive, send, expired,
}
use homeworldz.Viewer.Circuit.Poll.{poll}

pub record UseCircuitCode : Type 0 where
  pub circuit_code : ℕ
  pub session_id : Bytes
  pub agent_id : Bytes

abbrev pub use_circuit_code_id : Bytes
use_circuit_code_id = 0xff ∷ 0xff ∷ 0x00 ∷ 0x03 ∷ []

unfoldable pub encode_use_circuit_code : UseCircuitCode → Bytes
encode_use_circuit_code message =
    use_circuit_code_id
    ++ append_le_u32 message.circuit_code (message.session_id ++ message.agent_id)

unfoldable pub decode_use_circuit_code : Bytes → Option UseCircuitCode
decode_use_circuit_code payload =
    if not (length payload == 40) || not (bytes_eq use_circuit_code_id (take 4 payload))
    then none
    else some (record {
      circuit_code = read_le_u32 payload 4;
      session_id = take 16 (drop 8 payload);
      agent_id = take 16 (drop 24 payload);
    })

pub record Entry (D : Type 0) : Type 0 where
  pub identity : UseCircuitCode
  pub circuit : Circuit D

-- `ReplacedCircuit`, of an endpoint and the identity that it had.
abbrev pub Replaced : Type 0
Replaced = Bytes × UseCircuitCode

-- The authorizer, which may be empty, as it answers in the state that the program is in: `none` of
-- the function is an exception. The region's authorizer reads the sessions of the grid, the arriving
-- transits and the clock, so its answers change between two calls of the registry; one call of the
-- registry asks it at most once.
abbrev pub Authorizer : Type 0
Authorizer = Option (UseCircuitCode → Option Bool)

abbrev answered : Option Bool → Bool
answered none = false
answered (some answer) = answer

abbrev pub authorized : Authorizer → UseCircuitCode → Bool
authorized none requested = false
authorized (some ask) requested = answered (ask requested)

pub record Registry (D : Type 0) : Type 0 where
  pub authorizer : Authorizer
  pub circuits : Assoc (Entry D)
  pub replaced : List Replaced

unfoldable pub conflicts : UseCircuitCode → UseCircuitCode → Bool
conflicts requested held =
    held.circuit_code == requested.circuit_code
    || (bytes_eq held.session_id requested.session_id || bytes_eq held.agent_id requested.agent_id)

abbrev pub with_identity : {D : Type 0} → Option (Entry D) → Option UseCircuitCode
with_identity none = none
with_identity (some entry) = some entry.identity

-- `identity`
unfoldable pub identity : {D : Type 0} → Bytes → Registry D → Option UseCircuitCode
identity endpoint r = with_identity (lookup endpoint r.circuits)

unfoldable pub remove : {D : Type 0} → Bytes → Registry D → Registry D
remove endpoint r = record r { circuits = erase_if (λ key entry. bytes_eq key endpoint) r.circuits }

unfoldable pub take_replaced : {D : Type 0} → Registry D → List Replaced × Registry D
take_replaced r = (r.replaced, record r { replaced = [] })

pub empty_registry : {D : Type 0} → Authorizer → Registry D
empty_registry authorizer = record { authorizer = authorizer; circuits = []; replaced = [] }

-- The entries that a request replaces, in the loop's order.
unfoldable pub replaced_by : {D : Type 0} → UseCircuitCode → Assoc (Entry D) → List Replaced
replaced_by requested [] = []
replaced_by requested ((key, entry) ∷ rest) =
    let others = replaced_by requested rest in
    if conflicts requested entry.identity then (key, entry.identity) ∷ others else others

-- The registry after the loop that erases what a request replaces.
unfoldable pub displace : {D : Type 0} → UseCircuitCode → Registry D → Registry D
displace requested r = record r {
  circuits = erase_if (λ key entry. conflicts requested entry.identity) r.circuits;
  replaced = r.replaced ++ replaced_by requested r.circuits;
}

-- The circuit of an entry receives a datagram.
unfoldable pub receive_at :
    {D : Type 0} → Bytes → Bytes → ℕ → Entry D → Registry D → Received × Registry D
receive_at endpoint datagram now entry r =
    let received = receive datagram now entry.circuit in
    (
      received.0,
      record r { circuits = insert endpoint (record entry { circuit = received.1 }) r.circuits },
    )

-- What `poll` does with an entry that has not expired.
abbrev pub outbound : Bytes → List Bytes → List (Bytes × Bytes)
outbound endpoint datagrams = map (λ datagram. (endpoint, datagram)) datagrams

-- The idle timeout and the rate that a circuit has by default: 30 seconds, in nanoseconds.
abbrev pub default_timeout : ℕ
default_timeout = 30000000000

module _ {D : Type 0} (doubles : Doubles D) where
  unfoldable pub admit_requested :
      Bytes → Bytes → ℕ → Registry D → Option UseCircuitCode → Received × Registry D
  admit_requested endpoint datagram now r none = (nothing, r)
  admit_requested endpoint datagram now r (some requested) =
      if authorized r.authorizer requested
      then receive_at endpoint datagram now
          (record {
            identity = requested;
            circuit = new_circuit doubles now (doubles.of_size 128000) default_timeout;
          })
          (displace requested r)
      else (nothing, r)

  abbrev pub admit_decoded : Bytes → Bytes → ℕ → Registry D → Decoded → Received × Registry D
  admit_decoded endpoint datagram now r malformed = (nothing, r)
  admit_decoded endpoint datagram now r undefined = (undefined_read, r)
  admit_decoded endpoint datagram now r (packet p) =
      if has_bit reliable p.flags
      then admit_requested endpoint datagram now r (decode_use_circuit_code p.payload)
      else (nothing, r)

  abbrev pub receive_found :
      Bytes → Bytes → ℕ → Registry D → Option (Entry D) → Received × Registry D
  receive_found endpoint datagram now r (some entry) = receive_at endpoint datagram now entry r
  receive_found endpoint datagram now r none =
      admit_decoded endpoint datagram now r (decode_packet datagram)

  -- `receive`, `send` and `poll` of the registry.
  unfoldable pub receive_from : Bytes → Bytes → ℕ → Registry D → Received × Registry D
  receive_from endpoint datagram now r =
      receive_found endpoint datagram now r (lookup endpoint r.circuits)

  abbrev pub send_found :
      Bytes → Bytes → Bool → ℕ → Bool → Registry D → Option (Entry D) → Option Bytes × Registry D
  send_found endpoint payload is_reliable now is_zero_coded r none = (none, r)
  send_found endpoint payload is_reliable now is_zero_coded r (some entry) =
      let sent = send doubles payload is_reliable now is_zero_coded entry.circuit in
      (
        sent.0,
        record r { circuits = insert endpoint (record entry { circuit = sent.1 }) r.circuits },
      )

  unfoldable pub send_to : Bytes → Bytes → Bool → ℕ → Bool → Registry D → Option Bytes × Registry D
  send_to endpoint payload is_reliable now is_zero_coded r =
      send_found endpoint payload is_reliable now is_zero_coded r (lookup endpoint r.circuits)

  unfoldable pub poll_entries : ℕ → Assoc (Entry D) → List (Bytes × Bytes) × Assoc (Entry D)
  poll_entries now [] = ([], [])
  poll_entries now ((endpoint, entry) ∷ rest) =
      let others = poll_entries now rest in
      let polled = poll doubles now entry.circuit in
      if expired now entry.circuit then others else (
        outbound endpoint polled.0 ++ others.0,
        (endpoint, record entry { circuit = polled.1 }) ∷ others.1,
      )

  unfoldable pub poll_all : ℕ → Registry D → List (Bytes × Bytes) × Registry D
  poll_all now r =
      let polled = poll_entries now r.circuits in (polled.0, record r { circuits = polled.1 })
