-- ===== src/Viewer/Tests/Registries.antt =====
-- The registry on concrete datagrams.
use homeworldz.Common.{
  ℕ, ◌≡◌, ◌≢◌, refl, true, false, none, some, List, [], ◌∷◌, arith, replicate, if◌then◌else◌,
}
use homeworldz.Common.Bytes.{Bytes, bytes_eq}
use homeworldz.Common.Bits.{has_bit, with_bit}
use homeworldz.Common.Assoc.{lookup, unless}
use homeworldz.Viewer.Wire.{read_be_u32}
use homeworldz.Viewer.Packet.{
  Packet, undefined, ack_tail, encode_packet, decode_payload, decode_header, decode_packet,
}
use homeworldz.Viewer.Circuit.{Circuit, delivered, emplace, outgoing, consume, send}
use homeworldz.Viewer.Registry.{
  UseCircuitCode, Registry, Authorizer, receive_from, identity, conflicts, empty_registry,
  encode_use_circuit_code,
}
use homeworldz.Viewer.Registry.Invariant.{
  Call, receives, AnyAdmits, handle_all, IsRegistry, handle_all-IsRegistry,
}
use homeworldz.Viewer.Registry.Connect.{IsRequest, connects}
use homeworldz.Viewer.Tests.{whole, full, viewer, viewer-IsReady}

abbrev zero_id : Bytes
zero_id = replicate 16 0

abbrev request : UseCircuitCode
request = record { circuit_code = 77; session_id = zero_id; agent_id = zero_id }

request-IsRequest : IsRequest request
request-IsRequest = record { code_fits = omega arith; session_size = refl; agent_size = refl }

abbrev let_all_in : Authorizer
let_all_in = some (λ x. some true)

abbrev request_bytes : Bytes
request_bytes = 64 ∷ 0 ∷ 0 ∷ 0 ∷ 1 ∷ 0 ∷ 255 ∷ 255 ∷ 0 ∷ 3 ∷ 77 ∷ 0 ∷ 0 ∷ 0 ∷ replicate 32 0

request_defined : decode_packet request_bytes ≢ undefined
unfolding decode_packet decode_header decode_payload has_bit read_be_u32
request_defined e = cc

abbrev let_none_in : Authorizer
let_none_in = some (λ x. some false)

-- Three endpoints ask for one circuit, and the authorizer refuses the second one.
abbrev three_requests : List Call
three_requests =
    receives let_all_in (1 ∷ []) request_bytes 4
    ∷ receives let_none_in (3 ∷ []) request_bytes 5
    ∷ receives let_all_in (2 ∷ []) request_bytes 6
    ∷ []

handle_all-IsRegistry_example :
    IsRegistry (AnyAdmits three_requests) (handle_all whole three_requests (empty_registry none))
handle_all-IsRegistry_example =
    handle_all-IsRegistry whole none three_requests
      (request_defined, (request_defined, (request_defined, tt)))

abbrev asking : Circuit ℕ
asking = record viewer {
  next_sequence = 2;
  pending =
      (
        1,
        record {
          packet_sent = record {
            flags = 64;
            sequence = 1;
            extra_header = [];
            payload = 255 ∷ 255 ∷ 0 ∷ 3 ∷ 77 ∷ 0 ∷ 0 ∷ 0 ∷ replicate 32 0;
            acknowledgements = [];
          };
          sent_at = 3;
          attempts = 1;
        },
      )
      ∷ [];
  last_activity = 3;
  bucket = record full { token_time = 3; tokens = 127954 };
}

viewer_asks :
    send whole (encode_use_circuit_code request) true 3 false viewer ≡ (some request_bytes, asking)
unfolding send outgoing encode_packet ack_tail consume emplace with_bit has_bit
    encode_use_circuit_code
viewer_asks = refl

abbrev empty : Registry ℕ
empty = record { authorizer = let_all_in; circuits = []; replaced = [] }

connects_example :
    ((p : Packet) × ((receive_from whole (1 ∷ []) request_bytes 4 empty).0 ≡ delivered p)
      × (p.payload ≡ encode_use_circuit_code request))
    × ((i : Bytes)
        → identity i (receive_from whole (1 ∷ []) request_bytes 4 empty).1 ≡ (
            if bytes_eq (1 ∷ []) i
            then some request
            else unless (conflicts request) (identity i empty)))
connects_example =
    connects whole empty (1 ∷ []) request_bytes 4 viewer asking request 3 false viewer-IsReady
      request-IsRequest viewer_asks refl (unfold lookup in refl) tt
