-- ===== src/Viewer/Registry/Connect.antt =====
-- How a viewer gets a circuit: the message that asks for one, from one end to the other.
use mathlib.Core.Path.{subst}
use homeworldz.Common.{
  ℕ, ◌≤◌, ◌<◌, ◌^◌, ◌≡◌, refl, ap, sym, ◌∙◌, Bool, true, none, some, [], ◌++◌, arith, length,
  if◌then◌else◌, take, drop, length-append, append-nil, take-append, drop-append,
}
use homeworldz.Common.Bytes.{Bytes, bytes_eq}
use homeworldz.Common.Bits.{has_bit}
use homeworldz.Common.Assoc.{IsMap, lookup, unless}
use homeworldz.Viewer.Wire.{read_le_u32, append_le_u32, le-IsWire}
use homeworldz.Viewer.Packet.{Packet, reliable, packet, decode_packet}
use homeworldz.Viewer.Circuit.Reliable.{receive_again}
use homeworldz.Viewer.Circuit.{Doubles, Circuit, delivered, contains, send, new_circuit}
use homeworldz.Viewer.Circuit.Acks.{IsReady, Sends, send-Sends}
use homeworldz.Viewer.Registry.{
  UseCircuitCode, use_circuit_code_id, encode_use_circuit_code, decode_use_circuit_code, Entry,
  authorized, Registry, conflicts, identity, displace, receive_at, default_timeout, admit_requested,
  receive_from,
}
use homeworldz.Viewer.Registry.Identity.{admit_identity}

-- A circuit code is a word, and the identifiers are 16 bytes.
pub record IsRequest (x : UseCircuitCode) : Type 0 where
  pub code_fits : x.circuit_code < 2 ^ 32
  pub session_size : length x.session_id ≡ 16
  pub agent_size : length x.agent_id ≡ 16

take_sized : (n : ℕ) (xs ys : Bytes) → length xs ≡ n → take n (xs ++ ys) ≡ xs
take_sized n xs ys e = ap (λ k. take k (xs ++ ys)) (sym e) ∙ take-append xs ys

drop_sized : (n : ℕ) (xs ys : Bytes) → length xs ≡ n → drop n (xs ++ ys) ≡ ys
drop_sized n xs ys e = ap (λ k. drop k (xs ++ ys)) (sym e) ∙ drop-append xs ys

take_all : (n : ℕ) (xs : Bytes) → length xs ≡ n → take n xs ≡ xs
take_all n xs e = ap (take n) (sym (append-nil xs)) ∙ take_sized n xs [] e

-- The three fields, from a message of the right length.
decode_fields :
    (code : ℕ) (session agent : Bytes)
    → length session ≡ 16
    → length agent ≡ 16
    → decode_use_circuit_code (use_circuit_code_id ++ append_le_u32 code (session ++ agent))
      ≡ some (record {
        circuit_code = read_le_u32 (use_circuit_code_id ++ append_le_u32 code (session ++ agent)) 4;
        session_id = take 16 (session ++ agent);
        agent_id = take 16 (drop 16 (session ++ agent));
      })
unfolding decode_use_circuit_code bytes_eq
decode_fields code session agent h k = ground (arith, h, k, length-append session agent)

-- The message that asks for a circuit is read back, if the circuit code is a word and the
-- identifiers have 16 bytes.
pub decode_use_circuit_code-encode_use_circuit_code :
    (x : UseCircuitCode)
    → IsRequest x
    → decode_use_circuit_code (encode_use_circuit_code x) ≡ some x
unfolding encode_use_circuit_code
decode_use_circuit_code-encode_use_circuit_code x h =
    let rest = append_le_u32 x.circuit_code (x.session_id ++ x.agent_id) in
    decode_fields x.circuit_code x.session_id x.agent_id h.session_size h.agent_size
    ∙ cc (
      le-IsWire.shifts use_circuit_code_id rest 0,
      le-IsWire.reads x.circuit_code (x.session_id ++ x.agent_id) h.code_fits,
      take_sized 16 x.session_id x.agent_id h.session_size,
      ap (take 16) (drop_sized 16 x.session_id x.agent_id h.session_size),
      take_all 16 x.agent_id h.agent_size,
    )

length-encode : (x : UseCircuitCode) → IsRequest x → length (encode_use_circuit_code x) ≤ 65535
unfolding encode_use_circuit_code
length-encode x h =
    omega (arith, h.session_size, h.agent_size, length-append x.session_id x.agent_id)

module _ {D : Type 0} (doubles : Doubles D) (r : Registry D) (endpoint datagram : Bytes)
    (now : ℕ) where
  -- The new entry of a request.
  abbrev entry_for : UseCircuitCode → Entry D
  entry_for x = record {
    identity = x;
    circuit = new_circuit doubles now (doubles.of_size 128000) default_timeout;
  }

  receive_from_request :
      (p : Packet) (x : UseCircuitCode)
      → decode_packet datagram ≡ packet p
      → has_bit reliable p.flags ≡ true
      → decode_use_circuit_code p.payload ≡ some x
      → authorized r.authorizer x ≡ true
      → lookup endpoint r.circuits ≡ none
      → receive_from doubles endpoint datagram now r
        ≡ receive_at endpoint datagram now (entry_for x) (displace x r)
  unfolding receive_from admit_requested
  receive_from_request p x decoded flagged asked allowed unknown =
      rw (unknown, decoded, flagged, asked, allowed) refl

  delivers_first :
      (p : Packet) (x : UseCircuitCode)
      → decode_packet datagram ≡ packet p
      → has_bit reliable p.flags ≡ true
      → (receive_at endpoint datagram now (entry_for x) (displace x r)).0 ≡ delivered p
  unfolding receive_at new_circuit contains
  delivers_first p x decoded flagged =
      (receive_again datagram p (entry_for x).circuit now now decoded flagged refl).0

  -- When a viewer at an endpoint without a circuit sends the message that asks for one, reliably,
  -- and the authorizer lets its request in: the datagram is delivered, the endpoint has the
  -- requested identity, and every other endpoint what it had, unless that conflicts with the
  -- request. The viewer's numbers have to be words, the registry's endpoints distinct, and the
  -- identifiers of 16 bytes.
  pub connects :
      (viewer sent : Circuit D) (x : UseCircuitCode) (sent_at : ℕ) (is_zero_coded : Bool)
      → IsReady viewer
      → IsRequest x
      → send doubles (encode_use_circuit_code x) true sent_at is_zero_coded viewer
        ≡ (some datagram, sent)
      → authorized r.authorizer x ≡ true
      → lookup endpoint r.circuits ≡ none
      → IsMap r.circuits
      → ((p : Packet) × ((receive_from doubles endpoint datagram now r).0 ≡ delivered p)
          × (p.payload ≡ encode_use_circuit_code x))
        × ((i : Bytes)
            → identity i (receive_from doubles endpoint datagram now r).1
              ≡ (if bytes_eq endpoint i then some x else unless (conflicts x) (identity i r)))
  connects viewer sent x sent_at is_zero_coded ready request sends allowed unknown is_map =
      arrives (
        subst (Sends viewer (encode_use_circuit_code x) true) sends (
          send-Sends doubles viewer (encode_use_circuit_code x) true is_zero_coded sent_at ready
            (length-encode x request)))
    where
      arrives :
          Sends viewer (encode_use_circuit_code x) true (some datagram, sent)
          → ((p : Packet) × ((receive_from doubles endpoint datagram now r).0 ≡ delivered p)
              × (p.payload ≡ encode_use_circuit_code x))
            × ((i : Bytes)
                → identity i (receive_from doubles endpoint datagram now r).1
                  ≡ (if bytes_eq endpoint i then some x else unless (conflicts x) (identity i r)))
      arrives (p, decoded, same, _, flagged, _, _, _) =
          let asked =
            ap decode_use_circuit_code same
            ∙ decode_use_circuit_code-encode_use_circuit_code x request in
          let admitted = receive_from_request p x decoded flagged asked allowed unknown in
          (
            (p, ap (λ s. s.0) admitted ∙ delivers_first p x decoded flagged, same),
            λ i.
                ap (λ s. identity i s.1) admitted
                ∙ admit_identity endpoint datagram now x (entry_for x).circuit r i is_map,
          )
