-- ===== src/Lib.antt =====
-- The parts of the region server that run user scripts, that let avatars in, that keep the
-- textures of faces, that read requests for assets, that carry packets to and from viewers, that
-- read and write binary LLSD, and that keep the parcels of a region and the objects in it, as
-- models with their proofs.
--
-- script/ (the Falcon engine). Source text goes through tokenize (Script/Lexer), parse
-- (Script/Parser) and compile (Script/Compiler) to a Program (Script/Bytecode), which the virtual
-- machine executes in slices (Script/Vm); a machine between two slices is written to bytes and read
-- back in another region (Script/Snapshot, Script/Migration). The trees in between are Script/Ast.
--   Script/Lexer/Scan: one round of the loop of `tokenize` is `scan_round`, the loop `scan_all`.
--   Script/Parser/Expression, Script/Parser/Statement: one function per parsing function of
--     parser.cpp, over the list of tokens still to read; `Parser/State` has peek, check, expect.
--   Script/Compiler/Generate: one function per compile_ function of compiler.cpp, over the state of
--     `class Compiler` (Script/Compiler/State). Script/Compiler/Meaning says independently of code
--     what an expression means; Compiler/Correct relates the two.
--   Script/Vm/State, Script/Vm/Step: the fields of `class VM`, and `exec` for the switch of
--     `VM::step`, `run` and `dispatch`. A ScriptError or VmFault is a value. `undefined` stands for
--     what C++ leaves undefined, such as a 32-bit overflow of a signed sum.
-- region/src/region_transit.cpp. Transit/Registry is `InboundTransitRegistry`, and Transit/Gate is
-- `CapabilityArrivalGate` (Gate/Visits a row of its calls): what a region knows of the avatars that
-- are on their way to it.
--
-- region/src/texture_entry.cpp. Texture/FaceBits has the sets of faces and their variable-length
-- form, Texture/Entry the functions `parse`, `encode`, `face_value` and `set_face` over the eleven
-- fields of an entry.
--
-- region/src/capability_paths.cpp. Paths/Requests reads the paths by which a viewer asks for a
-- texture or another asset, and Paths/Written the paths that are written for such a request.
--
-- region/src/viewer_protocol.cpp, the transport below the messages. Viewer/ZeroCode has zero_encode
-- and zero_decode, Viewer/Wire the 32-bit numbers, Viewer/Packet the datagrams; Viewer/Circuit is
-- the class `Circuit` (sequence numbers, acknowledgements and the rate; Viewer/Circuit/Poll has the
-- resends), and Viewer/Registry the class `CircuitRegistry`, which maps endpoints to circuits and
-- admits new ones. A read outside of a datagram is the value `undefined`, after which the model says
-- nothing: what is shown of rows of datagrams is of rows without such a read.
--
-- region/src/llsd_binary.cpp. Llsd/Value has the values and the tags, Llsd/Write `write_value` and
-- Llsd/Parse `parse_value` with the reader; a real is the 64 bits of its `double`. The parser's
-- recursion is on the levels of nesting that are left, 33 at the start.
--
-- region/src/parcel.cpp. Parcel/Bitmap has the bits of a parcel's cells, Parcel/Set the classes
-- `Parcel` and `ParcelSet` with the lookups and the rights, Parcel/Edit `parcel_covering`, `divide` and
-- `join`, Parcel/Overlay `overlay_for`. A pointer to a parcel is its place in the list. Parcel/Grid says
-- what a set of parcels means: a grid that gives each cell the local id of its one owner (`Maps`).
--
-- region/src/scene.cpp. Scene/Entity has an object's permissions and `apply_permission_update`,
-- Scene/Effective the update of an item and both functions `effective_permissions` (the one for a
-- linkset is `effective_linkset`), Scene/Store the class `Scene`, and Scene/Calls a row of its calls. A mask is a number whose bits
-- Common/Bits reads; Scene/Masks combines two masks. An unordered map is a list in any order.
--
-- Common holds what these share: lists and tests over the native numbers, integers, texts as lists
-- of bytes, 32-bit words, and association lists for the unordered maps.
--
-- Bounds and fuel. An int32_t is an integer with its range or its wrap-around written out, a
-- uint64_t count wraps at 2 ^ 64, and sizes in memory are not bounded. The local ids and the areas of
-- parcels are int32_t in the code and have no meaning past 2 ^ 31 - 1, and a time point counts
-- nanoseconds in 64 signed bits: these are numbers here, and the theorems whose truth depends on a
-- bound have it as a condition. `tokenize` and the two
-- functions `parse` run on fuel that they compute from the length of their input, and this fuel is
-- proved to be enough. A slice of the machine is bounded by its own budget. Characters are bytes,
-- classified as in the C locale.
--
-- Parameters. The arithmetic of `double` that limits the rate of a circuit is a record of operations
-- (Viewer/Circuit.Doubles) of which nothing is assumed; the authorizer of the registry is
-- a function that may fail, and may be another one at each datagram, as its answers depend on the
-- sessions, the arriving transits and the clock. The host functions that a script calls are a function over a state of their own. The
-- coordinates that a transit carries are of any type. The corners of a rectangle of parcels are the
-- cells that the code's floor and ceiling of floating-point metres give, as integers. The vectors of
-- an object are of any type, and its movement in a step is a function of them. Time points are numbers
-- of nanoseconds.
--
-- Not modelled: the texts of error messages (constructors with their data stand for them), the
-- floating-point geometry of border crossings, teleports, links of objects and rays, and the other
-- parts of the region server and of the grid services, which are sockets, SQL, HTTP, codecs and
-- physics around these.
pub mod Common
pub mod Llsd
pub mod Parcel
pub mod Paths
pub mod Scene
pub mod Script
pub mod Texture
pub mod Transit
pub mod Viewer
