-- ===== src/Script/Snapshot.antt =====
-- The capture and restore of a script's state: `ByteWriter`, `ByteReader`, `VM::snapshot` and
-- `VM::restore` of script/src/vm.cpp.
pub mod Format
pub mod Restore
pub mod RoundTrip
