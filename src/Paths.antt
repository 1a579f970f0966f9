-- ===== src/Paths.antt =====
-- region/include/homeworldz/capability_paths.h and region/src/capability_paths.cpp: what the path of
-- an asset capability asks for. (The paths that end in a visit are not modelled.)
pub mod Requests
pub mod Written
mod Tests
