-- ===== src/Llsd.antt =====
-- region/include/homeworldz/llsd_binary.h and region/src/llsd_binary.cpp: values of LLSD, their
-- binary form, and its parser.
pub mod Value
pub mod Write
pub mod Parse
pub mod Sound
pub mod Scalars
pub mod Containers
pub mod RoundTrip
pub mod Reads
pub mod Parsed
mod Tests
