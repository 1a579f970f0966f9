-- ===== src/Viewer.antt =====
-- region/include/homeworldz/viewer_protocol.h and region/src/viewer_protocol.cpp, the transport:
-- packets, acknowledgements and circuits.
mod Tests
pub mod ZeroCode
pub mod Wire
pub mod Packet
pub mod Circuit
pub mod Registry
