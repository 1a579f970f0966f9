-- ===== src/Transit.antt =====
-- region/include/homeworldz/region_transit.h and region/src/region_transit.cpp: avatars that arrive
-- from another region. (The geometry of crossings and teleports, over floats, is not modelled.)
pub mod Registry
pub mod Gate
mod Tests
