-- ===== src/Texture.antt =====
-- region/include/homeworldz/texture_entry.h and region/src/texture_entry.cpp: the texture of every
-- face of an object.
pub mod FaceBits
pub mod Entry
pub mod Faces
pub mod Written
pub mod RoundTrip
mod Tests
