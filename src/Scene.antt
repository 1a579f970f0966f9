-- ===== src/Scene.antt =====
-- region/include/homeworldz/scene.h and region/src/scene.cpp: the objects of a region and their permissions.
pub mod Masks
pub mod Entity
pub mod Granted
pub mod Items
pub mod Effective
pub mod Bitwise
pub mod Store
pub mod Restore
pub mod Calls
pub mod Maps
mod Tests
