-- ===== src/Parcel.antt =====
-- region/include/homeworldz/parcel.h and region/src/parcel.cpp: the parcels of a region.
pub mod Bitmap
pub mod Bits
pub mod Cells
pub mod Set
pub mod Edit
pub mod Grid
pub mod Count
pub mod Division
pub mod Divide
pub mod Refines
pub mod Touched
pub mod Joining
pub mod Survivors
pub mod Joins
pub mod Reached
pub mod Overlay
mod Tests
