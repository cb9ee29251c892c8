-- ===== src/Conversion.antt =====
-- crates/libairspy/src/conversion.rs: from the bytes of a transfer to typed samples.
pub mod Unpack
pub mod Layout
pub mod Packing
pub mod Counts
pub mod Dispatch
