-- ===== src/Iq.antt =====
-- crates/libairspy/src/iqconverter_int16.rs and iqconverter_float.rs: the IQ converters.
pub mod Queue
pub mod Fir
pub mod Delay
pub mod Fixed
pub mod Float
