-- ===== src/Tools.antt =====
-- crates/airspy-tools/src: what the command-line tools compute.
pub mod Chip
pub mod Spiflash
pub mod Calibrate
pub mod Flash
pub mod Calibration
pub mod Numbers
pub mod Wav
pub mod Receive
pub mod Replay
pub mod Gpio
pub mod Registers
