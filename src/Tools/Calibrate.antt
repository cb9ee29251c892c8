-- ===== src/Tools/Calibrate.antt =====
-- crates/airspy-tools/src/bin/airspy_calibrate.rs: the calibration record in the flash, read and written. Printing
-- is left out; the display of a read is its record and whether the tool warned.
pub mod Readback
use libairspy_rs.Base.{
  ℕ, ◌%◌, ◌^◌, Bool, true, false, not, Option, none, some, List, [], if◌then◌else◌,
}
use libairspy_rs.Base.Int.{ℤ}
use libairspy_rs.Error.{Result, ok, err}
use libairspy_rs.Transport.{UsbTransport, Bus, Wire, ◌>>=◌, ◌>>◌, pure}
use libairspy_rs.Device.Peripherals.{spiflash_erase_sector, spiflash_read, spiflash_write}
use libairspy_rs.Tools.Calibration.{
  calib_header, Calib, calib_from_le_bytes, calib_to_le_bytes, header_valid,
}

abbrev pub calib_offset : ℕ
calib_offset = 0x20000

abbrev pub calib_len : ℕ
calib_len = 12

abbrev pub calib_sector : ℕ
calib_sector = 2

pub record Displayed : Type 0 where
  pub calib : Calib
  pub warned : Bool

-- The record that is written at a time, in seconds of the Unix epoch.
abbrev pub fresh_calib : ℕ → ℤ → Calib
fresh_calib now correction_ppb = record {
  header = calib_header;
  timestamp = now % 2 ^ 32;
  correction_ppb = correction_ppb;
}

abbrev pub display : Calib → Displayed
display c = record { calib = c; warned = not (header_valid c) }

module _ (t : UsbTransport) where
  unfoldable pub read_calibration : Wire Displayed
  unfolding header_valid
  read_calibration =
      spiflash_read t calib_offset calib_len >>= λ raw. pure (display (calib_from_le_bytes raw))

  unfoldable pub write_calibration : ℕ → ℤ → Wire (Unit {0})
  write_calibration now correction_ppb =
      spiflash_erase_sector t calib_sector
      >> spiflash_write t calib_offset (calib_to_le_bytes (fresh_calib now correction_ppb))

  abbrev pub wrote : Result (Unit {0}) → Bool × Option Displayed
  wrote (ok u) = (true, none)
  wrote (err e) = (false, none)

  abbrev pub showed : Result Displayed → Bool × Option Displayed
  showed (ok d) = (true, some d)
  showed (err e) = (false, none)

  abbrev pub calibrate_device : Bool → ℕ → Option ℤ → Bus → (Bool × Option Displayed) × Bus
  calibrate_device opens now (some correction_ppb) bus =
      let written = write_calibration now correction_ppb bus in
      if opens then (wrote written.0, written.1) else ((false, none), bus)
  calibrate_device opens now none bus =
      let seen = read_calibration bus in
      if opens then (showed seen.0, seen.1) else ((false, none), bus)

  -- `-r`, `-w` and `--force`, whether the device opens, and the clock. Whether the exit is in order, and what
  -- is displayed.
  unfoldable pub calibrate_main :
      Bool → Option ℤ → Bool → Bool → ℕ → Bus → (Bool × Option Displayed) × Bus
  unfolding read_calibration write_calibration
  calibrate_main true (some correction_ppb) force opens now bus = ((false, none), bus)
  calibrate_main false none force opens now bus = ((false, none), bus)
  calibrate_main false (some correction_ppb) force opens now bus =
      let run = calibrate_device opens now (some correction_ppb) bus in
      if force then run else ((false, none), bus)
  calibrate_main true none force opens now bus = calibrate_device opens now none bus
