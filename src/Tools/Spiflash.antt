-- ===== src/Tools/Spiflash.antt =====
-- crates/airspy-tools/src/bin/airspy_spiflash.rs, and `parse_flash_u32` of flash_args.rs: the two walks over
-- the flash and the checks before them. Printing is left out.
pub mod Reading
pub mod Programming
pub mod Loading
pub mod Effect
pub mod Roundtrip
use libairspy_rs.Base.{
  ℕ, ◌%◌, ◌^◌, ◌==◌, Bool, true, false, not, ◌&&◌, Option, none, some, List, [], ◌∷◌, ◌++◌, length,
  take, drop, ltb, leb, if◌then◌else◌,
}
use libairspy_rs.Error.{Result, ok, err}
use libairspy_rs.Transport.{UsbTransport, Bus, Wire, ◌>>=◌, ◌>>◌, pure}
use libairspy_rs.Device.Peripherals.{spiflash_erase, spiflash_read, spiflash_write}
use libairspy_rs.Tools.Flash.{
  max_length, RangeCheck, valid, zero_length, exceeds_flash, validate_range, transfer_chunks,
}
use libairspy_rs.Tools.Numbers.{parse_u64}
use libairspy_rs.Tools.Receive.Capture.{WriteAnswer, is_ok, taken}

-- `-a` and `-l`.
unfoldable pub parse_flash_u32 : List ℕ → Option ℕ
parse_flash_u32 s = elim (parse_u64 s) [
  | some v ↦ if ltb v (2 ^ 32) then some v else none
  | none ↦ none
]

-- The values of the options.
pub record FlashArgs : Type 0 where
  pub address : ℕ
  pub range_length : ℕ
  pub read_path : Option (List ℕ)
  pub write_path : Option (List ℕ)
  pub force : Bool

-- A file to be written to the flash: the length in its metadata, and what reading it to the end gives, or
-- none where that fails.
pub record FileView : Type 0 where
  pub file_len : ℕ
  pub contents : Option (List ℕ)

-- The operating system's side of a run: the file to load, if it opens; whether the device opens; whether the
-- file to fill can be created, and the answer to its write.
pub record Outside : Type 0 where
  pub source : Option FileView
  pub device_opens : Bool
  pub creates : Bool
  pub answer : WriteAnswer

-- The path, and whether this is a write; none where the tool exits.
abbrev pub resolved : Option (List ℕ) → Option (List ℕ) → Bool → Option (List ℕ × Bool)
resolved (some r) (some w) force = none
resolved none none force = none
resolved (some r) none force = some (r, false)
resolved none (some w) force = if force then some (w, true) else none

unfoldable pub resolve_operation : FlashArgs → Option (List ℕ × Bool)
resolve_operation a = resolved a.read_path a.write_path a.force

-- `read_to_end` of at most `length` bytes, which must give them all.
abbrev pub bounded_read : ℕ → Option (List ℕ) → Option (List ℕ)
bounded_read n none = if 0 == n then some [] else none
bounded_read n (some bytes) = if length (take n bytes) == n then some (take n bytes) else none

abbrev pub is_valid : RangeCheck → Bool
is_valid valid = true
is_valid zero_length = false
is_valid exceeds_flash = false

-- None where the tool exits.
unfoldable pub load_write_file : Option FileView → ℕ → Option (List ℕ)
load_write_file none address = none
load_write_file (some f) address =
    if leb f.file_len max_length && is_valid (validate_range address f.file_len)
    then bounded_read f.file_len f.contents
    else none

module _ (t : UsbTransport) where
  -- The staged bytes of the transfers, one behind the other.
  unfoldable pub read_chunks : List (ℕ × ℕ) → Wire (List ℕ)
  read_chunks [] = pure []
  read_chunks (c ∷ cs) =
      spiflash_read t c.0 c.1 >>= λ bytes. read_chunks cs >>= λ rest. pure (bytes ++ rest)

  -- The output file if it was created, and whether all went well.
  abbrev pub filled : WriteAnswer → Result (List ℕ) → Bool × Option (List ℕ)
  filled answer (ok bytes) = (is_ok answer, some (taken answer bytes))
  filled answer (err e) = (false, some [])

  unfoldable pub read_flash : Bool → WriteAnswer → ℕ → ℕ → Bus → (Bool × Option (List ℕ)) × Bus
  unfolding read_chunks
  read_flash creates answer address length bus =
      let staged = read_chunks (transfer_chunks address length) bus in
      if creates then (filled answer staged.0, staged.1) else ((false, none), bus)

  -- `data` is what is left of the file.
  unfoldable pub write_chunks : List (ℕ × ℕ) → List ℕ → Wire (Unit {0})
  write_chunks [] bytes = pure tt
  write_chunks (c ∷ cs) bytes =
      spiflash_write t c.0 (take c.1 bytes) >> write_chunks cs (drop c.1 bytes)

  unfoldable pub write_flash : ℕ → List ℕ → Wire (Unit {0})
  unfolding write_chunks
  write_flash address bytes =
      spiflash_erase t >> write_chunks (transfer_chunks address (length bytes % 2 ^ 32)) bytes

  abbrev pub succeeded : Result (Unit {0}) → Bool
  succeeded (ok u) = true
  succeeded (err e) = false

  -- Once the device is to be opened, with the bytes to write if this is a write.
  abbrev pub with_device :
      FlashArgs → Outside → Option (List ℕ) → Bus → (Bool × Option (List ℕ)) × Bus
  with_device a o (some bytes) bus =
      let written = write_flash a.address bytes bus in
      if o.device_opens then ((succeeded written.0, none), written.1) else ((false, none), bus)
  with_device a o none bus =
      if o.device_opens
      then read_flash o.creates o.answer a.address a.range_length bus
      else ((false, none), bus)

  abbrev pub main_write :
      FlashArgs → Outside → Option (List ℕ) → Bus → (Bool × Option (List ℕ)) × Bus
  main_write a o none bus = ((false, none), bus)
  main_write a o (some bytes) bus = with_device a o (some bytes) bus

  abbrev pub main_of :
      FlashArgs → Outside → Option (List ℕ × Bool) → Bus → (Bool × Option (List ℕ)) × Bus
  main_of a o none bus = ((false, none), bus)
  main_of a o (some (path, true)) bus = main_write a o (load_write_file o.source a.address) bus
  main_of a o (some (path, false)) bus =
      if is_valid (validate_range a.address a.range_length)
      then with_device a o none bus
      else ((false, none), bus)

  -- Whether the exit is in order, and the file that a read fills.
  unfoldable pub spiflash_main : FlashArgs → Outside → Bus → (Bool × Option (List ℕ)) × Bus
  unfolding read_flash write_flash
  spiflash_main a o bus = main_of a o (resolve_operation a) bus
