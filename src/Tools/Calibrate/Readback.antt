-- ===== src/Tools/Calibrate/Readback.antt =====
-- The calibration that bin/airspy_calibrate.rs writes is the one that it reads, and nothing else is lost.
use libairspy_rs.Base.{
  ℕ, ◌+◌, ◌/◌, ◌<◌, ◌==◌, ◌≡◌, ◌≢◌, refl, sym, ap, ◌∙◌, true, false, none, some, List, [], length,
  Bool-cases, inl, inr, arith, ltb, if◌then◌else◌,
}
use libairspy_rs.Base.Bytes.{to_le}
use libairspy_rs.Base.Int.{ℤ, IsI32}
use libairspy_rs.Commands.{Command}
use libairspy_rs.Error.{Result, ok}
use libairspy_rs.Transport.{UsbTransport, Bus, pure}
use libairspy_rs.Device.Requests.{bind-ok, out_setter-ok, out_setter-Makes}
use libairspy_rs.Device.Peripherals.{spiflash_erase_sector, spiflash_read, spiflash_write}
use libairspy_rs.Tools.Chip.{Chip, cells, overlay, cells-ext, cells-overlay, Obeys}
use libairspy_rs.Tools.Calibration.{
  calib_from_le_bytes, calib_to_le_bytes, calib_from_le_bytes-calib_to_le_bytes, header_valid,
}
use libairspy_rs.Tools.Spiflash.Programming.{write-overlay, overlay_beyond}
use libairspy_rs.Tools.Spiflash.Reading.{spiflash_read-cells}
use libairspy_rs.Tools.Spiflash.Roundtrip.{spiflash_write-ok, spiflash_read-ok}
use libairspy_rs.Tools.Calibrate.{
  calib_offset, calib_len, calib_sector, fresh_calib, display, read_calibration, write_calibration,
  calibrate_main, wrote, showed,
}

length-calib_to_le_bytes : (c : _) → length (calib_to_le_bytes c) ≡ 12
unfolding calib_to_le_bytes to_le
length-calib_to_le_bytes c = refl

module _ (t : UsbTransport) (chip : Chip t) (obeys : Obeys t) where
  sector-image :
      (bus : Bus) (a : ℕ)
      → chip.image (spiflash_erase_sector t calib_sector bus).1 a
        ≡ (if a / 65536 == 2 then 255 else chip.image bus a)
  unfolding spiflash_erase_sector
  sector-image bus a =
      ap (λ b. chip.image b a) (out_setter-Makes t Command.spiflash_erase_sector 2 0 [] bus)
      ∙ chip.erases_sector bus 0 2 a (obeys.takes bus Command.spiflash_erase_sector 2 0 [])

  erase-ok : (bus : Bus) → (spiflash_erase_sector t calib_sector bus).0 ≡ ok tt
  unfolding spiflash_erase_sector
  erase-ok bus =
      out_setter-ok t Command.spiflash_erase_sector 2 0 [] bus
        (obeys.takes bus Command.spiflash_erase_sector 2 0 [])

  -- What a write makes of the chip.
  write-value :
      (now : ℕ) (ppb : ℤ) (bus : Bus)
      → let raw = calib_to_le_bytes (fresh_calib now ppb) in
        write_calibration t now ppb bus ≡ (
          ok tt,
          (spiflash_write t calib_offset raw (spiflash_erase_sector t calib_sector bus).1).1,
        )
  unfolding write_calibration
  write-value now ppb bus =
      let raw = calib_to_le_bytes (fresh_calib now ppb) in
      let erased = (spiflash_erase_sector t calib_sector bus).1 in
      bind-ok (spiflash_erase_sector t calib_sector) (λ _. spiflash_write t calib_offset raw) bus tt
        (erase-ok bus)
      ∙ ap (λ r. (r, (spiflash_write t calib_offset raw erased).1))
          (spiflash_write-ok t obeys calib_offset raw erased (omega arith)
            (omega (arith, length-calib_to_le_bytes (fresh_calib now ppb))))

  write-image :
      (now : ℕ) (ppb : ℤ) (bus : Bus) (a : ℕ)
      → let erased = (spiflash_erase_sector t calib_sector bus).1 in
        let raw = calib_to_le_bytes (fresh_calib now ppb) in
        chip.image (write_calibration t now ppb bus).1 a
        ≡ overlay calib_offset raw (chip.image erased) a
  write-image now ppb bus a =
      let erased = (spiflash_erase_sector t calib_sector bus).1 in
      let raw = calib_to_le_bytes (fresh_calib now ppb) in
      ap (λ (r : Result (Unit {0}) × Bus). chip.image r.1 a) (write-value now ppb bus)
      ∙ write-overlay t chip calib_offset raw erased a
          (λ i l.
            sector-image bus (calib_offset + i)
            ∙ in_sector i (chip.image bus (calib_offset + i))
                (omega (arith, l, length-calib_to_le_bytes (fresh_calib now ppb))))
          (spiflash_write-ok t obeys calib_offset raw erased (omega arith)
            (omega (arith, length-calib_to_le_bytes (fresh_calib now ppb))))
    where
      in_sector : (i d : ℕ) → i < 12 → (if (calib_offset + i) / 65536 == 2 then 255 else d) ≡ 255
      in_sector i d h = ground arith

  elsewhere :
      (raw : List ℕ) (bus : Bus) (a : ℕ)
      → length raw ≡ 12
      → a / 65536 ≢ 2
      → overlay calib_offset raw (chip.image (spiflash_erase_sector t calib_sector bus).1) a
        ≡ chip.image bus a
  elsewhere raw bus a n outside =
      let other : (a / 65536 == 2) ≡ false = ground (arith, outside) in
      let kept : chip.image (spiflash_erase_sector t calib_sector bus).1 a ≡ chip.image bus a =
        sector-image bus a ∙ ap (λ x. if x then 255 else chip.image bus a) other in
      elim (Bool-cases (ltb a calib_offset)) [
        | inl below ↦ rw (below) kept
        | inr above ↦
            overlay_beyond calib_offset raw
              (chip.image (spiflash_erase_sector t calib_sector bus).1) a
              (ground (arith, above, outside, n))
            ∙ kept
      ]

  read-value :
      (bus : Bus) (raw : List ℕ)
      → cells (chip.image bus) calib_offset calib_len ≡ raw
      → (read_calibration t bus).0 ≡ ok (display (calib_from_le_bytes raw))
  unfolding read_calibration
  read-value bus raw h =
      let got = spiflash_read-ok t obeys calib_offset calib_len bus (omega arith) in
      ap (λ (r : Result _ × Bus). r.0)
        (bind-ok (spiflash_read t calib_offset calib_len)
          (λ raw. pure (display (calib_from_le_bytes raw))) bus got.0 got.1)
      ∙ ap (λ b. ok (display (calib_from_le_bytes b)))
          (spiflash_read-cells t chip calib_offset calib_len bus (omega arith) got.1 ∙ h)

  -- Over a device that obeys and a chip that keeps what it is told, a confirmed write of a correction that
  -- fits 32 bits succeeds and changes nothing outside the 64 KB of its sector, and reading then displays
  -- this correction and the time of the write, without a warning.
  pub calibrate_main-reads_back :
      (ppb : ℤ) (now later : ℕ) (bus : Bus)
      → IsI32 ppb
      → let written = calibrate_main t false (some ppb) true true now bus in
        (written.0 ≡ (true, none))
        × ((calibrate_main t true none false true later written.1).0
            ≡ (true, some (record { calib = fresh_calib now ppb; warned = false })))
        × ((a : ℕ) → a / 65536 ≢ 2 → chip.image written.1 a ≡ chip.image bus a)
  unfolding calibrate_main header_valid
  calibrate_main-reads_back ppb now later bus fits =
      let c = fresh_calib now ppb in
      let raw = calib_to_le_bytes c in
      let after = (write_calibration t now ppb bus).1 in
      let stored : cells (chip.image after) calib_offset calib_len ≡ raw =
        cells-ext (chip.image after) _ calib_offset calib_len (λ a _. write-image now ppb bus a)
        ∙ (ap (cells _ calib_offset) (sym (length-calib_to_le_bytes c))
            ∙ cells-overlay calib_offset raw
                (chip.image (spiflash_erase_sector t calib_sector bus).1)) in
      (
        ap (λ (r : Result (Unit {0}) × Bus). wrote t r.0) (write-value now ppb bus),
        ap (showed t) (read-value after raw stored)
            ∙ ap (λ d. (true, some (display d)))
                (calib_from_le_bytes-calib_to_le_bytes c (omega arith) (omega arith) fits),
        λ a outside.
            write-image now ppb bus a ∙ elsewhere raw bus a (length-calib_to_le_bytes c) outside,
      )
