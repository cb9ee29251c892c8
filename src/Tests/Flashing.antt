-- ===== src/Tests/Flashing.antt =====
-- The flash tools on a device with a chip that is computed from the calls made so far.
use libairspy_rs.Base.{
  ℕ, ◌+◌, ◌*◌, ◌/◌, ◌^◌, ◌≤◌, ◌≡◌, ◌==◌, ◌≢◌, refl, sym, ap, ◌∙◌, true, false, none, some, List, [],
  ◌∷◌, length, if◌then◌else◌, arith,
}
use libairspy_rs.Base.Int.{negsuc}
use libairspy_rs.Commands.{Command}
use libairspy_rs.Error.{Error, Result, ok, err}
use libairspy_rs.Transport.{UsbTransport, Bus, Call, control_out, control_in}
use libairspy_rs.Tools.Flash.{validate_range}
use libairspy_rs.Tools.Chip.{Image, cells, overlay, Chip, Obeys, length-cells}
use libairspy_rs.Tools.Receive.Capture.{in_full}
use libairspy_rs.Tools.Spiflash.{
  FlashArgs, Outside, spiflash_main, load_write_file, resolve_operation,
}
use libairspy_rs.Tools.Spiflash.Effect.{Written, spiflash_main-Effect}
use libairspy_rs.Tools.Spiflash.Roundtrip.{spiflash_main-reads_back}
use libairspy_rs.Tools.Calibrate.{fresh_calib, calibrate_main}
use libairspy_rs.Tools.Calibrate.Readback.{calibrate_main-reads_back}

-- What a request to the device makes of an image.
abbrev stored_by : Command → ℕ → ℕ → List ℕ → Image → Image
stored_by Command.spiflash_erase v i payload image = λ a. 255
stored_by Command.spiflash_erase_sector v i payload image =
    λ a. if a / 65536 == v then 255 else image a
stored_by Command.spiflash_write v i payload image = overlay (v * 2 ^ 16 + i) payload image
stored_by _ v i payload image = image

abbrev image_of : Bus → Image
image_of [] = λ a. 255
image_of (control_out c v i payload ∷ bus) = stored_by c v i payload (image_of bus)
image_of (_ ∷ bus) = image_of bus

abbrev accepted : Call → Result ℕ
accepted (control_out c v i payload) = ok (length payload)
accepted _ = err Error.invalid_param

abbrev seen : Bus → Call → Result (List ℕ)
seen bus (control_in c v i n) = ok (cells (image_of bus) (v * 2 ^ 16 + i) n)
seen bus _ = err Error.invalid_param

abbrev flash_device : UsbTransport
flash_device = record { write_control = λ bus c. accepted c; read_control = seen }

ok-injective : {A : Type 0} {a b : A} → ok a ≡ ok b → a ≡ b
ok-injective h = cc

answered :
    (bus : Bus) (a n : ℕ) (bytes : List ℕ)
    → cells (image_of bus) a n ≡ bytes
    → (length bytes ≤ n) × (bytes ≡ cells (image_of bus) a (length bytes))
answered bus a n bytes e =
    let size : length bytes ≡ n = ap length (sym e) ∙ length-cells (image_of bus) a n in
    (omega arith, sym e ∙ ap (cells (image_of bus) a) (sym size))

flash_chip : Chip flash_device
flash_chip = record {
  image = image_of;
  erases = λ bus n a h. refl;
  erases_sector = λ bus n sector a h. refl;
  writes = λ bus high low bytes a h blank. refl;
  reads = λ bus high low n bytes h. answered bus (high * 2 ^ 16 + low) n bytes (ok-injective h);
  read_keeps = λ bus high low n a. refl;
}

flash_device-Obeys : Obeys flash_device
flash_device-Obeys = record {
  takes = λ bus c v i payload. refl;
  gives = λ bus c v i n. (
    cells (image_of bus) (v * 2 ^ 16 + i) n,
    refl,
    length-cells (image_of bus) (v * 2 ^ 16 + i) n,
  );
}

abbrev firmware : List ℕ
firmware = 1 ∷ 2 ∷ 3 ∷ []

-- The file is called "f".
abbrev writing : FlashArgs
writing = record {
  address = 0x100;
  range_length = 0;
  read_path = none;
  write_path = some (102 ∷ []);
  force = true;
}

abbrev reading : FlashArgs
reading = record {
  address = 0x100;
  range_length = 3;
  read_path = some (102 ∷ []);
  write_path = none;
  force = false;
}

abbrev works : Outside
works = record {
  source = some (record { file_len = 3; contents = some firmware });
  device_opens = true;
  creates = true;
  answer = in_full;
}

loads_firmware : load_write_file works.source 0x100 ≡ some firmware
unfolding load_write_file validate_range
loads_firmware = refl

resolves_writing : resolve_operation writing ≡ some (102 ∷ [], true)
unfolding resolve_operation
resolves_writing = refl

resolves_reading : resolve_operation reading ≡ some (102 ∷ [], false)
unfolding resolve_operation
resolves_reading = refl

spiflash_main-reads_back_example :
    ((spiflash_main flash_device writing works []).0.0 ≡ true)
    × ((spiflash_main flash_device reading works (spiflash_main flash_device writing works []).1).0
        ≡ (true, some firmware))
spiflash_main-reads_back_example =
    spiflash_main-reads_back flash_device flash_chip flash_device-Obeys writing reading works works
      (102 ∷ []) (102 ∷ []) firmware [] resolves_writing loads_firmware refl resolves_reading refl
      refl refl refl refl

spiflash_main-Effect_example :
    let run = spiflash_main flash_device writing works [] in
    ((path : List ℕ)
      → writing.write_path ≡ some path
      → writing.force ≡ false
      → run ≡ ((false, none), []))
    × (writing.write_path ≡ none
        → ((b : ℕ) → flash_chip.image run.1 b ≡ flash_chip.image [] b)
          × (run.0.0 ≡ true
              → run.0.1 ≡ some (cells (flash_chip.image []) writing.address writing.range_length)))
    × ((path : List ℕ)
        → writing.write_path ≡ some path
        → run.0.0 ≡ true
        → Written flash_device flash_chip writing works run.1)
spiflash_main-Effect_example = spiflash_main-Effect flash_device flash_chip writing works []

calibrate_main-reads_back_example :
    let written = calibrate_main flash_device false (some (negsuc 1499)) true true 1700000000 [] in
    (written.0 ≡ (true, none))
    × ((calibrate_main flash_device true none false true 1800000000 written.1).0
        ≡ (true, some (record { calib = fresh_calib 1700000000 (negsuc 1499); warned = false })))
    × ((a : ℕ) → a / 65536 ≢ 2 → flash_chip.image written.1 a ≡ flash_chip.image [] a)
calibrate_main-reads_back_example =
    calibrate_main-reads_back flash_device flash_chip flash_device-Obeys (negsuc 1499) 1700000000
      1800000000 [] (ground arith)
