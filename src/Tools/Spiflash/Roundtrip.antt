-- ===== src/Tools/Spiflash/Roundtrip.antt =====
-- A file written to the flash by bin/airspy_spiflash.rs and read again, over a device that obeys.
use libairspy_rs.Base.{
  ℕ, ◌+◌, ◌-◌, ◌^◌, ◌%◌, ◌≤◌, ◌≡◌, refl, ap, ap₂, ◌∙◌, Bool, true, false, Option, none, some, List,
  [], ◌∷◌, ◌++◌, length, take, drop, ltb, All, arith, length-take,
}
use libairspy_rs.Commands.{Command}
use libairspy_rs.Error.{Result, ok}
use libairspy_rs.Transport.{UsbTransport, Bus, ◌>>=◌, pure}
use libairspy_rs.Device.{vendor_in}
use libairspy_rs.Device.Requests.{out_setter-ok, bind-ok}
use libairspy_rs.Device.Peripherals.{
  spiflash_write, spiflash_read, spiflash_erase, address_high, address_low, spiflash_max_address,
  u16_max,
}
use libairspy_rs.Tools.Chip.{Chip, Obeys, cells, overlay, cells-ext, cells-overlay}
use libairspy_rs.Tools.Flash.{
  Tiles, InFlash, transfer_chunks, transfer_chunks-Tiles, validate_range, valid,
}
use libairspy_rs.Tools.Receive.Capture.{in_full}
use libairspy_rs.Tools.Spiflash.{
  FlashArgs, Outside, load_write_file, write_chunks, read_chunks, write_flash, read_flash,
  spiflash_main, resolve_operation,
}
use libairspy_rs.Tools.Spiflash.Programming.{write_flash-Programs, valid-small}
use libairspy_rs.Tools.Spiflash.Reading.{read_chunks-cells}
use libairspy_rs.Tools.Spiflash.Loading.{load_write_file-Loads}

module _ (t : UsbTransport) (obeys : Obeys t) where
  pub spiflash_write-ok :
      (address : ℕ) (bytes : List ℕ) (bus : Bus)
      → address ≤ 0xfffff
      → length bytes ≤ 256
      → (spiflash_write t address bytes bus).0 ≡ ok tt
  unfolding spiflash_write
  spiflash_write-ok address bytes bus a n =
      rw
        (
          (let e : ltb spiflash_max_address address ≡ false = ground (arith, a) in e),
          (let e : ltb u16_max (length bytes) ≡ false = ground (arith, n) in e),
        )
        (out_setter-ok t Command.spiflash_write (address_high address) (address_low address) bytes
          bus (obeys.takes bus Command.spiflash_write _ _ bytes))

  pub spiflash_read-ok :
      (address n : ℕ) (bus : Bus)
      → n ≤ 256
      → (bytes : List ℕ) × ((spiflash_read t address n bus).0 ≡ ok bytes)
  unfolding spiflash_read vendor_in
  spiflash_read-ok address n bus h =
      let r =
        obeys.gives bus Command.spiflash_read (address_high address) (address_low address) n in
      (
        r.0,
        rw
            (
              (let e : ltb u16_max n ≡ false = ground (arith, h) in e),
              r.1,
              (let e : ltb (length r.0) n ≡ false = ground (arith, r.2) in e),
            )
            refl,
      )

  write_chunks-ok :
      (cs : List (ℕ × ℕ)) (address remaining : ℕ) (bytes : List ℕ) (bus : Bus)
      → Tiles address remaining cs
      → All InFlash cs
      → (write_chunks t cs bytes bus).0 ≡ ok tt
  unfolding write_chunks
  write_chunks-ok [] address remaining bytes bus tiles flash = refl
  write_chunks-ok (c ∷ cs) address remaining bytes bus tiles flash =
      ap (λ (r : Result (Unit {0}) × Bus). r.0)
        (bind-ok (spiflash_write t c.0 (take c.1 bytes)) (λ _. write_chunks t cs (drop c.1 bytes))
          bus tt
          (spiflash_write-ok c.0 (take c.1 bytes) bus (flash.0).0
            (omega (arith, length-take c.1 bytes, tiles.2))))
      ∙ write_chunks-ok cs (address + c.1) (remaining - c.1) (drop c.1 bytes) _ tiles.4 flash.1

  read_chunks-ok :
      (cs : List (ℕ × ℕ)) (address remaining : ℕ) (bus : Bus)
      → Tiles address remaining cs
      → (bytes : List ℕ) × ((read_chunks t cs bus).0 ≡ ok bytes)
  unfolding read_chunks
  read_chunks-ok [] address remaining bus tiles = ([], refl)
  read_chunks-ok (c ∷ cs) address remaining bus tiles =
      let first = spiflash_read-ok c.0 c.1 bus tiles.2 in
      let bus' = (spiflash_read t c.0 c.1 bus).1 in
      let rest = read_chunks-ok cs (address + c.1) (remaining - c.1) bus' tiles.4 in
      (
        first.0 ++ rest.0,
        ap (λ (r : Result (List ℕ) × Bus). r.0)
            (bind-ok (spiflash_read t c.0 c.1)
                (λ bytes. read_chunks t cs >>= λ more. pure (bytes ++ more)) bus first.0 first.1
              ∙ bind-ok (read_chunks t cs) (λ more. pure (first.0 ++ more)) bus' rest.0 rest.1),
      )

  write_flash-ok :
      (address : ℕ) (bytes : List ℕ) (bus : Bus)
      → validate_range address (length bytes) ≡ valid
      → (write_flash t address bytes bus).0 ≡ ok tt
  unfolding write_flash spiflash_erase
  write_flash-ok address bytes bus v =
      let size : length bytes % 2 ^ 32 ≡ length bytes =
        omega (arith, valid-small address (length bytes) v) in
      let tiled = transfer_chunks-Tiles address (length bytes) v in
      ap (λ (r : Result (Unit {0}) × Bus). r.0)
        (bind-ok (spiflash_erase t)
          (λ _. write_chunks t (transfer_chunks address (length bytes % 2 ^ 32)) bytes) bus tt
          (out_setter-ok t Command.spiflash_erase 0 0 [] bus
            (obeys.takes bus Command.spiflash_erase 0 0 [])))
      ∙ (ap (λ n. (write_chunks t (transfer_chunks address n) bytes (spiflash_erase t bus).1).0)
            size
          ∙ write_chunks-ok (transfer_chunks address (length bytes)) address (length bytes) bytes
              (spiflash_erase t bus).1 tiled.0 tiled.1)

  -- A forced write of a file that loads, over a device that obeys.
  main_write-value :
      (a : FlashArgs) (o : Outside) (path bytes : List ℕ) (bus : Bus)
      → resolve_operation a ≡ some (path, true)
      → load_write_file o.source a.address ≡ some bytes
      → o.device_opens ≡ true
      → spiflash_main t a o bus ≡ ((true, none), (write_flash t a.address bytes bus).1)
  unfolding spiflash_main
  main_write-value a o path bytes bus e l d =
      rw
        (
          e,
          l,
          d,
          write_flash-ok a.address bytes bus (load_write_file-Loads o.source a.address l).range,
        )
        refl

  read_value :
      (a : FlashArgs) (o : Outside) (path got : List ℕ) (bus : Bus)
      → resolve_operation a ≡ some (path, false)
      → validate_range a.address a.range_length ≡ valid
      → o.device_opens ≡ true
      → o.creates ≡ true
      → o.answer ≡ in_full
      → (read_chunks t (transfer_chunks a.address a.range_length) bus).0 ≡ ok got
      → (spiflash_main t a o bus).0 ≡ (true, some got)
  unfolding spiflash_main read_flash
  read_value a o path got bus e v d c w r = rw (e, v, d, c, w, r) refl

module _ (t : UsbTransport) (chip : Chip t) (obeys : Obeys t) where
  -- Over a device that obeys and a chip that keeps what it is told, a forced write of a file that loads
  -- succeeds, and a run that reads as many bytes from the same address then succeeds with the file's bytes.
  pub spiflash_main-reads_back :
      (a a' : FlashArgs) (o o' : Outside) (path path' bytes : List ℕ) (bus : Bus)
      → resolve_operation a ≡ some (path, true)
      → load_write_file o.source a.address ≡ some bytes
      → o.device_opens ≡ true
      → resolve_operation a' ≡ some (path', false)
      → a'.address ≡ a.address
      → a'.range_length ≡ length bytes
      → o'.device_opens ≡ true
      → o'.creates ≡ true
      → o'.answer ≡ in_full
      → ((spiflash_main t a o bus).0.0 ≡ true)
        × ((spiflash_main t a' o' (spiflash_main t a o bus).1).0 ≡ (true, some bytes))
  spiflash_main-reads_back a a' o o' path path' bytes bus e l d e' address size d' c' w' =
      let range = (load_write_file-Loads o.source a.address l).range in
      let written = main_write-value t obeys a o path bytes bus e l d in
      let after = (write_flash t a.address bytes bus).1 in
      let range' : validate_range a'.address a'.range_length ≡ valid =
        ap₂ validate_range address size ∙ range in
      let tiled = (transfer_chunks-Tiles a'.address a'.range_length range').0 in
      let got =
        read_chunks-ok t obeys (transfer_chunks a'.address a'.range_length) a'.address
          a'.range_length after tiled in
      let same : got.0 ≡ bytes =
        read_chunks-cells t chip (transfer_chunks a'.address a'.range_length) a'.address
          a'.range_length after tiled (valid-small a'.address a'.range_length range') got.1
        ∙ (ap₂ (cells (chip.image after)) address size
            ∙ (cells-ext (chip.image after) (overlay a.address bytes (λ b. 255)) a.address
                  (length bytes)
                  (λ b _.
                    write_flash-Programs t chip a.address bytes bus range
                      (write_flash-ok t obeys a.address bytes bus range) b)
                ∙ cells-overlay a.address bytes (λ b. 255))) in
      (
        ap (λ (r : (Bool × Option (List ℕ)) × Bus). r.0.0) written,
        ap (λ (r : (Bool × Option (List ℕ)) × Bus). (spiflash_main t a' o' r.1).0) written
            ∙ (read_value t obeys a' o' path' got.0 after e' range' d' c' w' got.1
                ∙ ap (λ (x : List ℕ). (true, some x)) same),
      )
