-- ===== src/Tools/Spiflash/Programming.antt =====
-- What the two walks of bin/airspy_spiflash.rs do to the chip.
use libairspy_rs.Base.{
  ℕ, ◌+◌, ◌-◌, ◌*◌, ◌^◌, ◌%◌, ◌≤◌, ◌<◌, ◌≡◌, refl, sym, ap, subst, ◌∙◌, List, [], ◌∷◌, length, take,
  drop, get_or, ltb, if◌then◌else◌, false, Bool-cases, inl, inr, arith, length-take, length-drop,
}
use libairspy_rs.Commands.{Command}
use libairspy_rs.Error.{Error, Result, ok, err}
use libairspy_rs.Transport.{UsbTransport, Bus}
use libairspy_rs.Device.{out_setter}
use libairspy_rs.Device.Requests.{bind-inv, out_setter-Makes, out_setter-inv}
use libairspy_rs.Device.Peripherals.{
  spiflash_write, spiflash_erase, address_high, address_low, spiflash_max_address, u16_max,
}
use libairspy_rs.Device.Peripherals.Flash.{address-together}
use libairspy_rs.Tools.Chip.{Image, overlay, Chip, get_or_beyond, overlay-split}
use libairspy_rs.Tools.Flash.{Tiles, transfer_chunks, transfer_chunks-Tiles, validate_range, valid}
use libairspy_rs.Tools.Spiflash.{write_chunks, write_flash}

-- An address beyond the bytes is that of the image.
pub overlay_beyond :
    (address : ℕ) (bytes : List ℕ) (image : Image) (a : ℕ)
    → address + length bytes ≤ a
    → overlay address bytes image a ≡ image a
overlay_beyond address bytes image a h =
    rw ((let e : ltb a address ≡ false = ground arith in e))
      (get_or_beyond bytes (a - address) (image a) (omega arith))

overlay_none :
    (address : ℕ) (bytes : List ℕ) (image : Image) (a : ℕ)
    → length bytes ≡ 0
    → overlay address bytes image a ≡ image a
overlay_none address [] image a h = elim (Bool-cases (ltb a address)) [
  | inl e ↦ rw (e) refl
  | inr e ↦ rw (e) refl
]
overlay_none address (x ∷ xs) image a h = absurd (omega (arith, h))

overlay-ap :
    (address : ℕ) (bytes : List ℕ) (f g : Image) (a : ℕ)
    → f a ≡ g a
    → overlay address bytes f a ≡ overlay address bytes g a
overlay-ap address bytes f g a e =
    ap (λ v. if ltb a address then v else get_or bytes (a - address) v) e

pub valid-small : (address n : ℕ) → validate_range address n ≡ valid → address + n ≤ 0x100000
unfolding validate_range
valid-small address n h = ground (arith, h)

module _ (t : UsbTransport) (chip : Chip t) where
  erase-blank :
      (bus : Bus) (a : ℕ)
      → (spiflash_erase t bus).0 ≡ ok tt
      → chip.image (spiflash_erase t bus).1 a ≡ 255
  unfolding spiflash_erase
  erase-blank bus a h =
      ap (λ b. chip.image b a) (out_setter-Makes t Command.spiflash_erase 0 0 [] bus)
      ∙ chip.erases bus 0 a (out_setter-inv t Command.spiflash_erase 0 0 [] bus h)

  sent-overlay :
      (high low address : ℕ) (bytes : List ℕ) (bus : Bus) (a : ℕ)
      → high * 2 ^ 16 + low ≡ address
      → ((i : ℕ) → i < length bytes → chip.image bus (address + i) ≡ 255)
      → (out_setter t Command.spiflash_write high low bytes bus).0 ≡ ok tt
      → chip.image (out_setter t Command.spiflash_write high low bytes bus).1 a
        ≡ overlay address bytes (chip.image bus) a
  sent-overlay high low address bytes bus a e blank h =
      ap (λ b. chip.image b a) (out_setter-Makes t Command.spiflash_write high low bytes bus)
      ∙ (chip.writes bus high low bytes a
            (out_setter-inv t Command.spiflash_write high low bytes bus h)
            (λ i l. ap (λ (b : ℕ). chip.image bus (b + i)) e ∙ blank i l)
          ∙ ap (λ b. overlay b bytes (chip.image bus) a) e)

  pub write-overlay :
      (address : ℕ) (bytes : List ℕ) (bus : Bus) (a : ℕ)
      → ((i : ℕ) → i < length bytes → chip.image bus (address + i) ≡ 255)
      → (spiflash_write t address bytes bus).0 ≡ ok tt
      → chip.image (spiflash_write t address bytes bus).1 a
        ≡ overlay address bytes (chip.image bus) a
  unfolding spiflash_write
  write-overlay address bytes bus a blank h = elim (Bool-cases (ltb spiflash_max_address address)) [
    | inl e ↦ absurd (let r : err Error.invalid_param ≡ ok tt = rw (e) at h in cc)
    | inr e ↦ elim (Bool-cases (ltb u16_max (length bytes))) [
      | inl l ↦ absurd (let r : err Error.invalid_param ≡ ok tt = rw (e, l) at h in cc)
      | inr l ↦
          rw (e, l)
            (sent-overlay (address_high address) (address_low address) address bytes bus a
              (address-together address (ground (arith, e))) blank (rw (e, l) at h))
    ]
  ]

  write_chunks-overlay :
      (cs : List (ℕ × ℕ)) (address remaining : ℕ) (bytes : List ℕ) (bus : Bus)
      → Tiles address remaining cs
      → length bytes ≡ remaining
      → ((a : ℕ) → address ≤ a → chip.image bus a ≡ 255)
      → (write_chunks t cs bytes bus).0 ≡ ok tt
      → (a : ℕ)
      → chip.image (write_chunks t cs bytes bus).1 a ≡ overlay address bytes (chip.image bus) a
  unfolding write_chunks
  write_chunks-overlay [] address remaining bytes bus tiles n blank h a =
      sym (overlay_none address bytes (chip.image bus) a (n ∙ tiles))
  write_chunks-overlay (c ∷ cs) address remaining bytes bus tiles n blank h a =
      let s =
        bind-inv (spiflash_write t c.0 (take c.1 bytes)) (λ _. write_chunks t cs (drop c.1 bytes))
          bus h in
      let bus' = (spiflash_write t c.0 (take c.1 bytes) bus).1 in
      let fits : c.1 ≤ length bytes = omega (arith, n, tiles.3) in
      let cut : length (take c.1 bytes) ≡ c.1 = omega (arith, length-take c.1 bytes, fits) in
      let first : (b : ℕ)
          → chip.image bus' b ≡ overlay address (take c.1 bytes) (chip.image bus) b =
        λ b.
          subst (λ d. chip.image bus' b ≡ overlay d (take c.1 bytes) (chip.image bus) b) tiles.0
            (write-overlay c.0 (take c.1 bytes) bus b
              (λ i l. blank (c.0 + i) (omega (arith, tiles.0))) s.1) in
      ap (λ (r : Result (Unit {0}) × Bus). chip.image r.1 a) s.2
      ∙ (write_chunks-overlay cs (address + c.1) (remaining - c.1) (drop c.1 bytes) bus' tiles.4
            (omega (arith, length-drop c.1 bytes, n))
            (λ b l.
              first b
              ∙ (overlay_beyond address (take c.1 bytes) (chip.image bus) b (omega (arith, l, cut))
                  ∙ blank b (omega (arith, l))))
            s.3 a
          ∙ (overlay-ap (address + c.1) (drop c.1 bytes) (chip.image bus')
                (overlay address (take c.1 bytes) (chip.image bus)) a (first a)
              ∙ overlay-split address c.1 bytes (chip.image bus) a fits))

  -- A write that succeeds leaves the bytes at their addresses and everything else erased.
  pub write_flash-Programs :
      (address : ℕ) (bytes : List ℕ) (bus : Bus)
      → validate_range address (length bytes) ≡ valid
      → (write_flash t address bytes bus).0 ≡ ok tt
      → (a : ℕ)
      → chip.image (write_flash t address bytes bus).1 a ≡ overlay address bytes (λ b. 255) a
  unfolding write_flash
  write_flash-Programs address bytes bus v h a =
      let size : length bytes % 2 ^ 32 ≡ length bytes =
        omega (arith, valid-small address (length bytes) v) in
      let s =
        bind-inv (spiflash_erase t)
          (λ _. write_chunks t (transfer_chunks address (length bytes % 2 ^ 32)) bytes) bus h in
      let blank : (b : ℕ) → chip.image (spiflash_erase t bus).1 b ≡ 255 =
        λ b. erase-blank bus b s.1 in
      let tiled : Tiles address (length bytes) (transfer_chunks address (length bytes % 2 ^ 32)) =
        subst (λ n. Tiles address (length bytes) (transfer_chunks address n)) (sym size)
          (transfer_chunks-Tiles address (length bytes) v).0 in
      ap (λ (r : Result (Unit {0}) × Bus). chip.image r.1 a) s.2
      ∙ (write_chunks-overlay (transfer_chunks address (length bytes % 2 ^ 32)) address
            (length bytes) bytes (spiflash_erase t bus).1 tiled refl (λ b l. blank b) s.3 a
          ∙ overlay-ap address bytes (chip.image (spiflash_erase t bus).1) (λ b. 255) a (blank a))
