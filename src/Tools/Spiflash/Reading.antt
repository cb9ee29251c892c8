-- ===== src/Tools/Spiflash/Reading.antt =====
-- What reading the chip with the calls of bin/airspy_spiflash.rs gives, and that it leaves the chip alone.
use libairspy_rs.Base.{
  ℕ, ◌+◌, ◌-◌, ◌^◌, ◌≤◌, ◌<◌, ◌≡◌, refl, sym, ap, ap₂, ◌∙◌, List, [], ◌∷◌, ◌++◌, length, ltb,
  if◌then◌else◌, Bool-cases, inl, inr, arith,
}
use libairspy_rs.Commands.{Command}
use libairspy_rs.Error.{Error, ok, err}
use libairspy_rs.Transport.{UsbTransport, Bus, Wire, ◌>>=◌, pure, fail}
use libairspy_rs.Device.{vendor_in}
use libairspy_rs.Device.Requests.{bind-inv, Result-cases, bind-ok, bind-err}
use libairspy_rs.Device.Peripherals.{spiflash_read, address_high, address_low, u16_max}
use libairspy_rs.Device.Peripherals.Flash.{address-together}
use libairspy_rs.Tools.Chip.{cells, Chip, cells-ext, cells-append}
use libairspy_rs.Tools.Flash.{Tiles}
use libairspy_rs.Tools.Spiflash.{read_chunks}

module _ (t : UsbTransport) (chip : Chip t) where
  -- A computation that leaves the image alone, however it ends.
  abbrev pub Keeps {ℓ} : {A : Type ℓ} → Wire A → Type 0
  Keeps m = (bus : Bus) (a : ℕ) → chip.image (m bus).1 a ≡ chip.image bus a

  pub >>=-Keeps :
      {A B : Type 0} (m : Wire A) (f : A → Wire B)
      → Keeps m
      → ((x : A) → Keeps (f x))
      → Keeps (m >>= f)
  >>=-Keeps m f hm hf bus a = elim (Result-cases (m bus).0) [
    | inl p ↦
        ap (λ (b : Bus). chip.image b a) (ap (λ r. r.1) (bind-ok m f bus p.0 p.1))
        ∙ (hf p.0 (m bus).1 a ∙ hm bus a)
    | inr p ↦ ap (λ (b : Bus). chip.image b a) (ap (λ r. r.1) (bind-err m f bus p.0 p.1)) ∙ hm bus a
  ]

  -- The check of a read on the count received.
  full_read : ℕ → List ℕ → Wire (List ℕ)
  full_read n bytes =
      if ltb (length bytes) n
      then fail (Error.transfer_length_mismatch n (length bytes))
      else pure bytes

  full_read-inv :
      (n : ℕ) (got : List ℕ) (bus : Bus) {bytes : List ℕ}
      → (full_read n got bus).0 ≡ ok bytes
      → (got ≡ bytes) × (n ≤ length got)
  unfolding full_read
  full_read-inv n got bus {bytes} h = elim (Bool-cases (ltb (length got) n)) [
    | inl e ↦
        absurd (
          let r : err (Error.transfer_length_mismatch n (length got)) ≡ ok bytes = rw (e) at h in
          cc)
    | inr e ↦ ((let r : ok got ≡ ok bytes = rw (e) at h in cc), ground (arith, e))
  ]

  full_read-Keeps : (n : ℕ) (got : List ℕ) → Keeps (full_read n got)
  unfolding full_read
  full_read-Keeps n got bus a = elim (Bool-cases (ltb (length got) n)) [
    | inl e ↦ rw (e) refl
    | inr e ↦ rw (e) refl
  ]

  pub spiflash_read-Keeps : (address n : ℕ) → Keeps (spiflash_read t address n)
  unfolding spiflash_read vendor_in full_read
  spiflash_read-Keeps address n bus a = elim (Bool-cases (ltb u16_max n)) [
    | inl e ↦ rw (e) refl
    | inr e ↦ rw (e) (
        >>=-Keeps (vendor_in t Command.spiflash_read (address_high address) (address_low address) n)
          (full_read n) (λ b c. chip.read_keeps b (address_high address) (address_low address) n c)
          (full_read-Keeps n) bus a)
  ]

  pub spiflash_read-cells :
      (address n : ℕ) (bus : Bus) {bytes : List ℕ}
      → address < 2 ^ 32
      → (spiflash_read t address n bus).0 ≡ ok bytes
      → bytes ≡ cells (chip.image bus) address n
  unfolding spiflash_read vendor_in full_read
  spiflash_read-cells address n bus {bytes} small h = elim (Bool-cases (ltb u16_max n)) [
    | inl e ↦ absurd (let r : err Error.invalid_param ≡ ok bytes = rw (e) at h in cc)
    | inr e ↦
        let s =
          bind-inv
            (vendor_in t Command.spiflash_read (address_high address) (address_low address) n)
            (full_read n) bus (rw (e) at h) in
        let got = full_read-inv n s.0 _ s.3 in
        let seen = chip.reads bus (address_high address) (address_low address) n s.0 s.1 in
        sym got.0
        ∙ (seen.1
            ∙ ap₂ (cells (chip.image bus)) (address-together address small)
                (omega (arith, got.1, seen.0)))
  ]

  pub read_chunks-Keeps : (cs : List (ℕ × ℕ)) → Keeps (read_chunks t cs)
  unfolding read_chunks
  read_chunks-Keeps [] = λ bus a. refl
  read_chunks-Keeps (c ∷ cs) =
      >>=-Keeps (spiflash_read t c.0 c.1)
        (λ bytes. read_chunks t cs >>= λ rest. pure (bytes ++ rest)) (spiflash_read-Keeps c.0 c.1)
        (λ bytes.
          >>=-Keeps (read_chunks t cs) (λ rest. pure (bytes ++ rest)) (read_chunks-Keeps cs)
            (λ rest bus a. refl))

  pub read_chunks-cells :
      (cs : List (ℕ × ℕ)) (address remaining : ℕ) (bus : Bus) {bytes : List ℕ}
      → Tiles address remaining cs
      → address + remaining ≤ 0x100000
      → (read_chunks t cs bus).0 ≡ ok bytes
      → bytes ≡ cells (chip.image bus) address remaining
  unfolding read_chunks
  read_chunks-cells [] address remaining bus {bytes} tiles small h =
      (let e : [] ≡ bytes = cc in sym e) ∙ ap (cells (chip.image bus) address) (sym tiles)
  read_chunks-cells (c ∷ cs) address remaining bus {bytes} tiles small h =
      let s =
        bind-inv (spiflash_read t c.0 c.1)
          (λ first. read_chunks t cs >>= λ rest. pure (first ++ rest)) bus h in
      let bus' = (spiflash_read t c.0 c.1 bus).1 in
      let r = bind-inv (read_chunks t cs) (λ rest. pure (s.0 ++ rest)) bus' s.3 in
      let joined : s.0 ++ r.0 ≡ bytes = (let e : ok (s.0 ++ r.0) ≡ ok bytes = r.3 in cc) in
      let first = spiflash_read-cells c.0 c.1 bus (omega (arith, tiles.0, small)) s.1 in
      let rest =
        read_chunks-cells cs (address + c.1) (remaining - c.1) bus' tiles.4
          (omega (arith, small, tiles.3)) r.1 in
      sym joined
      ∙ (ap₂ (λ xs ys. xs ++ ys) (first ∙ ap (λ a. cells (chip.image bus) a c.1) tiles.0)
            (rest
              ∙ cells-ext (chip.image bus') (chip.image bus) (address + c.1) (remaining - c.1)
                  (λ b l. spiflash_read-Keeps c.0 c.1 bus b))
          ∙ (sym (cells-append (chip.image bus) address c.1 (remaining - c.1))
              ∙ ap (cells (chip.image bus) address) (omega (arith, tiles.3))))
