-- ===== src/Tools/Spiflash/Effect.antt =====
-- What a whole run of bin/airspy_spiflash.rs leaves in the flash and in the file.
use libairspy_rs.Base.{
  ℕ, ◌≡◌, refl, ap, ◌∙◌, Bool, true, false, Option, none, some, List, Bool-cases, Option-cases, inl,
  inr,
}
use libairspy_rs.Error.{Result, ok, err}
use libairspy_rs.Transport.{UsbTransport, Bus}
use libairspy_rs.Tools.Chip.{cells, overlay, Chip}
use libairspy_rs.Tools.Flash.{transfer_chunks, transfer_chunks-Tiles, validate_range, valid}
use libairspy_rs.Tools.Receive.Capture.{WriteAnswer, in_full, fails_after}
use libairspy_rs.Tools.Spiflash.{
  FlashArgs, Outside, resolved, resolve_operation, is_valid, load_write_file, read_chunks,
  write_flash, read_flash, filled, succeeded, main_of, spiflash_main,
}
use libairspy_rs.Tools.Spiflash.Loading.{Loads, is_valid-inv, load_write_file-Loads}
use libairspy_rs.Tools.Spiflash.Programming.{write_flash-Programs, valid-small}
use libairspy_rs.Tools.Spiflash.Reading.{read_chunks-Keeps, read_chunks-cells}

filled-inv :
    (t : UsbTransport) (answer : WriteAnswer) (r : Result (List ℕ))
    → (filled t answer r).0 ≡ true
    → (bytes : List ℕ) × (r ≡ ok bytes) × ((filled t answer r).1 ≡ some bytes)
filled-inv t in_full (ok bytes) h = (bytes, refl, refl)
filled-inv t (fails_after n) (ok bytes) h = absurd (let e : false ≡ true = h in cc)
filled-inv t answer (err e) h = absurd (let e : false ≡ true = h in cc)

succeeded-inv : (t : UsbTransport) (r : Result (Unit {0})) → succeeded t r ≡ true → r ≡ ok tt
succeeded-inv t (ok u) h = refl
succeeded-inv t (err e) h = absurd (let e : false ≡ true = h in cc)

-- The operation that a run resolves to.
is_forced : Option (List ℕ × Bool) → Bool
is_forced none = false
is_forced (some p) = p.1

module _ (t : UsbTransport) (chip : Chip t) where
  read_flash-cells :
      (a : FlashArgs) (o : Outside) (bus : Bus)
      → validate_range a.address a.range_length ≡ valid
      → (read_flash t o.creates o.answer a.address a.range_length bus).0.0 ≡ true
      → (read_flash t o.creates o.answer a.address a.range_length bus).0.1
        ≡ some (cells (chip.image bus) a.address a.range_length)
  unfolding read_flash
  read_flash-cells a o bus v h = elim (Bool-cases o.creates) [
    | inl c ↦
        let r =
          filled-inv t o.answer (read_chunks t (transfer_chunks a.address a.range_length) bus).0
            (rw (c) at h) in
        rw (c) (
          r.2
          ∙ ap some (
              read_chunks-cells t chip (transfer_chunks a.address a.range_length) a.address
                a.range_length bus (transfer_chunks-Tiles a.address a.range_length v).0
                (valid-small a.address a.range_length v) r.1))
    | inr c ↦ absurd (let e : false ≡ true = rw (c) at h in cc)
  ]

  read_flash-Keeps :
      (a : FlashArgs) (o : Outside) (bus : Bus) (b : ℕ)
      → chip.image (read_flash t o.creates o.answer a.address a.range_length bus).1 b
        ≡ chip.image bus b
  unfolding read_flash
  read_flash-Keeps a o bus b = elim (Bool-cases o.creates) [
    | inl c ↦ rw (c) (read_chunks-Keeps t chip (transfer_chunks a.address a.range_length) bus b)
    | inr c ↦ rw (c) refl
  ]

  -- A run that is not a forced write.
  main_of-Keeps :
      (a : FlashArgs) (o : Outside) (bus : Bus) (r : Option (List ℕ × Bool)) (b : ℕ)
      → is_forced r ≡ false
      → chip.image (main_of t a o r bus).1 b ≡ chip.image bus b
  unfolding is_forced read_flash
  main_of-Keeps a o bus none b h = refl
  main_of-Keeps a o bus (some (path, true)) b h = cc
  main_of-Keeps a o bus (some (path, false)) b h =
      elim (Bool-cases (is_valid (validate_range a.address a.range_length))) [
        | inl v ↦ elim (Bool-cases o.device_opens) [
          | inl d ↦ rw (v, d) (read_flash-Keeps a o bus b)
          | inr d ↦ rw (v, d) refl
        ]
        | inr v ↦ rw (v) refl
      ]

  main_of-reads :
      (a : FlashArgs) (o : Outside) (bus : Bus) (path : List ℕ)
      → (main_of t a o (some (path, false)) bus).0.0 ≡ true
      → (main_of t a o (some (path, false)) bus).0.1
        ≡ some (cells (chip.image bus) a.address a.range_length)
  main_of-reads a o bus path h =
      elim (Bool-cases (is_valid (validate_range a.address a.range_length))) [
        | inl v ↦ elim (Bool-cases o.device_opens) [
          | inl d ↦
              rw (v, d)
                (read_flash-cells a o bus (is_valid-inv (validate_range a.address a.range_length) v)
                  (rw (v, d) at h))
          | inr d ↦ absurd (let e : false ≡ true = rw (v, d) at h in cc)
        ]
        | inr v ↦ absurd (let e : false ≡ true = rw (v) at h in cc)
      ]

  -- What a forced write that succeeds has done.
  pub record Written (a : FlashArgs) (o : Outside) (after : Bus) : Type 0 where
    pub bytes : List ℕ
    pub loads : Loads o.source a.address bytes
    pub programs : (b : ℕ) → chip.image after b ≡ overlay a.address bytes (λ c. 255) b

  main_of-Written :
      (a : FlashArgs) (o : Outside) (bus : Bus) (path : List ℕ)
      → (main_of t a o (some (path, true)) bus).0.0 ≡ true
      → Written a o (main_of t a o (some (path, true)) bus).1
  main_of-Written a o bus path h = elim (Option-cases (load_write_file o.source a.address)) [
    | inl n ↦ absurd (let e : false ≡ true = rw (n) at h in cc)
    | inr p ↦ elim (Bool-cases o.device_opens) [
      | inl d ↦
          let loads = load_write_file-Loads o.source a.address p.1 in
          rw (p.1, d)
            (record {
              bytes = p.0;
              loads = loads;
              programs =
                  write_flash-Programs t chip a.address p.0 bus loads.range
                    (succeeded-inv t (write_flash t a.address p.0 bus).0 (rw (p.1, d) at h));
            })
      | inr d ↦ absurd (let e : false ≡ true = rw (p.1, d) at h in cc)
    ]
  ]

  by_options :
      (a : FlashArgs) (o : Outside) (bus : Bus) (r w : Option (List ℕ)) (force : Bool)
      → let run = main_of t a o (resolved r w force) bus in
        ((path : List ℕ) → w ≡ some path → force ≡ false → run ≡ ((false, none), bus))
        × (w ≡ none
            → ((b : ℕ) → chip.image run.1 b ≡ chip.image bus b)
              × (run.0.0 ≡ true → run.0.1 ≡ some (cells (chip.image bus) a.address a.range_length)))
        × ((path : List ℕ) → w ≡ some path → run.0.0 ≡ true → Written a o run.1)
  unfolding is_forced
  by_options a o bus (some r) (some w) force =
      (λ p e f. refl, λ e. absurd (cc), λ p e h. absurd (let x : false ≡ true = h in cc))
  by_options a o bus none none force = (
    λ p e f. refl,
    λ e. (λ b. refl, λ h. absurd (let x : false ≡ true = h in cc)),
    λ p e h. absurd (let x : false ≡ true = h in cc),
  )
  by_options a o bus (some r) none force = (
    λ p e f. absurd (let x : none ≡ some p = e in cc),
    λ e. (λ b. main_of-Keeps a o bus (some (r, false)) b refl, main_of-reads a o bus r),
    λ p e h. absurd (let x : none ≡ some p = e in cc),
  )
  by_options a o bus none (some w) true = (
    λ p e f. absurd (let x : true ≡ false = f in cc),
    λ e. absurd (let x : some w ≡ none = e in cc),
    λ p e h. main_of-Written a o bus w h,
  )
  by_options a o bus none (some w) false = (
    λ p e f. refl,
    λ e. absurd (let x : some w ≡ none = e in cc),
    λ p e h. absurd (let x : false ≡ true = h in cc),
  )

  -- A run, whatever its options and however the device and the files answer. A `-w` without `--force` ends
  -- at once. Without a `-w` the flash keeps its bytes, and an exit in order means that the file holds those
  -- of the range. A `-w` that exits in order has left the bytes of its file at their addresses, and
  -- everything else erased.
  pub spiflash_main-Effect :
      (a : FlashArgs) (o : Outside) (bus : Bus)
      → let run = spiflash_main t a o bus in
        ((path : List ℕ) → a.write_path ≡ some path → a.force ≡ false → run ≡ ((false, none), bus))
        × (a.write_path ≡ none
            → ((b : ℕ) → chip.image run.1 b ≡ chip.image bus b)
              × (run.0.0 ≡ true → run.0.1 ≡ some (cells (chip.image bus) a.address a.range_length)))
        × ((path : List ℕ) → a.write_path ≡ some path → run.0.0 ≡ true → Written a o run.1)
  unfolding spiflash_main resolve_operation
  spiflash_main-Effect a o bus = by_options a o bus a.read_path a.write_path a.force
