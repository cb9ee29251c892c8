-- ===== src/Tools/Flash.antt =====
-- crates/airspy-tools/src/flash_cli.rs: the range check and the walk of a flash transfer.
use libairspy_rs.Base.{
  ℕ, zero, suc, ◌+◌, ◌-◌, ◌≤◌, min, ◌==◌, ◌≡◌, refl, List, [], ◌∷◌, All, ltb, if◌then◌else◌, arith,
  Bool-cases, inl, inr,
}

abbrev pub max_length : ℕ
max_length = 0x100000

abbrev pub xfer_chunk : ℕ
xfer_chunk = 256

pub data RangeCheck : Type 0 where
  valid zero_length exceeds_flash : RangeCheck

unfoldable pub validate_range : ℕ → ℕ → RangeCheck
validate_range address length =
    if length == 0
    then zero_length
    else if ltb max_length (address + length)
    then exceeds_flash
    else valid

-- The iterator's items, on fuel; the address of a validated range stays far below 2^32.
unfoldable pub chunks_from : ℕ → ℕ → ℕ → List (ℕ × ℕ)
chunks_from zero address remaining = []
chunks_from (suc fuel) address remaining =
    let xfer = min remaining xfer_chunk in
    let rest = chunks_from fuel (address + xfer) (remaining - xfer) in
    if remaining == 0 then [] else (address, xfer) ∷ rest

-- Every transfer takes a byte at least, so a range has no more transfers than bytes.
unfoldable pub transfer_chunks : ℕ → ℕ → List (ℕ × ℕ)
transfer_chunks address length = chunks_from length address length

-- The transfers cover exactly the `remaining` bytes from `address` on, one behind the other, each of 1 to
-- 256 bytes.
abbrev pub Tiles : ℕ → ℕ → List (ℕ × ℕ) → Type 0
Tiles address remaining [] = remaining ≡ 0
Tiles address remaining (c ∷ cs) =
    (c.0 ≡ address)
    × (1 ≤ c.1)
    × (c.1 ≤ 256)
    × (c.1 ≤ remaining)
    × Tiles (address + c.1) (remaining - c.1) cs

chunks_from-Tiles :
    (fuel address remaining : ℕ)
    → remaining ≤ fuel
    → Tiles address remaining (chunks_from fuel address remaining)
unfolding chunks_from
chunks_from-Tiles zero address remaining h = omega arith
chunks_from-Tiles (suc fuel) address remaining h =
    let rest =
      chunks_from-Tiles fuel (address + min remaining 256) (remaining - min remaining 256) in
    elim (Bool-cases (remaining == 0)) [
      | inl e ↦ rw (e) (ground (arith, e))
      | inr e ↦ rw (e) (refl, ground (arith, e), omega arith, omega arith, rest (ground (arith, e)))
    ]

-- A transfer that `spiflash_write` takes: its address and its end are in the flash.
abbrev pub InFlash : ℕ × ℕ → Type 0
InFlash c = (c.0 ≤ 0xfffff) × (c.0 + c.1 ≤ 0x100000)

Tiles-InFlash :
    (cs : List (ℕ × ℕ)) (address remaining : ℕ)
    → Tiles address remaining cs
    → address + remaining ≤ 0x100000
    → All InFlash cs
Tiles-InFlash [] address remaining h b = tt
Tiles-InFlash (c ∷ cs) address remaining h b = (
  (omega (arith, h.0, h.1, h.3, b), omega (arith, h.0, h.3, b)),
  Tiles-InFlash cs (address + c.1) (remaining - c.1) h.4 (omega (arith, h.3, b)),
)

-- The transfers of a range that passes the check cover exactly its bytes, in order and in blocks of at most
-- 256, and none of them has an address that `spiflash_write` refuses or reaches beyond the flash.
pub transfer_chunks-Tiles :
    (address length : ℕ)
    → validate_range address length ≡ valid
    → Tiles address length (transfer_chunks address length)
      × All InFlash (transfer_chunks address length)
unfolding validate_range transfer_chunks
transfer_chunks-Tiles address length h = (
  tiled,
  Tiles-InFlash (chunks_from length address length) address length tiled (ground (arith, h)),
)
  where
    tiled : Tiles address length (chunks_from length address length)
    tiled = chunks_from-Tiles length address length (omega arith)
