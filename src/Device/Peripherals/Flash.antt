-- ===== src/Device/Peripherals/Flash.antt =====
-- The SPI flash of crates/libairspy/src/peripherals.rs: what a write puts on the wire.
use libairspy_rs.Base.{
  ℕ, ◌+◌, ◌*◌, ◌^◌, ◌≤◌, ◌<◌, ◌≡◌, refl, List, ◌∷◌, length, ltb, arith, Bool-cases, inl, inr, ◌⊎◌,
}
use libairspy_rs.Base.Bits.{bit_and_ones}
use libairspy_rs.Commands.{Command}
use libairspy_rs.Error.{Error, err}
use libairspy_rs.Transport.{UsbTransport, Bus, control_out}
use libairspy_rs.Device.Requests.{out_setter-Makes}
use libairspy_rs.Device.Peripherals.{
  spiflash_write, address_high, address_low, spiflash_max_address, u16_max,
}

-- The two halves of an address give it back.
pub address-together :
    (address : ℕ) → address < 2 ^ 32 → address_high address * 2 ^ 16 + address_low address ≡ address
address-together address h = ground (arith, h, bit_and_ones 16 address)

-- A write that is sent: the device puts the address together again from the two halves.
pub record Sends (t : UsbTransport) (address : ℕ) (bytes : List ℕ) (bus : Bus) : Type 0 where
  pub high : ℕ
  pub low : ℕ
  pub high_fits : high < 16
  pub low_fits : low < 2 ^ 16
  pub together : high * 2 ^ 16 + low ≡ address
  pub on_wire :
      (spiflash_write t address bytes bus).1
      ≡ control_out Command.spiflash_write high low bytes ∷ bus

-- A refused write: an error, and nothing on the wire.
abbrev pub Refuses : UsbTransport → ℕ → List ℕ → Bus → Type 0
Refuses t address bytes bus = spiflash_write t address bytes bus ≡ (err Error.invalid_param, bus)

-- What a write does, by its arguments.
abbrev pub WriteVerdict : UsbTransport → ℕ → List ℕ → Bus → Type 0
WriteVerdict t address bytes bus =
    ((address ≤ 0xfffff) × (length bytes ≤ 65535) × Sends t address bytes bus)
    ⊎ (((0xfffff < address) ⊎ (65535 < length bytes)) × Refuses t address bytes bus)

-- `spiflash_write` either sends one request, whose two 16-bit fields give the address back exactly, for
-- an address of at most 0xFFFFF and at most 65535 bytes, or refuses the arguments with `InvalidParam`
-- and touches nothing.
pub spiflash_write-verdict :
    (t : UsbTransport) (address : ℕ) (bytes : List ℕ) (bus : Bus) → WriteVerdict t address bytes bus
unfolding spiflash_write
spiflash_write-verdict t address bytes bus = elim (Bool-cases (ltb spiflash_max_address address)) [
  | inl a ↦ inr (inl (ground (arith, a)), rw (a) refl)
  | inr a ↦ elim (Bool-cases (ltb u16_max (length bytes))) [
    | inl b ↦ inr (inr (ground (arith, b)), rw (a, b) refl)
    | inr b ↦ inl (
      ground (arith, a),
      ground (arith, b),
      record {
        high = address_high address;
        low = address_low address;
        high_fits = ground (arith, a);
        low_fits = omega arith;
        together = address-together address (ground (arith, a));
        on_wire =
            rw (a, b)
              (out_setter-Makes t Command.spiflash_write (address_high address)
                (address_low address) bytes bus);
      },
    )
  ]
]
