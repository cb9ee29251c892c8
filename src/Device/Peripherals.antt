-- ===== src/Device/Peripherals.antt =====
-- crates/libairspy/src/peripherals.rs: registers, GPIO and SPI flash.
pub mod Flash
use Prim.Native.Nat.{bit_and}
use libairspy_rs.Base.{ℕ, ◌%◌, ◌^◌, ◌+◌, List, [], length, ltb, if◌then◌else◌, Bool}
use libairspy_rs.Base.Bits.{shr}
use libairspy_rs.Commands.{Command, GpioPort, GpioPin}
use libairspy_rs.Error.{Error}
use libairspy_rs.Transport.{UsbTransport, Wire, ◌>>=◌, pure, fail}
use libairspy_rs.Device.{out_setter, in_byte, vendor_in, no_wvalue, no_windex}
use libairspy_rs.Device.Control.{port_pin}

abbrev pub spiflash_max_address : ℕ
spiflash_max_address = 0x0fffff

abbrev pub u16_max : ℕ
u16_max = 65535

-- The address as `wValue` and `wIndex`.
abbrev pub address_high : ℕ → ℕ
address_high address = shr address 16 % 2 ^ 16

abbrev pub address_low : ℕ → ℕ
address_low address = bit_and address 0xffff % 2 ^ 16

module _ (t : UsbTransport) where
  unfoldable pub si5351c_write : ℕ → ℕ → Wire (Unit {0})
  si5351c_write register value = out_setter t Command.si5351c_write value register []

  unfoldable pub si5351c_read : ℕ → Wire ℕ
  si5351c_read register = in_byte t Command.si5351c_read register

  unfoldable pub r820t_write : ℕ → ℕ → Wire (Unit {0})
  r820t_write register value = out_setter t Command.r820t_write value register []

  unfoldable pub r820t_read : ℕ → Wire ℕ
  r820t_read register = in_byte t Command.r820t_read register

  unfoldable pub gpio_read : GpioPort → GpioPin → Wire ℕ
  gpio_read port pin = in_byte t Command.gpio_read (port_pin port pin)

  unfoldable pub gpiodir_write : GpioPort → GpioPin → ℕ → Wire (Unit {0})
  gpiodir_write port pin value = out_setter t Command.gpiodir_write value (port_pin port pin) []

  unfoldable pub gpiodir_read : GpioPort → GpioPin → Wire ℕ
  gpiodir_read port pin = in_byte t Command.gpiodir_read (port_pin port pin)

  unfoldable pub spiflash_erase : Wire (Unit {0})
  spiflash_erase = out_setter t Command.spiflash_erase no_wvalue no_windex []

  unfoldable pub spiflash_erase_sector : ℕ → Wire (Unit {0})
  spiflash_erase_sector sector = out_setter t Command.spiflash_erase_sector sector no_windex []

  unfoldable pub spiflash_write : ℕ → List ℕ → Wire (Unit {0})
  spiflash_write address bytes =
      if ltb spiflash_max_address address
      then fail Error.invalid_param
      else if ltb u16_max (length bytes)
      then fail Error.invalid_param
      else out_setter t Command.spiflash_write (address_high address) (address_low address) bytes

  -- Into a buffer of `len` bytes.
  unfoldable pub spiflash_read : ℕ → ℕ → Wire (List ℕ)
  spiflash_read address len =
      if ltb u16_max len
      then fail Error.invalid_param
      else vendor_in t Command.spiflash_read (address_high address) (address_low address) len
        >>= λ bytes.
            if ltb (length bytes) len
            then fail (Error.transfer_length_mismatch len (length bytes))
            else pure bytes
