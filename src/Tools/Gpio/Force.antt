-- ===== src/Tools/Gpio/Force.antt =====
-- crates/airspy-tools/src/bin/airspy_gpiodir.rs: directions are not written unless that is confirmed.
use libairspy_rs.Base.{◌+◌, ◌*◌, ◌∷◌}
use libairspy_rs.Commands.{Command, GpioPort, GpioPin, port_byte, pin_byte}
use libairspy_rs.Transport.{Bus, Wire, control_in}
use libairspy_rs.Device.Control
use libairspy_rs.Device.Peripherals.{gpiodir_read}

-- The wire after requests that read a pin's direction: other IN requests of this protocol set something.
pub data OnlyReads (from : Bus) : Bus → Type 0 where
  nothing : OnlyReads from from
  asked :
      {bus : Bus} (at : GpioPort) (on : GpioPin)
      → OnlyReads from bus
      → OnlyReads from (control_in Command.gpiodir_read 0 (port_byte at * 32 + pin_byte on) 1 ∷ bus)

-- A computation that only reads.
abbrev pub Quiet : Wire (Unit {0}) → Type 0
Quiet m = (from bus : Bus) → OnlyReads from bus → OnlyReads from (m bus).1
