-- ===== src/Device/Control/Fields.antt =====
-- The packing of a GPIO port and pin, and of a frequency, into a request (control.rs).
use Prim.Native.Nat.{bit_or}
use libairspy_rs.Base.{◌+◌, ◌*◌, ◌/◌, ◌%◌, ◌^◌, ◌<◌, ◌≡◌, ap, ◌∙◌, some, get_elem?, arith}
use libairspy_rs.Base.Bits.{bit_or_disjoint}
use libairspy_rs.Commands.{GpioPort, GpioPin, port_byte, pin_byte}
use libairspy_rs.Commands.Codes.{all_ports, all_pins, port_byte-lookup, pin_byte-lookup}
use libairspy_rs.Device.Control.{port_pin}

pub port_pin-sum :
    (port : GpioPort) (pin : GpioPin) → port_pin port pin ≡ port_byte port * 32 + pin_byte pin
unfolding port_pin
port_pin-sum port pin =
    ap (λ n. bit_or n (pin_byte pin)) {x = port_byte port * 2 ^ 5 % 256} fits
    ∙ bit_or_disjoint 5 (port_byte port) (pin_byte pin) (pin_byte-lookup pin).1
  where
    fits : port_byte port * 2 ^ 5 % 256 ≡ port_byte port * 2 ^ 5
    fits = omega (arith, (port_byte-lookup port).1)

-- Every port and pin can be read back from the packed index, which fits a byte: no two pins share one.
pub port_pin-lookup :
    (port : GpioPort) (pin : GpioPin)
    → (get_elem? all_ports (port_pin port pin / 32) ≡ some port)
      × (get_elem? all_pins (port_pin port pin % 32) ≡ some pin)
      × (port_pin port pin < 256)
port_pin-lookup port pin = (
  ap (get_elem? all_ports) high ∙ (port_byte-lookup port).0,
  ap (get_elem? all_pins) low ∙ (pin_byte-lookup pin).0,
  omega (arith, port_pin-sum port pin, (port_byte-lookup port).1, (pin_byte-lookup pin).1),
)
  where
    high : port_pin port pin / 32 ≡ port_byte port
    high = omega (arith, port_pin-sum port pin, (pin_byte-lookup pin).1)

    low : port_pin port pin % 32 ≡ pin_byte pin
    low = omega (arith, port_pin-sum port pin, (pin_byte-lookup pin).1)
