-- ===== src/Tools/Receive/Setup/Configuring.antt =====
-- What crates/airspy-tools/src/bin/airspy_rx.rs leaves of a configuration that succeeds: the device, the rate
-- for the file and the requests.
use libairspy_rs.Base.{ℕ, ◌+◌, ◌*◌, ◌≡◌, Bool, [], ◌∷◌, if◌then◌else◌}
use libairspy_rs.Error.{Error}
use libairspy_rs.Transport.{UsbTransport, Bus, Call, control_in, control_out, clear_halt}
use libairspy_rs.Commands.{Command, port_byte, pin_byte, port1, pin13}
use libairspy_rs.Device.{Device}
use libairspy_rs.Device.Control.{flag, set_packing, gpio_write}
use libairspy_rs.Device.Control.Rates.{rate_request}
use libairspy_rs.Tools.Receive.Config.{Config}
use libairspy_rs.Tools.Receive.Setup.Rates.{Agrees}

-- The requests of a configuration, the last one first, in front of those before it.
abbrev pub packing_requests : Config → Bus → Bus
packing_requests c bus =
    if c.call_set_packing then control_in Command.set_packing 0 (flag c.packing) 1 ∷ bus else bus

abbrev pub configured_by : Config → Device → Bus → Bus
configured_by c d bus =
    control_out Command.gpio_write (flag c.biast) (port_byte port1 * 32 + pin_byte pin13) []
    ∷ packing_requests c (
        control_in Command.board_part_id_serial_no_read 0 0 24
        ∷ rate_request d c.sample_rate_val
        ∷ clear_halt 0x81
        ∷ bus)

-- What a configured device is, and what is on the wire `after` it where `before` was there.
pub record Ready (c : Config) (d d' : Device) (rate : ℕ) (before after : Bus) : Type 0 where
  pub wire : after ≡ configured_by c d' before
  pub typed : d'.sample_type ≡ c.sample_type
  pub table : d'.supported_samplerates ≡ d.supported_samplerates
  pub idle : d'.workers ≡ d.workers
  pub packed : d'.packing_enabled ≡ (if c.call_set_packing then c.packing else d.packing_enabled)
  pub rates : Agrees d' c.sample_rate_val rate

module _ (t : UsbTransport) (c : Config) where
  abbrev packed_as : Device → Bool → Device
  packed_as d b = record d { packing_enabled = b }

  abbrev packed_by : Device → Device
  packed_by d = packed_as d (if c.call_set_packing then c.packing else d.packing_enabled)

  abbrev bias_request : Call
  bias_request =
      control_out Command.gpio_write (flag c.biast) (port_byte port1 * 32 + pin_byte pin13) []
