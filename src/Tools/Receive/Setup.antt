-- ===== src/Tools/Receive/Setup.antt =====
-- crates/airspy-tools/src/bin/airspy_rx.rs, the device before its stream: the configuration that ends at its
-- first failure, and the gains, whose failures are only reported. Opening enumerates and is left to the
-- caller; a device that is given up is dropped.
pub mod Rates
pub mod Configuring
use libairspy_rs.Base.{ℕ, ◌%◌, ◌^◌, Bool, true, false, Option, none, some, if◌then◌else◌}
use libairspy_rs.Error.{Result, ok, err}
use libairspy_rs.Transport.{UsbTransport, Bus, Wire}
use libairspy_rs.Device.{Device}
use libairspy_rs.Device.Board.{PartIdSerial, partid_serialno}
use libairspy_rs.Device.Control.{
  set_samplerate, set_packing, set_rf_bias, set_vga_gain, set_mixer_gain, set_lna_gain,
  set_linearity_gain, set_sensitivity_gain,
}
use libairspy_rs.Device.Lifecycle.{samplerates, set_sample_type, drop_device}
use libairspy_rs.Tools.Receive.{resolve_display_rate}
use libairspy_rs.Tools.Receive.Config.{Config}

-- The device with the rate for the header and the display; none where the tool gives up.
abbrev pub Configured : Type 0
Configured = Option (Device × ℕ) × Bus

module _ (t : UsbTransport) (c : Config) where
  abbrev pub given_up : Device → Bus → Configured
  given_up d bus = (none, drop_device t d bus)

  -- `?` on a request: the next step, if the request succeeded.
  abbrev pub next {ℓ} : {A : Type ℓ} → Result A × Bus → Device → (Bus → Configured) → Configured
  next (ok a, bus) d k = k bus
  next (err e, bus) d k = given_up d bus

  abbrev pub bias_step : Device → ℕ → Bus → Configured
  bias_step d rate bus = next (set_rf_bias t c.biast bus) d (λ b. (some (d, rate), b))

  abbrev pub after_packing : (Result (Unit {0}) × Device) × Bus → ℕ → Configured
  after_packing ((ok u, d), bus) rate = bias_step d rate bus
  after_packing ((err e, d), bus) rate = given_up d bus

  abbrev pub packing_step : Device → ℕ → Bus → Configured
  packing_step d rate bus =
      if c.call_set_packing
      then after_packing (set_packing t d c.packing bus) rate
      else bias_step d rate bus

  abbrev pub rate_steps : Device → Option ℕ → Bus → Configured
  rate_steps d none bus = given_up d bus
  rate_steps d (some rate) bus =
      next (set_samplerate t d c.sample_rate_val bus) d
        (λ b. next (partid_serialno t b) d (packing_step d rate))

  abbrev pub type_step : Result (Unit {0}) × Device → Bus → Configured
  type_step (ok u, d) bus =
      rate_steps d (resolve_display_rate c.sample_rate_val (samplerates d)) bus
  type_step (err e, d) bus = given_up d bus

  -- From the answer of `Device::open` on.
  unfoldable pub open_configured_device : Option Device → Bus → Configured
  open_configured_device none bus = (none, bus)
  open_configured_device (some d) bus = type_step (set_sample_type d c.sample_type) bus

  -- A gain whose failure does not stop the others; `as u8`.
  abbrev pub try_gain : (ℕ → Wire (Unit {0})) → ℕ → Bus → Bus
  try_gain set gain bus = (set (gain % 2 ^ 8) bus).1

  abbrev pub try_given : (ℕ → Wire (Unit {0})) → Option ℕ → Bus → Bus
  try_given set none bus = bus
  try_given set (some gain) bus = try_gain set gain bus

  abbrev pub single_gains : Bus → Bus
  single_gains bus =
      try_gain (set_lna_gain t) c.lna_gain
        (try_gain (set_mixer_gain t) c.mixer_gain (try_gain (set_vga_gain t) c.vga_gain bus))

  abbrev pub gains_by : Option ℕ → Option ℕ → Bus → Bus
  gains_by none none bus = single_gains bus
  gains_by linearity sensitivity bus =
      try_given (set_sensitivity_gain t) sensitivity
        (try_given (set_linearity_gain t) linearity bus)

  unfoldable pub apply_gains : Bus → Bus
  apply_gains bus = gains_by c.linearity_gain c.sensitivity_gain bus
