-- ===== src/Device/Control.antt =====
-- crates/libairspy/src/control.rs: the setters.
pub mod Gains
pub mod Fields
pub mod Rates
pub mod Tuning
use Prim.Native.Nat.{bit_or}
use libairspy_rs.Base.{
  ℕ, zero, suc, ◌+◌, ◌-◌, ◌*◌, ◌/◌, ◌%◌, ◌^◌, min, ◌==◌, Bool, true, false, Option, none, some,
  List, [], ◌∷◌, leb, if◌then◌else◌, get_or,
}
use libairspy_rs.Base.Bits.{shl}
use libairspy_rs.Base.Bytes.{to_le}
use libairspy_rs.Commands.{
  Command, SampleType, GpioPort, GpioPin, port_byte, pin_byte, float32_iq, int16_iq,
}
use libairspy_rs.Error.{Error, Result, ok, err}
use libairspy_rs.Transport.{UsbTransport, Bus, Wire, ◌>>=◌, ◌>>◌, pure, clear_halt}
use libairspy_rs.Device.{
  Device, is_streaming, out_setter, in_setter, no_wvalue, no_windex, bulk_endpoint, perform,
}

abbrev pub min_samplerate_by_value : ℕ
min_samplerate_by_value = 1000000

abbrev pub gain_count : ℕ
gain_count = 22

abbrev pub linearity_vga_gains : List ℕ
linearity_vga_gains =
    13 ∷ 12 ∷ 11 ∷ 11 ∷ 11 ∷ 11 ∷ 11 ∷ 10 ∷ 10 ∷ 10 ∷ 10 ∷ 10 ∷ 10 ∷ 10 ∷ 10 ∷ 10 ∷ 9 ∷ 8 ∷ 7 ∷ 6
    ∷ 5 ∷ 4 ∷ []

abbrev pub linearity_mixer_gains : List ℕ
linearity_mixer_gains =
    12 ∷ 12 ∷ 11 ∷ 9 ∷ 8 ∷ 7 ∷ 6 ∷ 6 ∷ 5 ∷ 0 ∷ 0 ∷ 1 ∷ 0 ∷ 0 ∷ 2 ∷ 2 ∷ 1 ∷ 1 ∷ 1 ∷ 1 ∷ 0 ∷ 0 ∷ []

abbrev pub linearity_lna_gains : List ℕ
linearity_lna_gains =
    14 ∷ 14 ∷ 14 ∷ 13 ∷ 12 ∷ 10 ∷ 9 ∷ 9 ∷ 8 ∷ 9 ∷ 8 ∷ 6 ∷ 5 ∷ 3 ∷ 1 ∷ 0 ∷ 0 ∷ 0 ∷ 0 ∷ 0 ∷ 0 ∷ 0 ∷ []

abbrev pub sensitivity_vga_gains : List ℕ
sensitivity_vga_gains =
    13 ∷ 12 ∷ 11 ∷ 10 ∷ 9 ∷ 8 ∷ 7 ∷ 6 ∷ 5 ∷ 5 ∷ 5 ∷ 5 ∷ 5 ∷ 4 ∷ 4 ∷ 4 ∷ 4 ∷ 4 ∷ 4 ∷ 4 ∷ 4 ∷ 4 ∷ []

abbrev pub sensitivity_mixer_gains : List ℕ
sensitivity_mixer_gains =
    12 ∷ 12 ∷ 12 ∷ 12 ∷ 11 ∷ 10 ∷ 10 ∷ 9 ∷ 9 ∷ 8 ∷ 7 ∷ 4 ∷ 4 ∷ 4 ∷ 3 ∷ 2 ∷ 2 ∷ 1 ∷ 0 ∷ 0 ∷ 0 ∷ 0
    ∷ []

abbrev pub sensitivity_lna_gains : List ℕ
sensitivity_lna_gains =
    14 ∷ 14 ∷ 14 ∷ 14 ∷ 14 ∷ 14 ∷ 14 ∷ 14 ∷ 14 ∷ 13 ∷ 12 ∷ 12 ∷ 9 ∷ 9 ∷ 8 ∷ 7 ∷ 6 ∷ 5 ∷ 3 ∷ 2 ∷ 1
    ∷ 0 ∷ []

abbrev pub lna_gain_max : ℕ
lna_gain_max = 14

abbrev pub mixer_vga_gain_max : ℕ
mixer_vga_gain_max = 15

-- `u16::from(enabled)`
abbrev pub flag : Bool → ℕ
flag enabled = if enabled then 1 else 0

abbrev pub is_iq : SampleType → Bool
is_iq float32_iq = true
is_iq int16_iq = true
is_iq _ = false

-- `iter().position(|&r| r == value)`
unfoldable pub position : ℕ → List ℕ → Option ℕ
position value [] = none
position value (r ∷ rs) =
    let rest = position value rs in
    if r == value then some 0 else elim rest [ some i ↦ some (suc i) | none ↦ none ]

-- What a literal rate becomes, by its position in the table: that index, or the rate in kHz.
-- `u32::try_from(i)` keeps a position in a table of at most `u16::MAX / 4` rates.
abbrev pub by_position : Device → ℕ → Option ℕ → ℕ
by_position d rate (some i) = i
by_position d rate none = (if is_iq d.sample_type then rate * 2 % 2 ^ 32 else rate) / 1000

-- The number that `set_samplerate` sends, before it is cut to 16 bits.
unfoldable pub samplerate_value : Device → ℕ → ℕ
samplerate_value d samplerate =
    if leb min_samplerate_by_value samplerate
    then by_position d samplerate (position samplerate d.supported_samplerates)
    else samplerate

unfoldable pub port_pin : GpioPort → GpioPin → ℕ
port_pin port pin = bit_or (shl (port_byte port) 5 % 256) (pin_byte pin)

module _ (t : UsbTransport) where
  unfoldable pub set_freq : ℕ → Wire (Unit {0})
  set_freq freq_hz = out_setter t Command.set_freq no_wvalue no_windex (to_le 4 freq_hz)

  unfoldable pub set_samplerate : Device → ℕ → Wire (Unit {0})
  set_samplerate d samplerate =
      (if is_streaming d then pure tt else perform (clear_halt bulk_endpoint))
      >> in_setter t Command.set_samplerate (samplerate_value d samplerate % 2 ^ 16)

  unfoldable pub set_lna_gain : ℕ → Wire (Unit {0})
  set_lna_gain value = in_setter t Command.set_lna_gain (min value lna_gain_max)

  unfoldable pub set_mixer_gain : ℕ → Wire (Unit {0})
  set_mixer_gain value = in_setter t Command.set_mixer_gain (min value mixer_vga_gain_max)

  unfoldable pub set_vga_gain : ℕ → Wire (Unit {0})
  set_vga_gain value = in_setter t Command.set_vga_gain (min value mixer_vga_gain_max)

  unfoldable pub set_lna_agc : Bool → Wire (Unit {0})
  set_lna_agc enabled = in_setter t Command.set_lna_agc (flag enabled)

  unfoldable pub set_mixer_agc : Bool → Wire (Unit {0})
  set_mixer_agc enabled = in_setter t Command.set_mixer_agc (flag enabled)

  unfoldable pub set_composite_gain : ℕ → List ℕ → List ℕ → List ℕ → Wire (Unit {0})
  set_composite_gain value vga mixer lna =
      let idx = gain_count - 1 - min value (gain_count - 1) in
      set_mixer_agc false
      >> (set_lna_agc false
          >> (set_vga_gain (get_or vga idx 0)
              >> (set_mixer_gain (get_or mixer idx 0) >> set_lna_gain (get_or lna idx 0))))

  unfoldable pub set_linearity_gain : ℕ → Wire (Unit {0})
  set_linearity_gain value =
      set_composite_gain value linearity_vga_gains linearity_mixer_gains linearity_lna_gains

  unfoldable pub set_sensitivity_gain : ℕ → Wire (Unit {0})
  set_sensitivity_gain value =
      set_composite_gain value sensitivity_vga_gains sensitivity_mixer_gains sensitivity_lna_gains

  unfoldable pub gpio_write : GpioPort → GpioPin → ℕ → Wire (Unit {0})
  gpio_write port pin value = out_setter t Command.gpio_write value (port_pin port pin) []

  unfoldable pub set_rf_bias : Bool → Wire (Unit {0})
  set_rf_bias enabled = gpio_write GpioPort.port1 GpioPin.pin13 (flag enabled)

  -- `&mut self`: the device after the call comes with the answer, also when that is an error.
  unfoldable pub set_packing : Device → Bool → Bus → (Result (Unit {0}) × Device) × Bus
  set_packing d enabled bus =
      if is_streaming d
      then ((err Error.busy, d), bus)
      else (let (r, bus') = in_setter t Command.set_packing (flag enabled) bus in
          elim r [
            | ok u ↦ (
              (
                ok tt,
                record {
                  supported_samplerates = d.supported_samplerates;
                  workers = d.workers;
                  sample_type = d.sample_type;
                  packing_enabled = enabled;
                },
              ),
              bus',
            )
            | err e ↦ ((err e, d), bus')
          ])
