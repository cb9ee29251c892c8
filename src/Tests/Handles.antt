-- ===== src/Tests/Handles.antt =====
-- The device: opening, requests, streaming, flash, serial numbers and board data.
use libairspy_rs.Base.{
  ℕ, ◌-◌, ◌==◌, ◌≡◌, refl, Bool, true, false, some, none, List, [], ◌∷◌, ◌++◌, length, arith, min,
  if◌then◌else◌, replicate,
}
use libairspy_rs.Base.Bytes.{to_le}
use libairspy_rs.Commands.{Command, float32_iq}
use libairspy_rs.Error.{Error, Result, ok, err}
use libairspy_rs.Transport.{UsbTransport, Bus, Call, Worker, control_out, control_in}
use libairspy_rs.Device.{Device}
use libairspy_rs.Device.Requests.{Tries}
use libairspy_rs.Device.Control.{
  set_linearity_gain, linearity_vga_gains, linearity_mixer_gains, linearity_lna_gains,
}
use libairspy_rs.Device.Control.Gains.{gain_requests, set_linearity_gain-Tries}
use libairspy_rs.Device.Control.Rates.{SetsRate, set_samplerate-SetsRate}
use libairspy_rs.Device.Control.Tuning.{Tunes, set_freq-Tunes}
use libairspy_rs.Device.Peripherals.Flash.{WriteVerdict, spiflash_write-verdict}
use libairspy_rs.Device.Serial.{parse_serial, digits_value}
use libairspy_rs.Device.Serial.Notation.{hex_chars, parse_serial-notation}
use libairspy_rs.Device.Lifecycle.{from_transport, start_rx}
use libairspy_rs.Device.Lifecycle.Opening.{encoded, from_transport-Reports}
use libairspy_rs.Device.Lifecycle.Streaming.{Stopped, stop_rx-Stopped}
use libairspy_rs.Device.Lifecycle.Starting.{StartEnds, start_rx-StartEnds}

-- A device that accepts every write whole, and reports two rates.
abbrev rates : List ℕ
rates = 10000000 ∷ 2500000 ∷ []

abbrev accepts : Call → Result ℕ
accepts (control_out c v i payload) = ok (length payload)
accepts _ = err Error.other

abbrev answers : Call → Result (List ℕ)
answers (control_in Command.get_samplerates v i n) =
    if n == 4 then ok (to_le 4 2) else ok (encoded rates)
answers _ = ok (0 ∷ [])

abbrev firmware : UsbTransport
firmware = record { write_control = λ bus c. accepts c; read_control = λ bus c. answers c }

abbrev idle_device : Device
idle_device = record {
  supported_samplerates = rates;
  workers = none;
  sample_type = float32_iq;
  packing_enabled = false;
}

abbrev live_device : Device
live_device = record idle_device {
  workers = some (record { streaming = true; stop_requested = false });
}

abbrev can_spawn : Bus → Worker → Bool
can_spawn bus w = true

start_rx-StartEnds_example :
    StartEnds firmware can_spawn [] (start_rx firmware can_spawn idle_device [])
unfolding libairspy_rs.Device.is_streaming
start_rx-StartEnds_example = start_rx-StartEnds firmware can_spawn idle_device [] refl

stop_rx-Stopped_example : Stopped firmware live_device []
stop_rx-Stopped_example = stop_rx-Stopped firmware live_device []

parse_serial-notation_example :
    parse_serial (
      replicate 10 65
      ++ (hex_chars (6 ∷ 4 ∷ 4 ∷ 6 ∷ 4 ∷ 8 ∷ 13 ∷ 12 ∷ 2 ∷ 11 ∷ 1 ∷ 2 ∷ 3 ∷ 4 ∷ 5 ∷ 15 ∷ [])
          ++ (33 ∷ [])))
    ≡ some (digits_value 0 (6 ∷ 4 ∷ 4 ∷ 6 ∷ 4 ∷ 8 ∷ 13 ∷ 12 ∷ 2 ∷ 11 ∷ 1 ∷ 2 ∷ 3 ∷ 4 ∷ 5 ∷ 15 ∷ []))
parse_serial-notation_example =
    parse_serial-notation (replicate 10 65)
      (6 ∷ 4 ∷ 4 ∷ 6 ∷ 4 ∷ 8 ∷ 13 ∷ 12 ∷ 2 ∷ 11 ∷ 1 ∷ 2 ∷ 3 ∷ 4 ∷ 5 ∷ 15 ∷ []) (33 ∷ []) refl refl
      (ground arith)

spiflash_write-verdict_example : WriteVerdict firmware 0x12345 (1 ∷ 2 ∷ []) []
spiflash_write-verdict_example = spiflash_write-verdict firmware 0x12345 (1 ∷ 2 ∷ []) []

set_linearity_gain-Tries_example :
    Tries firmware
      (gain_requests (21 - min 10 21) linearity_vga_gains linearity_mixer_gains linearity_lna_gains)
      (set_linearity_gain firmware 10)
set_linearity_gain-Tries_example = set_linearity_gain-Tries firmware 10

set_samplerate-SetsRate_example : SetsRate firmware live_device 3000000
set_samplerate-SetsRate_example = set_samplerate-SetsRate firmware live_device 3000000

from_transport-Reports_example : (from_transport firmware []).0.supported_samplerates ≡ rates
from_transport-Reports_example =
    from_transport-Reports firmware [] rates (record { number = refl; table = refl }) (omega arith)
      (omega arith) (ground arith)

set_freq-Tunes_example : Tunes firmware 433920000 []
set_freq-Tunes_example = set_freq-Tunes firmware 433920000 [] (omega arith)
