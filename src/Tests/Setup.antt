-- ===== src/Tests/Setup.antt =====
-- The configuration of a device before a capture.
use libairspy_rs.Base.{ℕ, ◌≡◌, refl, true, false, none, List, [], ◌∷◌, replicate, length}
use libairspy_rs.Commands.{float32_iq, int16_real}
use libairspy_rs.Error.{Error, Result, ok, err}
use libairspy_rs.Transport.{UsbTransport, Call, control_out, control_in}
use libairspy_rs.Device.{Device}
use libairspy_rs.Device.Control.{samplerate_value, position}
use libairspy_rs.Device.Lifecycle.{samplerates, rates_for_sample_type}
use libairspy_rs.Tools.Receive.Config.{Config}

abbrev taken_whole : Call → Result ℕ
taken_whole (control_out c v i payload) = ok (length payload)
taken_whole _ = err Error.other

abbrev zeros : Call → Result (List ℕ)
zeros (control_in c v i n) = ok (replicate n 0)
zeros _ = err Error.other

abbrev airspy : UsbTransport
airspy = record { write_control = λ bus c. taken_whole c; read_control = λ bus c. zeros c }

abbrev fresh_device : Device
fresh_device = record {
  supported_samplerates = 10000000 ∷ 2500000 ∷ [];
  workers = none;
  sample_type = float32_iq;
  packing_enabled = false;
}

-- `-w -t 3 -a 10000000 -p 1`
abbrev real_capture : Config
real_capture = record {
  path = [];
  receive_wav = true;
  serial_number = none;
  packing = true;
  call_set_packing = true;
  freq_hz = 100000000;
  sample_rate_val = 10000000;
  sample_type = int16_real;
  wav_params = record { format_tag = 1; channels = 1; bits_per_sample = 16 };
  biast = false;
  vga_gain = 5;
  mixer_gain = 5;
  lna_gain = 1;
  linearity_gain = none;
  sensitivity_gain = none;
  limit_num_samples = false;
  samples_to_xfer = 0;
  bytes_to_xfer = 0;
  verbose = false;
}

abbrev real_device : Device
real_device = record {
  supported_samplerates = 10000000 ∷ 2500000 ∷ [];
  workers = none;
  sample_type = int16_real;
  packing_enabled = true;
}

-- The device is sent the index of 10 MHz, whose reported rate for this type is 20 MHz.
reported :
    (samplerate_value real_device 10000000 ≡ 0)
    × (samplerates real_device ≡ 20000000 ∷ 5000000 ∷ [])
unfolding samplerate_value position samplerates rates_for_sample_type
reported = (refl, refl)
