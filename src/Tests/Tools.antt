-- ===== src/Tests/Tools.antt =====
-- The tools: captures, arguments, replays and register fields.
use libairspy_rs.Base.{
  take, ℕ, ◌+◌, ◌-◌, ◌*◌, ◌/◌, ◌^◌, ◌<◌, ◌≡◌, ◌↔◌, refl, true, false, some, none, List, [], ◌∷◌,
  ◌++◌, length, All, arith,
}
use libairspy_rs.Base.Int.{pos, negsuc}
use libairspy_rs.Commands.{int16_iq}
use libairspy_rs.Error.{Error, Result, ok, err}
use libairspy_rs.Transport.{UsbTransport, Call, control_out}
use libairspy_rs.Device.Control.{gpio_write}
use libairspy_rs.Conversion.Dispatch.{int16}
use libairspy_rs.Tools.Wav.{for_sample_type, block_align, wav_header_finalized}
use libairspy_rs.Tools.Wav.Header.{read_riff, chunk_ids, wav_header_finalized-fields}
use libairspy_rs.Tools.Receive.{RateOps, bytes_to_xfer}
use libairspy_rs.Tools.Receive.Limits.{frame_bits, bytes_to_xfer-exact}
use libairspy_rs.Tools.Receive.Config.{Args, Config, build_config, accept}
use libairspy_rs.Tools.Receive.Config.Arguments.{Acceptable, Safe}
use libairspy_rs.Tools.Receive.Config.Verdict.{build_config-verdict}
use libairspy_rs.Tools.Receive.Capture.{
  not_tuned, in_full, Delivery, Storage, initial_remaining, run_capture,
}
use libairspy_rs.Tools.Receive.Capture.Budget.{within}
use libairspy_rs.Tools.Receive.Capture.Written.{stream_bytes}
use libairspy_rs.Tools.Receive.Capture.Playable.{Captured, run_capture-Captured}
use libairspy_rs.Tools.Gpio
use libairspy_rs.Tools.Gpio.{GpioOp, dump_scope, dump_port_pin}
use libairspy_rs.Tools.Gpio.Order
use libairspy_rs.Tools.Gpio.Order.{replay_ops-described}
use libairspy_rs.Tools.Registers.{ms_params}
use libairspy_rs.Tools.Registers.Multisynth.{registers_of, ms_params-registers_of}

bytes_to_xfer-exact_example :
    (bytes_to_xfer 1000 (for_sample_type int16_iq) int16_iq false
      ≡ 1000 * frame_bits int16_iq false / 8)
    ↔ (1000 * frame_bits int16_iq false < 2 ^ 64)
bytes_to_xfer-exact_example = bytes_to_xfer-exact 1000 int16_iq false

wav_header_finalized-fields_example :
    read_riff (wav_header_finalized (8 + 44) (for_sample_type int16_iq) 10000000 ++ []) ≡ record {
      ids = chunk_ids;
      riff_size = 8 + 36;
      fmt_size = 16;
      tag = (for_sample_type int16_iq).format_tag;
      channel_count = (for_sample_type int16_iq).channels;
      sample_rate = 10000000;
      byte_rate = 10000000 * block_align (for_sample_type int16_iq);
      frame_bytes = block_align (for_sample_type int16_iq);
      sample_bits = (for_sample_type int16_iq).bits_per_sample;
      data_size = 8;
    }
unfolding for_sample_type block_align
wav_header_finalized-fields_example =
    wav_header_finalized-fields 8 (for_sample_type int16_iq) 10000000 [] (omega arith)
      (omega arith, omega arith, omega arith, omega arith, omega arith)

-- `-r x -f 100 -n 3`
abbrev arguments : Args
arguments = record {
  receive_file = some (120 ∷ []);
  receive_wav = false;
  serial_number = none;
  packing = none;
  freq_mhz = some (49 ∷ 48 ∷ 48 ∷ []);
  sample_rate = none;
  sample_type = none;
  biast = none;
  vga_gain = some 15;
  mixer_gain = none;
  lna_gain = none;
  linearity_gain = none;
  sensitivity_gain = none;
  num_samples = some 3;
  verbose = false;
}

abbrev always_100 : List ℕ → ℕ
always_100 s = 100000000

build_config-verdict_example :
    Acceptable always_100 arguments
    ↔ ((c : Config) × (build_config always_100 arguments [] ≡ accept c) × Safe c)
build_config-verdict_example = build_config-verdict always_100 arguments []

-- Integers in the place of floats.
abbrev rates : RateOps ℕ ℕ
rates = record {
  zero_rate = 0;
  zero_time = 0;
  elapsed = λ a b. a - b;
  of_count = λ n. n;
  add_f = λ a b. a + b;
  sub_f = λ a b. a - b;
  mul_f = λ a b. a * b;
  div_f = λ a b. a / b;
  ewma_weight = 1;
}

-- A WAV capture of two samples.
abbrev capture : Config
capture = record {
  path = [];
  receive_wav = true;
  serial_number = none;
  packing = false;
  call_set_packing = false;
  freq_hz = 100000000;
  sample_rate_val = 0;
  sample_type = int16_iq;
  wav_params = record { format_tag = 1; channels = 2; bits_per_sample = 16 };
  biast = false;
  vga_gain = 5;
  mixer_gain = 5;
  lna_gain = 1;
  linearity_gain = none;
  sensitivity_gain = none;
  limit_num_samples = true;
  samples_to_xfer = 2;
  bytes_to_xfer = 8;
  verbose = false;
}

abbrev reliable : Storage
reliable = record { placeholder = in_full; flush = in_full; reopens = true; rewrite = in_full }

abbrev blocks : List (Delivery ℕ ℕ)
blocks =
    record { samples = int16 (pos 1 ∷ negsuc 0 ∷ pos 2 ∷ []); now = 0; answer = in_full }
    ∷ record { samples = int16 (pos 3 ∷ pos 4 ∷ []); now = 1; answer = in_full }
    ∷ []

-- The tuning fails after the first block.
run_capture-Captured_example :
    Captured capture 10000000
      (within (initial_remaining capture) (stream_bytes rates (λ f. []) (take 1 blocks)))
      (run_capture rates (λ f. []) capture 10000000 10000000 reliable (not_tuned (take 1 blocks)))
    × ((run_capture rates
            (λ f. [])
            capture
            10000000
            10000000
            reliable
            (not_tuned (take 1 blocks))).0
          ≡ true
        → false ≡ true)
    × (All (λ d. d.answer ≡ in_full) (take 1 blocks)
        → (run_capture rates
            (λ f. [])
            capture
            10000000
            10000000
            reliable
            (not_tuned (take 1 blocks))).0
          ≡ false)
run_capture-Captured_example =
    run_capture-Captured rates (λ f. []) capture 10000000 10000000 reliable
      (not_tuned (take 1 blocks))
      (record { placed = refl; flushed = refl; opened = refl; rewritten = refl })

abbrev accepts : Call → Result ℕ
accepts (control_out c v i payload) = ok (length payload)
accepts _ = err Error.other

abbrev firmware : UsbTransport
firmware = record { write_control = λ bus c. accepts c; read_control = λ bus c. ok (1 ∷ []) }

-- `-p 1 -n 13 -w 1 -r`
abbrev gpio_options : List GpioOp
gpio_options =
    GpioOp.port (49 ∷ []) ∷ GpioOp.pin (49 ∷ 51 ∷ []) ∷ GpioOp.write (49 ∷ []) ∷ GpioOp.read ∷ []

replay_ops-described_example :
    let d =
      Order.described
        (dump_scope (dump_port_pin firmware))
        (gpio_write firmware)
        []
        gpio_options
        [] in
    let found =
      Gpio.replay_ops (dump_scope (dump_port_pin firmware)) (gpio_write firmware) gpio_options [] in
    (found.0
      ≡ Order.outcome_of
          (dump_scope (dump_port_pin firmware))
          (gpio_write firmware)
          []
          gpio_options
          d.0)
    × (found.1.bus ≡ d.1)
replay_ops-described_example =
    replay_ops-described (dump_scope (dump_port_pin firmware)) (gpio_write firmware) gpio_options []

ms_params-registers_of_example :
    ms_params (registers_of 1 2 (record { p1 = 200000; p2 = 70000; p3 = 1000000; r_div = 5 }))
    ≡ record { p1 = 200000; p2 = 70000; p3 = 1000000; r_div = 5 }
ms_params-registers_of_example =
    ms_params-registers_of (record { p1 = 200000; p2 = 70000; p3 = 1000000; r_div = 5 }) 1 2
      (omega arith) (omega arith) (omega arith) (omega arith) (omega arith)
