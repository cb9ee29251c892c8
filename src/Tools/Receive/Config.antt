-- ===== src/Tools/Receive/Config.antt =====
-- crates/airspy-tools/src/rx_cli.rs: the checks of the parsed arguments, in their order. A message is a
-- constructor of `Refusal`; a text is the list of its bytes. `parse_freq_mhz` (rx.rs), which reads a
-- decimal or hexadecimal `f64`, is a parameter.
pub mod Ranges
pub mod Arguments
pub mod Verdict
use libairspy_rs.Base.{
  ℕ, ◌+◌, ◌-◌, ◌*◌, ◌==◌, Bool, true, false, ◌&&◌, Option, none, some, List, [], ◌∷◌, ltb, leb,
  if◌then◌else◌,
}
use libairspy_rs.Commands.{
  SampleType, float32_iq, float32_real, int16_iq, int16_real, uint16_real, raw, sample_type_value,
}
use libairspy_rs.Tools.Wav.{WavParams, for_sample_type, wav_filename}
use libairspy_rs.Tools.Receive.{
  bytes_to_xfer, default_freq_hz, freq_hz_min, freq_hz_max, default_vga_if_gain, default_lna_gain,
  default_mixer_gain, vga_gain_max, mixer_gain_max, lna_gain_max, linearity_gain_max,
  sensitivity_gain_max, biast_max, samples_to_xfer_max, is_raw,
}

-- The values that the argument parser hands over.
pub record Args : Type 0 where
  pub receive_file : Option (List ℕ)
  pub receive_wav : Bool
  pub serial_number : Option ℕ
  pub packing : Option ℕ
  pub freq_mhz : Option (List ℕ)
  pub sample_rate : Option ℕ
  pub sample_type : Option ℕ
  pub biast : Option ℕ
  pub vga_gain : Option ℕ
  pub mixer_gain : Option ℕ
  pub lna_gain : Option ℕ
  pub linearity_gain : Option ℕ
  pub sensitivity_gain : Option ℕ
  pub num_samples : Option ℕ
  pub verbose : Bool

pub record Config : Type 0 where
  pub path : List ℕ
  pub receive_wav : Bool
  pub serial_number : Option ℕ
  pub packing : Bool
  pub call_set_packing : Bool
  pub freq_hz : ℕ
  pub sample_rate_val : ℕ
  pub sample_type : SampleType
  pub wav_params : WavParams
  pub biast : Bool
  pub vga_gain : ℕ
  pub mixer_gain : ℕ
  pub lna_gain : ℕ
  pub linearity_gain : Option ℕ
  pub sensitivity_gain : Option ℕ
  pub limit_num_samples : Bool
  pub samples_to_xfer : ℕ
  pub bytes_to_xfer : ℕ
  pub verbose : Bool

pub data Refusal : Type 0 where
  too_many_samples frequency_out_of_range raw_as_wav no_output packing_out_of_range : Refusal
  sample_type_out_of_range biast_out_of_range vga_gain_out_of_range : Refusal
  mixer_gain_out_of_range lna_gain_out_of_range linearity_gain_out_of_range : Refusal
  sensitivity_gain_out_of_range both_gains : Refusal

pub data Checked {ℓ} (A : Type ℓ) : Type ℓ where
  accept : A → Checked A
  refuse : Refusal → Checked A

infixl 5 ◌>>=◌ ◌>>◌
abbrev pub ◌>>=◌ {ℓ κ} : {A : Type ℓ} {B : Type κ} → Checked A → (A → Checked B) → Checked B
accept a >>= f = f a
refuse r >>= f = refuse r

abbrev pub ◌>>◌ {ℓ} : {B : Type ℓ} → Checked (Unit {0}) → Checked B → Checked B
m >> k = m >>= λ _. k

-- `if test { return Err(r) }`
abbrev pub reject_if : Bool → Refusal → Checked (Unit {0})
reject_if true r = refuse r
reject_if false r = accept tt

-- `unwrap_or`
abbrev pub or_else {ℓ} : {A : Type ℓ} → Option A → A → A
or_else none d = d
or_else (some a) d = a

abbrev pub given {ℓ} : {A : Type ℓ} → Option A → Bool
given none = false
given (some a) = true

unfoldable pub sample_type_from_u32 : ℕ → Option SampleType
unfolding sample_type_value
sample_type_from_u32 value =
    if value == sample_type_value float32_iq
    then some float32_iq
    else if value == sample_type_value float32_real
    then some float32_real
    else if value == sample_type_value int16_iq
    then some int16_iq
    else if value == sample_type_value int16_real
    then some int16_real
    else if value == sample_type_value uint16_real
    then some uint16_real
    else if value == sample_type_value raw
    then some raw
    else none

-- The `-t` selection; `none` marks one that is out of range.
abbrev pub selected_type : Option ℕ → Option SampleType
selected_type none = some int16_iq
selected_type (some v) = sample_type_from_u32 v

unfoldable pub validate_ranges : Args → Checked (ℕ × ℕ × ℕ × ℕ)
validate_ranges args = do
  let biast_val = or_else args.biast 0
  reject_if (ltb biast_max biast_val) biast_out_of_range
  let vga_gain = or_else args.vga_gain default_vga_if_gain
  reject_if (ltb vga_gain_max vga_gain) vga_gain_out_of_range
  let mixer_gain = or_else args.mixer_gain default_mixer_gain
  reject_if (ltb mixer_gain_max mixer_gain) mixer_gain_out_of_range
  let lna_gain = or_else args.lna_gain default_lna_gain
  reject_if (ltb lna_gain_max lna_gain) lna_gain_out_of_range
  reject_if (ltb linearity_gain_max (or_else args.linearity_gain 0)) linearity_gain_out_of_range
  reject_if (ltb sensitivity_gain_max (or_else args.sensitivity_gain 0))
      sensitivity_gain_out_of_range
  reject_if (given args.linearity_gain && given args.sensitivity_gain) both_gains
  accept (biast_val, vga_gain, mixer_gain, lna_gain)

abbrev pub is_raw_selection : Option SampleType → Bool
is_raw_selection none = false
is_raw_selection (some t) = is_raw t

abbrev pub required_file : Option (List ℕ) → Checked (List ℕ)
required_file none = refuse no_output
required_file (some p) = accept p

unfoldable pub resolve_capture_path : Args → Option SampleType → ℕ → List ℕ → Checked (List ℕ)
resolve_capture_path args sample_type freq_hz date_time =
    if args.receive_wav
    then (if is_raw_selection sample_type
        then refuse raw_as_wav
        else accept (wav_filename date_time freq_hz))
    else required_file args.receive_file

abbrev pub required_type : Option SampleType → Checked SampleType
required_type none = refuse sample_type_out_of_range
required_type (some t) = accept t

module _ (parse_freq_mhz : List ℕ → ℕ) where
  abbrev pub checked_freq : ℕ → Checked ℕ
  checked_freq hz =
      if leb freq_hz_min hz && ltb hz freq_hz_max then accept hz else refuse frequency_out_of_range

  unfoldable pub resolve_freq : Option (List ℕ) → Checked ℕ
  resolve_freq none = accept default_freq_hz
  resolve_freq (some s) = checked_freq (parse_freq_mhz s)

  unfoldable pub build_config : Args → List ℕ → Checked Config
  build_config args date_time = do
    let selection = selected_type args.sample_type
    let wav_params = for_sample_type (or_else selection int16_iq)
    let samples_to_xfer = or_else args.num_samples 0
    let packing = or_else args.packing 0 == 1
    let bytes = bytes_to_xfer samples_to_xfer wav_params (or_else selection int16_iq) packing
    reject_if (leb samples_to_xfer_max samples_to_xfer) too_many_samples
    freq_hz ← resolve_freq args.freq_mhz
    path ← resolve_capture_path args selection freq_hz date_time
    reject_if (ltb 1 (or_else args.packing 0)) packing_out_of_range
    sample_type ← required_type selection
    ranges ← validate_ranges args
    accept (record {
      path = path;
      receive_wav = args.receive_wav;
      serial_number = args.serial_number;
      packing = packing;
      call_set_packing = given args.packing;
      freq_hz = freq_hz;
      sample_rate_val = or_else args.sample_rate 0;
      sample_type = sample_type;
      wav_params = wav_params;
      biast = ranges.0 == 1;
      vga_gain = ranges.1;
      mixer_gain = ranges.2;
      lna_gain = ranges.3;
      linearity_gain = args.linearity_gain;
      sensitivity_gain = args.sensitivity_gain;
      limit_num_samples = given args.num_samples;
      samples_to_xfer = samples_to_xfer;
      bytes_to_xfer = bytes;
      verbose = args.verbose;
    })
