-- ===== src/Tools/Receive.antt =====
-- crates/airspy-tools/src/rx.rs: byte accounting, the rate table lookup, the rate tracker and the bytes of a
-- delivered block. `f32` and `f64` are parameters of which nothing is assumed.
pub mod Limits
pub mod Config
pub mod Setup
pub mod Capture
use libairspy_rs.Base.{
  ℕ, ◌+◌, ◌-◌, ◌*◌, ◌/◌, ◌%◌, ◌^◌, ◌==◌, Bool, true, false, not, ◌&&◌, Option, none, some, List, [],
  ◌∷◌, ◌++◌, length, get_elem?, ltb, leb, if◌then◌else◌,
}
use libairspy_rs.Base.Bytes.{to_le}
use libairspy_rs.Base.Int.{ℤ, pos, negsuc}
use libairspy_rs.Commands.{SampleType, float32_iq, int16_iq, raw}
use libairspy_rs.Conversion.Dispatch.{Samples, float32, int16, uint16, raw_bytes}
use libairspy_rs.Tools.Numbers.{parse_u64}
use libairspy_rs.Tools.Wav.{WavParams}

abbrev pub freq_one_mhz : ℕ
freq_one_mhz = 1000000

abbrev pub default_freq_hz : ℕ
default_freq_hz = 900000000

abbrev pub freq_hz_min : ℕ
freq_hz_min = 24000000

abbrev pub freq_hz_max : ℕ
freq_hz_max = 1900000000

abbrev pub default_vga_if_gain : ℕ
default_vga_if_gain = 5

abbrev pub default_lna_gain : ℕ
default_lna_gain = 1

abbrev pub default_mixer_gain : ℕ
default_mixer_gain = 5

abbrev pub vga_gain_max : ℕ
vga_gain_max = 15

abbrev pub mixer_gain_max : ℕ
mixer_gain_max = 15

abbrev pub lna_gain_max : ℕ
lna_gain_max = 14

abbrev pub linearity_gain_max : ℕ
linearity_gain_max = 21

abbrev pub sensitivity_gain_max : ℕ
sensitivity_gain_max = 21

abbrev pub biast_max : ℕ
biast_max = 1

abbrev pub samples_to_xfer_max : ℕ
samples_to_xfer_max = 0x8000000000000000

abbrev pub min_samplerate_by_value : ℕ
min_samplerate_by_value = 1000000

abbrev pub rate_window_buffers : ℕ
rate_window_buffers = 50

-- `parse_u64(s).map(|v| v as u32)`
unfoldable pub parse_u32 : List ℕ → Option ℕ
parse_u32 s = elim (parse_u64 s) [ some v ↦ some (v % 2 ^ 32) | none ↦ none ]

abbrev pub is_raw : SampleType → Bool
is_raw raw = true
is_raw _ = false

-- The bits of a sample as it is written out.
abbrev pub output_bits : WavParams → SampleType → Bool → ℕ
output_bits params sample_type packing =
    if is_raw sample_type && not packing then 16 else params.bits_per_sample

-- The products are 64-bit and wrap.
unfoldable pub bytes_to_xfer : ℕ → WavParams → SampleType → Bool → ℕ
bytes_to_xfer samples_to_xfer params sample_type packing =
    (samples_to_xfer * output_bits params sample_type packing % 2 ^ 64)
    * params.channels
    % 2 ^ 64
    / 8

unfoldable pub resolve_display_rate : ℕ → List ℕ → Option ℕ
resolve_display_rate sample_rate_val rates =
    if leb sample_rate_val min_samplerate_by_value
    then get_elem? rates sample_rate_val
    else some sample_rate_val

-- The bytes to write, and the budget that is left.
unfoldable pub apply_byte_budget : Option ℕ → ℕ → ℕ × Option ℕ
apply_byte_budget none block_len = (block_len, none)
apply_byte_budget (some remaining) block_len =
    let bytes_to_write = if leb remaining block_len then remaining else block_len in
    (bytes_to_write, some (remaining - bytes_to_write))

abbrev pub halved : Bool → ℕ → ℕ
halved iq n = if iq then n / 2 else n

abbrev is_float32_iq : SampleType → Bool
is_float32_iq float32_iq = true
is_float32_iq _ = false

abbrev is_int16_iq : SampleType → Bool
is_int16_iq int16_iq = true
is_int16_iq _ = false

unfoldable pub frame_count : {F : Type 0} → Samples F → SampleType → Bool → ℕ
frame_count (float32 s) sample_type packing = halved (is_float32_iq sample_type) (length s) % 2 ^ 32
frame_count (int16 s) sample_type packing = halved (is_int16_iq sample_type) (length s) % 2 ^ 32
frame_count (uint16 s) sample_type packing = length s % 2 ^ 32
frame_count (raw_bytes s) sample_type packing =
    (if packing then length s * 2 / 3 else length s / 2) % 2 ^ 32

-- The bytes of every value, one after the other.
abbrev pub bytes_of {ℓ} : {A : Type ℓ} → (A → List ℕ) → List A → List ℕ
bytes_of f [] = []
bytes_of f (v ∷ vs) = f v ++ bytes_of f vs

-- The bit pattern of an `i16`.
abbrev pub pattern16 : ℤ → ℕ
pattern16 (pos n) = n
pattern16 (negsuc n) = 65535 - n

-- `f32::to_le_bytes` is a parameter.
unfoldable pub extend_sample_bytes : {F : Type 0} → (F → List ℕ) → List ℕ → Samples F → List ℕ
extend_sample_bytes f32_bytes out (float32 s) = out ++ bytes_of f32_bytes s
extend_sample_bytes f32_bytes out (int16 s) = out ++ bytes_of (λ v. to_le 2 (pattern16 v)) s
extend_sample_bytes f32_bytes out (uint16 s) = out ++ bytes_of (to_le 2) s
extend_sample_bytes f32_bytes out (raw_bytes s) = out ++ s

-- The single-precision operations of the tracker; times of type D are `f64` seconds.
pub record RateOps (F D : Type 0) : Type 0 where
  pub zero_rate : F
  pub zero_time : D
  pub elapsed : D → D → F
  pub of_count : ℕ → F
  pub add_f : F → F → F
  pub sub_f : F → F → F
  pub mul_f : F → F → F
  pub div_f : F → F → F
  pub ewma_weight : F

pub record RateTracker (F D : Type 0) : Type 0 where
  pub average_rate : F
  pub global_average_rate : F
  pub rate_samples : ℕ
  pub t_start : Option D
  pub time_start : D
  pub buffer_count : ℕ
  pub sample_count : ℕ

module _ {F D : Type 0} (o : RateOps F D) where
  unfoldable pub new_tracker : F → RateTracker F D
  new_tracker nominal_rate = record {
    average_rate = nominal_rate;
    global_average_rate = o.zero_rate;
    rate_samples = 0;
    t_start = none;
    time_start = o.zero_time;
    buffer_count = 0;
    sample_count = 0;
  }

  -- `buffer_count` is the count with this buffer, `rate` the rate of the full window.
  abbrev close_window : RateTracker F D → D → F → RateTracker F D
  close_window t now rate =
      let average = o.add_f t.average_rate (o.mul_f o.ewma_weight (o.sub_f rate t.average_rate)) in
      record {
        average_rate = average;
        global_average_rate = o.add_f t.global_average_rate average;
        rate_samples = (t.rate_samples + 1) % 2 ^ 32;
        t_start = t.t_start;
        time_start = now;
        buffer_count = 0;
        sample_count = 0;
      }

  abbrev count_block : RateTracker F D → ℕ → D → RateTracker F D
  count_block t samples now =
      let total = (t.sample_count + samples) % 2 ^ 32 in
      if (t.buffer_count + 1) % 2 ^ 32 == rate_window_buffers
      then close_window t now (o.div_f (o.of_count total) (o.elapsed now t.time_start))
      else record t { buffer_count = (t.buffer_count + 1) % 2 ^ 32; sample_count = total }

  unfoldable pub on_block : RateTracker F D → ℕ → D → RateTracker F D
  on_block t samples now = elim t.t_start [
    | none ↦ record t { t_start = some now; time_start = now }
    | some start ↦ count_block t samples now
  ]
