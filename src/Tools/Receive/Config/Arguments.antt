-- ===== src/Tools/Receive/Config/Arguments.antt =====
-- The checks of rx_cli.rs, one argument at a time, and what is asked of all of them.
use libairspy_rs.Base.{
  ℕ, zero, suc, ◌≤◌, ◌<◌, ◌≡◌, ◌↔◌, refl, ◌==◌, Bool, true, false, Option, none, some, List, leb,
  if◌then◌else◌, arith, Bool-cases, inl, inr,
}
use libairspy_rs.Commands.{SampleType}
use libairspy_rs.Tools.Wav.{for_sample_type, wav_filename}
use libairspy_rs.Tools.Receive.{bytes_to_xfer, is_raw}
use libairspy_rs.Tools.Receive.Config.{
  Args, Config, accept, refuse, or_else, given, sample_type_from_u32, selected_type, raw_as_wav,
  required_file, is_raw_selection, resolve_capture_path, resolve_freq,
}
use libairspy_rs.Tools.Receive.Config.Ranges.{AtMost, NotBoth}

abbrev pub InBand : (List ℕ → ℕ) → Option (List ℕ) → Type 0
InBand parse none = Unit
InBand parse (some s) = (24000000 ≤ parse s) × (parse s < 1900000000)

-- A WAV file is not asked for RAW samples (type 5), another capture names its file.
abbrev pub HasOutput : Bool → Option ℕ → Option (List ℕ) → Type 0
HasOutput true (some v) file = (v ≡ 5) → ⊥
HasOutput true none file = Unit
HasOutput false t none = ⊥
HasOutput false t (some p) = Unit

pub record Acceptable (parse : List ℕ → ℕ) (a : Args) : Type 0 where
  pub few_samples : AtMost 0x7fffffffffffffff a.num_samples
  pub frequency : InBand parse a.freq_mhz
  pub output : HasOutput a.receive_wav a.sample_type a.receive_file
  pub packing : AtMost 1 a.packing
  pub sample_type : AtMost 5 a.sample_type
  pub biast : AtMost 1 a.biast
  pub vga : AtMost 15 a.vga_gain
  pub mixer : AtMost 15 a.mixer_gain
  pub lna : AtMost 14 a.lna_gain
  pub linearity : AtMost 21 a.linearity_gain
  pub sensitivity : AtMost 21 a.sensitivity_gain
  pub one_gain : NotBoth a.linearity_gain a.sensitivity_gain

-- The capture that accepted arguments stand for; `format` is the type that the byte limit is worked out
-- for, r the values of `validate_ranges`.
abbrev pub config_of : Args → ℕ → List ℕ → SampleType → SampleType → ℕ × ℕ × ℕ × ℕ → Config
config_of a hz p format t r = record {
  path = p;
  receive_wav = a.receive_wav;
  serial_number = a.serial_number;
  packing = or_else a.packing 0 == 1;
  call_set_packing = given a.packing;
  freq_hz = hz;
  sample_rate_val = or_else a.sample_rate 0;
  sample_type = t;
  wav_params = for_sample_type format;
  biast = r.0 == 1;
  vga_gain = r.1;
  mixer_gain = r.2;
  lna_gain = r.3;
  linearity_gain = a.linearity_gain;
  sensitivity_gain = a.sensitivity_gain;
  limit_num_samples = given a.num_samples;
  samples_to_xfer = or_else a.num_samples 0;
  bytes_to_xfer =
      bytes_to_xfer (or_else a.num_samples 0) (for_sample_type format) format
        (or_else a.packing 0 == 1);
  verbose = a.verbose;
}

pub few :
    (o : Option ℕ) → (leb 0x8000000000000000 (or_else o 0) ≡ false) ↔ AtMost 0x7fffffffffffffff o
few none = (λ e. tt, λ e. refl)
few (some v) = (λ e. ground arith, λ e. ground arith)

pub type-value : (v : ℕ) → (v ≤ 5) ↔ ((t : SampleType) × (sample_type_from_u32 v ≡ some t))
unfolding sample_type_from_u32
type-value v = (λ h. to v h, λ h. ground (arith, h.1))
  where
    to : (v : ℕ) → v ≤ 5 → (t : SampleType) × (sample_type_from_u32 v ≡ some t)
    to zero h = (_, refl)
    to (suc zero) h = (_, refl)
    to (suc (suc zero)) h = (_, refl)
    to (suc (suc (suc zero))) h = (_, refl)
    to (suc (suc (suc (suc zero)))) h = (_, refl)
    to (suc (suc (suc (suc (suc zero))))) h = (_, refl)
    to (suc (suc (suc (suc (suc (suc v)))))) h = absurd (omega arith)

raw-value : (v : ℕ) → (is_raw_selection (sample_type_from_u32 v) ≡ false) ↔ ((v ≡ 5) → ⊥)
unfolding sample_type_from_u32
raw-value v = (λ h e. ground arith, λ h. ground (arith, h))

pub path_given :
    (a : Args) (hz : ℕ) (date_time : List ℕ)
    → HasOutput a.receive_wav a.sample_type a.receive_file ↔ (
        (p : List ℕ) × (resolve_capture_path a (selected_type a.sample_type) hz date_time
          ≡ accept p))
unfolding resolve_capture_path
path_given a hz date_time = go a.receive_wav a.sample_type a.receive_file
  where
    go :
        (w : Bool) (s : Option ℕ) (f : Option (List ℕ))
        → HasOutput w s f ↔ (
            (p : List ℕ) × ((if w
                then (if is_raw_selection (selected_type s)
                    then refuse raw_as_wav
                    else accept (wav_filename date_time hz))
                else required_file f)
              ≡ accept p))
    go true none f = (λ h. (_, refl), λ h. tt)
    go true (some v) f = (
      λ h. (wav_filename date_time hz, rw ((raw-value v).1 h) refl),
      λ h. (raw-value v).0 (ground (arith, h.1)),
    )
    go false s none = (λ h. absurd h, λ h. absurd (cc (h.1)))
    go false s (some p) = (λ h. (p, refl), λ h. tt)

-- What holds of every configuration that the tool runs with.
pub record Safe (c : Config) : Type 0 where
  pub band : (24000000 ≤ c.freq_hz) × (c.freq_hz < 1900000000)
  pub gains : (c.vga_gain ≤ 15) × (c.mixer_gain ≤ 15) × (c.lna_gain ≤ 14)
  pub simple_gains : AtMost 21 c.linearity_gain × AtMost 21 c.sensitivity_gain
  pub one_gain : NotBoth c.linearity_gain c.sensitivity_gain
  pub format : c.wav_params ≡ for_sample_type c.sample_type
  pub playable : c.receive_wav ≡ true → is_raw c.sample_type ≡ false
  pub limit : c.bytes_to_xfer ≡ bytes_to_xfer c.samples_to_xfer c.wav_params c.sample_type c.packing

module _ (parse : List ℕ → ℕ) where
  pub freq_given :
      (o : Option (List ℕ)) → InBand parse o ↔ ((hz : ℕ) × (resolve_freq parse o ≡ accept hz))
  unfolding resolve_freq
  freq_given none = (λ h. (900000000, refl), λ h. tt)
  freq_given (some s) = (λ h. (parse s, ground arith), λ h. ground (arith, h.1))

  pub freq-band :
      (o : Option (List ℕ)) (hz : ℕ)
      → resolve_freq parse o ≡ accept hz
      → (24000000 ≤ hz) × (hz < 1900000000)
  unfolding resolve_freq
  freq-band none hz h = ground arith
  freq-band (some s) hz h = ground arith

  pub wav-playable :
      (a : Args) (hz : ℕ) (date_time p : List ℕ) (t : SampleType)
      → selected_type a.sample_type ≡ some t
      → resolve_capture_path a (selected_type a.sample_type) hz date_time ≡ accept p
      → a.receive_wav ≡ true
      → is_raw t ≡ false
  unfolding resolve_capture_path
  wav-playable a hz date_time p t e h w = elim (Bool-cases (is_raw t)) [
    | inr no_raw ↦ no_raw
    | inl is ↦ absurd (let q = rw (w, e, is) at h in cc (q))
  ]
