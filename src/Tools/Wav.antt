-- ===== src/Tools/Wav.antt =====
-- crates/airspy-tools/src/wav.rs: the format fields that a sample type selects, and the 44-byte header, as
-- the list of its bytes.
pub mod Header
use libairspy_rs.Base.{
  ℕ, zero, suc, ◌+◌, ◌-◌, ◌*◌, ◌/◌, ◌%◌, ◌^◌, ◌==◌, List, [], ◌∷◌, ◌++◌, length, take, drop,
  replicate, if◌then◌else◌,
}
use libairspy_rs.Base.Bytes.{to_le}
use libairspy_rs.Commands.{
  SampleType, float32_iq, float32_real, int16_iq, int16_real, uint16_real, raw,
}

abbrev pub wav_header_len : ℕ
wav_header_len = 44

abbrev pub format_tag_pcm : ℕ
format_tag_pcm = 1

abbrev pub format_tag_ieee_float : ℕ
format_tag_ieee_float = 3

-- `u32::MAX - WAV_HEADER_LEN`
abbrev pub wav_max_data_bytes : ℕ
wav_max_data_bytes = 4294967251

pub record WavParams : Type 0 where
  pub format_tag : ℕ
  pub channels : ℕ
  pub bits_per_sample : ℕ

abbrev params : ℕ → ℕ → ℕ → WavParams
params tag channels bits = record { format_tag = tag; channels = channels; bits_per_sample = bits }

unfoldable pub for_sample_type : SampleType → WavParams
for_sample_type float32_iq = params format_tag_ieee_float 2 32
for_sample_type float32_real = params format_tag_ieee_float 1 32
for_sample_type int16_iq = params format_tag_pcm 2 16
for_sample_type int16_real = params format_tag_pcm 1 16
for_sample_type uint16_real = params format_tag_pcm 1 16
for_sample_type raw = params format_tag_pcm 1 12

unfoldable pub block_align : WavParams → ℕ
block_align p = p.channels * (p.bits_per_sample / 8) % 2 ^ 16

-- `bytes[i..i + src.len()].copy_from_slice(src)`
abbrev pub copy_at : ℕ → List ℕ → List ℕ → List ℕ
copy_at i src bytes = take i bytes ++ (src ++ drop (i + length src) bytes)

-- `a.wrapping_sub(b)` on a u32.
abbrev pub wrapping_sub : ℕ → ℕ → ℕ
wrapping_sub a b = (a + 2 ^ 32 - b) % 2 ^ 32

-- "RIFF", "WAVE", "fmt ", the size of the format chunk, and "data".
unfoldable pub wav_header_placeholder : List ℕ
unfolding to_le
wav_header_placeholder = copy_at 36 (100 ∷ 97 ∷ 116 ∷ 97 ∷ []) (
    copy_at 16 (to_le 4 16) (
      copy_at 12 (102 ∷ 109 ∷ 116 ∷ 32 ∷ []) (
        copy_at 8 (87 ∷ 65 ∷ 86 ∷ 69 ∷ [])
          (copy_at 0 (82 ∷ 73 ∷ 70 ∷ 70 ∷ []) (replicate wav_header_len 0)))))

unfoldable pub wav_header_finalized : ℕ → WavParams → ℕ → List ℕ
unfolding wav_header_placeholder block_align to_le
wav_header_finalized file_pos params samples_per_sec =
    copy_at 40 (to_le 4 (wrapping_sub file_pos 44)) (
      copy_at 34 (to_le 2 params.bits_per_sample) (
        copy_at 32 (to_le 2 (block_align params)) (
          copy_at 28 (to_le 4 (samples_per_sec * block_align params % 2 ^ 32)) (
            copy_at 24 (to_le 4 samples_per_sec) (
              copy_at 22 (to_le 2 params.channels) (
                copy_at 20 (to_le 2 params.format_tag)
                  (copy_at 4 (to_le 4 (wrapping_sub file_pos 8)) wav_header_placeholder)))))))

-- The decimal digits of a number, the highest first, before the characters `rest`.
unfoldable pub show_decimal : ℕ → ℕ → List ℕ → List ℕ
show_decimal zero n rest = rest
show_decimal (suc fuel) n rest =
    let more = show_decimal fuel (n / 10) ((n % 10 + 48) ∷ rest) in
    if n / 10 == 0 then (n % 10 + 48) ∷ rest else more

-- `AirSpy_{date_time}Z_{}kHz_IQ.wav`; a u32 has at most ten digits.
unfoldable pub wav_filename : List ℕ → ℕ → List ℕ
unfolding show_decimal
wav_filename date_time freq_hz =
    (65 ∷ 105 ∷ 114 ∷ 83 ∷ 112 ∷ 121 ∷ 95 ∷ [])
    ++ (date_time
        ++ (90
            ∷ 95
            ∷ show_decimal 10 (freq_hz / 1000)
                (107 ∷ 72 ∷ 122 ∷ 95 ∷ 73 ∷ 81 ∷ 46 ∷ 119 ∷ 97 ∷ 118 ∷ [])))
