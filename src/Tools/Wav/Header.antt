-- ===== src/Tools/Wav/Header.antt =====
-- What a reader finds in the header of wav.rs.
use libairspy_rs.Base.{
  ℕ, ◌+◌, ◌*◌, ◌<◌, ◌^◌, ◌≡◌, refl, List, [], ◌∷◌, ◌++◌, length, take, drop, arith,
}
use libairspy_rs.Base.Bytes.{from_le}
use libairspy_rs.Tools.Wav.{
  WavParams, block_align, wav_header_placeholder, wav_header_finalized, wav_header_len,
}

-- The chunks of a canonical WAV file, field by field, as the format lays them out.
pub record Riff : Type 0 where
  pub ids : List (List ℕ)
  pub riff_size : ℕ
  pub fmt_size : ℕ
  pub tag : ℕ
  pub channel_count : ℕ
  pub sample_rate : ℕ
  pub byte_rate : ℕ
  pub frame_bytes : ℕ
  pub sample_bits : ℕ
  pub data_size : ℕ

abbrev pub field : ℕ → ℕ → List ℕ → List ℕ
field i n bytes = take n (drop i bytes)

pub read_riff : List ℕ → Riff
read_riff bytes = record {
  ids = field 0 4 bytes ∷ field 8 4 bytes ∷ field 12 4 bytes ∷ field 36 4 bytes ∷ [];
  riff_size = from_le (field 4 4 bytes);
  fmt_size = from_le (field 16 4 bytes);
  tag = from_le (field 20 2 bytes);
  channel_count = from_le (field 22 2 bytes);
  sample_rate = from_le (field 24 4 bytes);
  byte_rate = from_le (field 28 4 bytes);
  frame_bytes = from_le (field 32 2 bytes);
  sample_bits = from_le (field 34 2 bytes);
  data_size = from_le (field 40 4 bytes);
}

-- "RIFF", "WAVE", "fmt ", "data"
abbrev pub chunk_ids : List (List ℕ)
chunk_ids =
    (82 ∷ 73 ∷ 70 ∷ 70 ∷ [])
    ∷ (87 ∷ 65 ∷ 86 ∷ 69 ∷ [])
    ∷ (102 ∷ 109 ∷ 116 ∷ 32 ∷ [])
    ∷ (100 ∷ 97 ∷ 116 ∷ 97 ∷ [])
    ∷ []

abbrev pub Fits : WavParams → ℕ → Type 0
Fits p rate =
    (p.format_tag < 2 ^ 16)
    × (p.channels < 2 ^ 16)
    × (p.bits_per_sample < 2 ^ 16)
    × (rate < 2 ^ 32)
    × (rate * block_align p < 2 ^ 32)

pub length-wav_header_finalized :
    (n : ℕ) (p : WavParams) (rate : ℕ) → length (wav_header_finalized n p rate) ≡ wav_header_len
unfolding wav_header_finalized
length-wav_header_finalized n p rate = refl

pub length-wav_header_placeholder : length wav_header_placeholder ≡ wav_header_len
unfolding wav_header_placeholder
length-wav_header_placeholder = refl

-- A reader of the finished file finds the four chunk names, the format fields of the parameters with the
-- byte rate and the frame size that follow from them, and the exact sizes, for a file and fields that fit
-- their widths.
pub wav_header_finalized-fields :
    (n : ℕ) (p : WavParams) (rate : ℕ) (samples : List ℕ)
    → n + 44 < 2 ^ 32
    → Fits p rate
    → read_riff (wav_header_finalized (n + 44) p rate ++ samples) ≡ record {
      ids = chunk_ids;
      riff_size = n + 36;
      fmt_size = 16;
      tag = p.format_tag;
      channel_count = p.channels;
      sample_rate = rate;
      byte_rate = rate * block_align p;
      frame_bytes = block_align p;
      sample_bits = p.bits_per_sample;
      data_size = n;
    }
unfolding wav_header_finalized read_riff from_le block_align
wav_header_finalized-fields n p rate samples h f = ground arith

-- The two sizes, whatever the format fields hold.
pub wav_header_finalized-sizes :
    (n : ℕ) (p : WavParams) (rate : ℕ) (samples : List ℕ)
    → n + 44 < 2 ^ 32
    → (from_le (field 40 4 (wav_header_finalized (n + 44) p rate ++ samples)) ≡ n)
      × (from_le (field 4 4 (wav_header_finalized (n + 44) p rate ++ samples)) ≡ n + 36)
unfolding wav_header_finalized from_le
wav_header_finalized-sizes n p rate samples h = (omega arith, omega arith)
