-- ===== src/Tools/Receive/Limits.antt =====
-- The arithmetic of a `-n` limit (crates/airspy-tools/src/rx.rs, `bytes_to_xfer`) and the average rate.
use libairspy_rs.Base.{ℕ, ◌*◌, ◌/◌, ◌^◌, ◌<◌, ◌≡◌, ◌↔◌, Bool, true, false, arith}
use libairspy_rs.Commands.{
  SampleType, float32_iq, float32_real, int16_iq, int16_real, uint16_real, raw,
}
use libairspy_rs.Tools.Wav.{for_sample_type}
use libairspy_rs.Tools.Receive.{output_bits, bytes_to_xfer}

-- The bits that a frame takes in the output.
abbrev pub frame_bits : SampleType → Bool → ℕ
frame_bits t packing = output_bits (for_sample_type t) t packing * (for_sample_type t).channels

-- The limit in bytes is the exact size of the requested samples precisely when their size in bits fits 64
-- bits. (A count of samples that the argument check lets through can be too large for that.)
pub bytes_to_xfer-exact :
    (samples : ℕ) (t : SampleType) (packing : Bool)
    → (bytes_to_xfer samples (for_sample_type t) t packing ≡ samples * frame_bits t packing / 8)
      ↔ (samples * frame_bits t packing < 2 ^ 64)
unfolding bytes_to_xfer for_sample_type
bytes_to_xfer-exact samples float32_iq packing = (λ h. omega arith, λ h. omega arith)
bytes_to_xfer-exact samples float32_real packing = (λ h. omega arith, λ h. omega arith)
bytes_to_xfer-exact samples int16_iq packing = (λ h. omega arith, λ h. omega arith)
bytes_to_xfer-exact samples int16_real packing = (λ h. omega arith, λ h. omega arith)
bytes_to_xfer-exact samples uint16_real packing = (λ h. omega arith, λ h. omega arith)
bytes_to_xfer-exact samples raw true = (λ h. omega arith, λ h. omega arith)
bytes_to_xfer-exact samples raw false = (λ h. omega arith, λ h. omega arith)
