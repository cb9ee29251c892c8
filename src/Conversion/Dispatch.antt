-- ===== src/Conversion/Dispatch.antt =====
-- crates/libairspy/src/conversion.rs, `convert_block` and what it calls: the preparation of the words and
-- the conversion to the selected sample type. `f32` is the parameter of `Iq.Float`.
pub mod Sizes
pub mod Scaling
use libairspy_rs.Base.{
  ℕ, zero, suc, ◌-◌, ◌*◌, ◌/◌, Bool, true, false, List, [], ◌∷◌, ◌++◌, length, take, replicate,
  if◌then◌else◌,
}
use libairspy_rs.Base.Bytes.{from_le}
use libairspy_rs.Base.Int.{ℤ, pos, ◌-ℤ◌, ◌*ℤ◌, wrap16}
use libairspy_rs.Commands.{SampleType, float32_iq, float32_real, int16_iq, int16_real, uint16_real}
use libairspy_rs.Conversion.Unpack.{Written, unpack_samples, unpacked_sample_count}
use libairspy_rs.Iq.Fixed
use libairspy_rs.Iq.Fixed.{IqConverterInt16}
use libairspy_rs.Iq.Float
use libairspy_rs.Iq.Float.{IqConverterFloat, FloatOps}

abbrev pub iq_components : ℕ
iq_components = 2

-- `Vec::resize`.
abbrev pub resize {ℓ} : {A : Type ℓ} → List A → ℕ → A → List A
resize xs n a = take n xs ++ replicate (n - length xs) a

-- `for (s, d) in src.iter().zip(dest.iter_mut()) { *d = f(s) }`
abbrev pub write_each {ℓ κ} : {A : Type ℓ} {B : Type κ} → (A → B) → List A → List B → List B
write_each f [] dest = dest
write_each f (s ∷ src) [] = []
write_each f (s ∷ src) (d ∷ dest) = f s ∷ write_each f src dest

-- `((s - 2048) << SAMPLE_SHIFT) as i16`
unfoldable pub sample_int16 : ℕ → ℤ
sample_int16 s = wrap16 ((pos s -ℤ pos 2048) *ℤ pos 16)

unfoldable pub convert_samples_int16 : List ℕ → List ℤ → List ℤ
convert_samples_int16 src dest = write_each sample_int16 src dest

-- `chunks_exact(2)`, each as a little-endian word.
unfoldable pub le_words : List ℕ → List ℕ
le_words (a ∷ b ∷ rest) = from_le (a ∷ b ∷ []) ∷ le_words rest
le_words _ = []

module _ {F : Type 0} (f : FloatOps F) where
  unfoldable pub convert_samples_float : List ℕ → List F → List F
  convert_samples_float src dest =
      write_each (λ s. f.mul (f.of_int (pos s -ℤ pos 2048)) f.sample_scale) src dest

pub data Samples (F : Type 0) : Type 0 where
  float32 : List F → Samples F
  int16 : List ℤ → Samples F
  uint16 : List ℕ → Samples F
  raw_bytes : List ℕ → Samples F

pub record Scratch (F : Type 0) : Type 0 where
  pub unpacked : List ℕ
  pub words : List ℕ
  pub out_i16 : List ℤ
  pub out_f32 : List F
  pub cnv_i : IqConverterInt16
  pub cnv_f : IqConverterFloat F

-- `Scratch::default`; the float kernel's literals are `f32` values.
unfoldable pub fresh_scratch : {F : Type 0} → FloatOps F → List F → Scratch F
fresh_scratch f hb_kernel_float = record {
  unpacked = [];
  words = [];
  out_i16 = [];
  out_f32 = [];
  cnv_i = Fixed.new Fixed.hb_kernel_int16;
  cnv_f = Float.new f hb_kernel_float;
}

-- The scratch with its word buffers filled, and how many words they hold.
unfoldable pub prepare_words : {F : Type 0} → Bool → List ℕ → Scratch F → ℕ × Scratch F
prepare_words packing_enabled bytes scratch =
    if packing_enabled
    then (let w =
          unpack_samples bytes (resize scratch.unpacked (unpacked_sample_count (length bytes)) 0) in
        (w.written, record scratch { unpacked = w.output }))
    else (length (le_words bytes), record scratch { words = le_words bytes })

abbrev pub block_words : {F : Type 0} → Bool → Scratch F → List ℕ
block_words packing_enabled scratch = if packing_enabled then scratch.unpacked else scratch.words

-- The samples delivered, the sample count reported for them, and the scratch for the next block.
abbrev pub Block : Type 0 → Type 0
Block F = (Samples F × ℕ) × Scratch F

module _ {F : Type 0} (f : FloatOps F) where
  unfoldable pub convert_words : SampleType → ℕ → List ℕ → Scratch F → Block F
  convert_words float32_iq n src scratch =
      let out = convert_samples_float f src (resize scratch.out_f32 n f.zero_f) in
      let converted = Float.process f scratch.cnv_f out in
      let pairs = n / iq_components in
      (
        (float32 (take (pairs * iq_components) converted.0), pairs),
        record scratch { out_f32 = converted.0; cnv_f = converted.1 },
      )
  convert_words int16_iq n src scratch =
      let out = convert_samples_int16 src (resize scratch.out_i16 n (pos 0)) in
      let converted = Fixed.process scratch.cnv_i out in
      let pairs = n / iq_components in
      (
        (int16 (take (pairs * iq_components) converted.0), pairs),
        record scratch { out_i16 = converted.0; cnv_i = converted.1 },
      )
  convert_words int16_real n src scratch =
      let out = convert_samples_int16 src (resize scratch.out_i16 n (pos 0)) in
      ((int16 out, n), record scratch { out_i16 = out })
  convert_words float32_real n src scratch =
      let out = convert_samples_float f src (resize scratch.out_f32 n f.zero_f) in
      ((float32 out, n), record scratch { out_f32 = out })
  convert_words _ n src scratch = ((uint16 src, n), scratch)

  unfoldable pub convert_block : SampleType → Bool → List ℕ → Scratch F → Block F
  convert_block SampleType.raw packing_enabled bytes scratch = (
    (
      raw_bytes bytes,
      if packing_enabled then unpacked_sample_count (length bytes) else length bytes / 2,
    ),
    scratch,
  )
  convert_block sample_type packing_enabled bytes scratch =
      let prepared = prepare_words packing_enabled bytes scratch in
      convert_words sample_type prepared.0
        (take prepared.0 (block_words packing_enabled prepared.1)) prepared.1
