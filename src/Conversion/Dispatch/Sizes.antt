-- ===== src/Conversion/Dispatch/Sizes.antt =====
-- How many samples `convert_block` delivers and reports (crates/libairspy/src/conversion.rs).
use libairspy_rs.Base.{
  ℕ, suc, ◌+◌, ◌-◌, ◌*◌, ◌/◌, ◌%◌, ◌≤◌, ◌≡◌, refl, sym, ap, ◌∙◌, Bool, true, false, List, [], ◌∷◌,
  length, take, replicate, if◌then◌else◌, arith, length-append, length-take, length-replicate,
}
use libairspy_rs.Base.Int.{ℤ, pos, ◌-ℤ◌}
use libairspy_rs.Commands.{SampleType, float32_iq, float32_real, int16_iq, int16_real, uint16_real}
use libairspy_rs.Conversion.Unpack.{unpack_samples, unpacked_sample_count, Written}
use libairspy_rs.Conversion.Counts.{tail_samples, Pushed, unpack_samples-written}
use libairspy_rs.Iq.Fixed
use libairspy_rs.Iq.Fixed.Blocks
use libairspy_rs.Iq.Float
use libairspy_rs.Iq.Float.{FloatOps}
use libairspy_rs.Conversion.Dispatch.{
  resize, write_each, sample_int16, convert_samples_int16, le_words, convert_samples_float, Samples,
  float32, int16, uint16, raw_bytes, Scratch, prepare_words, block_words, Block, convert_words,
  convert_block,
}

abbrev pub is_raw : SampleType → Bool
is_raw SampleType.raw = true
is_raw _ = false

-- Values per sample.
abbrev pub components : SampleType → ℕ
components float32_iq = 2
components int16_iq = 2
components _ = 1

abbrev pub delivered : {F : Type 0} → Samples F → ℕ
delivered (float32 xs) = length xs
delivered (int16 xs) = length xs
delivered (uint16 xs) = length xs
delivered (raw_bytes xs) = length xs

-- The 12-bit samples or the 16-bit words that a block of `len` bytes holds whole.
abbrev pub word_count : Bool → ℕ → ℕ
word_count packing_enabled len =
    if packing_enabled then len / 12 * 8 + tail_samples (len % 12) else len / 2

module _ {ℓ κ} {A : Type ℓ} {B : Type κ} where
  length-write_each :
      (g : A → B) (src : List A) (dest : List B) → length (write_each g src dest) ≡ length dest
  length-write_each g [] dest = refl
  length-write_each g (s ∷ src) [] = refl
  length-write_each g (s ∷ src) (d ∷ dest) = ap suc (length-write_each g src dest)

length-resize : {A : Type 0} (xs : List A) (n : ℕ) (a : A) → length (resize xs n a) ≡ n
length-resize xs n a = omega (
  arith,
  length-append (take n xs) (replicate (n - length xs) a),
  length-take n xs,
  length-replicate (n - length xs) a,
)

length-le_words : (bytes : List ℕ) → length (le_words bytes) ≡ length bytes / 2
unfolding le_words
length-le_words [] = refl
length-le_words (a ∷ []) = refl
length-le_words (a ∷ b ∷ rest) = omega (arith, length-le_words rest)

tail_samples-le : (r : ℕ) → tail_samples r ≤ r * 2 / 3
tail_samples-le r = ground arith

word_count-le : (len : ℕ) → word_count true len ≤ unpacked_sample_count len
unfolding unpacked_sample_count
word_count-le len = omega (arith, tail_samples-le (len % 12))

module _ {F : Type 0} where
  -- What the preparation leaves: a word count, and that many words.
  record Prepared (packing_enabled : Bool) (bytes : List ℕ) (scratch : Scratch F) : Type 0 where
    counted :
        (prepare_words packing_enabled bytes scratch).0 ≡ word_count packing_enabled (length bytes)
    held :
        length (
          take
            (prepare_words packing_enabled bytes scratch).0
            (block_words packing_enabled (prepare_words packing_enabled bytes scratch).1))
        ≡ word_count packing_enabled (length bytes)

  prepare_words-Prepared :
      (packing_enabled : Bool) (bytes : List ℕ) (scratch : Scratch F)
      → Prepared packing_enabled bytes scratch
  unfolding prepare_words
  prepare_words-Prepared true bytes scratch = record {
    counted = omega (arith, unpacked.count);
    held = omega (
      arith,
      length-take w.written w.output,
      unpacked.count,
      unpacked.same_room,
      room,
      word_count-le (length bytes),
    );
  }
    where
      out : List ℕ
      out = resize scratch.unpacked (unpacked_sample_count (length bytes)) 0

      room : length out ≡ unpacked_sample_count (length bytes)
      room = length-resize scratch.unpacked (unpacked_sample_count (length bytes)) 0

      w : Written
      w = unpack_samples bytes out

      unpacked :
          Pushed
            (record { output = out; written = 0 })
            w
            (length bytes / 12 * 8 + tail_samples (length bytes % 12))
      unpacked = unpack_samples-written bytes out room
  prepare_words-Prepared false bytes scratch = record {
    counted = length-le_words bytes;
    held =
        omega
          (arith, length-take (length (le_words bytes)) (le_words bytes), length-le_words bytes);
  }

  -- The reported count is that of the whole samples, of which an IQ sample takes two values; the slice
  -- delivered holds exactly the values of that many samples.
  pub record Delivers (s : SampleType) (packing_enabled : Bool) (bytes : List ℕ) (out : Block F)
      : Type 0 where
    pub reported : out.0.1 ≡ word_count packing_enabled (length bytes) / components s
    pub slice : delivered out.0.0 ≡ out.0.1 * components s

  module _ (f : FloatOps F) where
    words-Delivers :
        (s : SampleType) (packing_enabled : Bool) (bytes src : List ℕ) (n : ℕ) (scratch : Scratch F)
        → is_raw s ≡ false
        → n ≡ word_count packing_enabled (length bytes)
        → length src ≡ n
        → Delivers s packing_enabled bytes (convert_words f s n src scratch)
    unfolding convert_words convert_samples_float convert_samples_int16
    words-Delivers float32_iq p bytes src n scratch r hn hs = record {
      reported = omega (arith, hn);
      slice = omega (
        arith,
        length-take (n / 2 * 2) (Float.process f scratch.cnv_f out).0,
        Float.length-process f scratch.cnv_f out,
        length-write_each (λ s. f.mul (f.of_int (pos s -ℤ pos 2048)) f.sample_scale) src
            (resize scratch.out_f32 n f.zero_f),
        length-resize scratch.out_f32 n f.zero_f,
      );
    }
      where
        out : List F
        out = convert_samples_float f src (resize scratch.out_f32 n f.zero_f)
    words-Delivers float32_real p bytes src n scratch r hn hs = record {
      reported = omega (arith, hn);
      slice = omega (
        arith,
        length-write_each (λ s. f.mul (f.of_int (pos s -ℤ pos 2048)) f.sample_scale) src
            (resize scratch.out_f32 n f.zero_f),
        length-resize scratch.out_f32 n f.zero_f,
      );
    }
    words-Delivers int16_iq p bytes src n scratch r hn hs = record {
      reported = omega (arith, hn);
      slice = omega (
        arith,
        length-take (n / 2 * 2) (Fixed.process scratch.cnv_i out).0,
        Blocks.length-process scratch.cnv_i out,
        length-write_each sample_int16 src (resize scratch.out_i16 n (pos 0)),
        length-resize scratch.out_i16 n (pos 0),
      );
    }
      where
        out : List ℤ
        out = convert_samples_int16 src (resize scratch.out_i16 n (pos 0))
    words-Delivers int16_real p bytes src n scratch r hn hs = record {
      reported = omega (arith, hn);
      slice = omega (
        arith,
        length-write_each sample_int16 src (resize scratch.out_i16 n (pos 0)),
        length-resize scratch.out_i16 n (pos 0),
      );
    }
    words-Delivers uint16_real p bytes src n scratch r hn hs = record {
      reported = omega (arith, hn);
      slice = omega (arith, hs);
    }
    words-Delivers SampleType.raw p bytes src n scratch r hn hs = absurd (ground (arith, r))

prepared-Delivers :
    {F : Type 0} (f : FloatOps F) (s : SampleType) (packing_enabled : Bool) (bytes : List ℕ)
    (scratch : Scratch F)
    → is_raw s ≡ false
    → (let prepared = prepare_words packing_enabled bytes scratch in
        Delivers s packing_enabled bytes (
          convert_words f s prepared.0
            (take prepared.0 (block_words packing_enabled prepared.1))
            prepared.1))
prepared-Delivers f s p bytes scratch r =
    words-Delivers f s p bytes
      (take (prepare_words p bytes scratch).0 (block_words p (prepare_words p bytes scratch).1))
      (prepare_words p bytes scratch).0 (prepare_words p bytes scratch).1 r prepared.counted
      (prepared.held ∙ sym prepared.counted)
  where
    prepared : Prepared p bytes scratch
    prepared = prepare_words-Prepared p bytes scratch

-- For every sample type but RAW, packed or not and from any state of the scratch, the count that
-- `convert_block` reports is the number of whole 12-bit samples or 16-bit words in the block, halved for
-- the IQ types, and the slice it delivers holds one value per counted sample, or two for IQ types.
pub convert_block-Delivers :
    {F : Type 0} (f : FloatOps F) (s : SampleType) (packing_enabled : Bool) (bytes : List ℕ)
    (scratch : Scratch F)
    → is_raw s ≡ false
    → Delivers s packing_enabled bytes (convert_block f s packing_enabled bytes scratch)
unfolding convert_block
convert_block-Delivers f float32_iq p bytes scratch r =
    prepared-Delivers f float32_iq p bytes scratch r
convert_block-Delivers f float32_real p bytes scratch r =
    prepared-Delivers f float32_real p bytes scratch r
convert_block-Delivers f int16_iq p bytes scratch r = prepared-Delivers f int16_iq p bytes scratch r
convert_block-Delivers f int16_real p bytes scratch r =
    prepared-Delivers f int16_real p bytes scratch r
convert_block-Delivers f uint16_real p bytes scratch r =
    prepared-Delivers f uint16_real p bytes scratch r
convert_block-Delivers f SampleType.raw p bytes scratch r = absurd (ground (arith, r))
