-- ===== src/Stream/Consumer/Accounts.antt =====
-- What `run_consumer` (crates/libairspy/src/stream.rs) reports as lost, and which buffers it gives back.
use native.Mathlib.Nat.{mod-eq_of_lt, mul-le-mul_left}
use libairspy_rs.Base.{
  ℕ, ◌+◌, ◌*◌, ◌/◌, ◌%◌, ◌^◌, ◌≤◌, ◌<◌, ◌≡◌, refl, ap, ap₂, ◌∙◌, map, Bool, true, false, List, [],
  ◌∷◌, length, All, if◌then◌else◌, arith,
}
use libairspy_rs.Commands.{SampleType, float32_iq, float32_real, int16_iq, int16_real, uint16_real}
use libairspy_rs.Conversion.Unpack.{unpacked_sample_count}
use libairspy_rs.Conversion.Dispatch.{Samples, Scratch, convert_block}
use libairspy_rs.Conversion.Dispatch.Sizes.{is_raw, components, word_count, convert_block-Delivers}
use libairspy_rs.Iq.Float.{FloatOps}
use libairspy_rs.Stream.{Buf, buffer_size_for}
use libairspy_rs.Stream.Consumer.{
  Transfer, Turn, stopped, closed, raced, block, Consumed, run_consumer,
}

-- The samples in a block of `len` bytes.
abbrev pub block_samples : SampleType → Bool → ℕ → ℕ
block_samples s packing_enabled len =
    if is_raw s
    then (if packing_enabled then unpacked_sample_count len else len / 2)
    else word_count packing_enabled len / components s

-- The buffers popped, and the counts of lost buffers that come with those called back.
abbrev pub popped : List Turn → List Buf
popped [] = []
popped (stopped ∷ turns) = []
popped (closed ∷ turns) = []
popped (raced buf dropped ∷ turns) = buf ∷ []
popped (block buf dropped true ∷ turns) = buf ∷ popped turns
popped (block buf dropped false ∷ turns) = buf ∷ []

abbrev pub lost_buffers : List Turn → ℕ
lost_buffers [] = 0
lost_buffers (stopped ∷ turns) = 0
lost_buffers (closed ∷ turns) = 0
lost_buffers (raced buf dropped ∷ turns) = 0
lost_buffers (block buf dropped true ∷ turns) = dropped + lost_buffers turns
lost_buffers (block buf dropped false ∷ turns) = dropped

abbrev pub lost_samples : {F : Type 0} → List (Transfer F) → ℕ
lost_samples [] = 0
lost_samples (t ∷ ts) = t.dropped_samples + lost_samples ts

-- The buffers of the blocks called back, and the counts of lost buffers one by one.
abbrev pub called_back : List Turn → List Buf
called_back [] = []
called_back (stopped ∷ turns) = []
called_back (closed ∷ turns) = []
called_back (raced buf dropped ∷ turns) = []
called_back (block buf dropped true ∷ turns) = buf ∷ called_back turns
called_back (block buf dropped false ∷ turns) = buf ∷ []

abbrev pub drop_counts : List Turn → List ℕ
drop_counts [] = []
drop_counts (stopped ∷ turns) = []
drop_counts (closed ∷ turns) = []
drop_counts (raced buf dropped ∷ turns) = []
drop_counts (block buf dropped true ∷ turns) = dropped ∷ drop_counts turns
drop_counts (block buf dropped false ∷ turns) = dropped ∷ []

-- The queue hands out buffers of one size with 32-bit counts.
abbrev pub OfSize : ℕ → Turn → Type 0
OfSize n (block buf dropped keep) = (length buf ≡ n) × (dropped < 2 ^ 32)
OfSize n _ = Unit

module _ {F : Type 0} (f : FloatOps F) where
  count-lem :
      (s : SampleType) (p : Bool) (bytes : List ℕ) (scratch : Scratch F)
      → (convert_block f s p bytes scratch).0.1 ≡ block_samples s p (length bytes)
  unfolding convert_block
  count-lem SampleType.raw p bytes scratch = refl
  count-lem float32_iq p bytes scratch =
      (convert_block-Delivers f float32_iq p bytes scratch refl).reported
  count-lem float32_real p bytes scratch =
      (convert_block-Delivers f float32_real p bytes scratch refl).reported
  count-lem int16_iq p bytes scratch =
      (convert_block-Delivers f int16_iq p bytes scratch refl).reported
  count-lem int16_real p bytes scratch =
      (convert_block-Delivers f int16_real p bytes scratch refl).reported
  count-lem uint16_real p bytes scratch =
      (convert_block-Delivers f uint16_real p bytes scratch refl).reported

  -- The blocks of a stream hold few samples.
  pub few_samples : (s : SampleType) (p : Bool) → block_samples s p (buffer_size_for p) ≤ 2 ^ 32
  unfolding unpacked_sample_count
  few_samples SampleType.raw true = omega arith
  few_samples SampleType.raw false = omega arith
  few_samples float32_iq true = omega arith
  few_samples float32_iq false = omega arith
  few_samples float32_real true = omega arith
  few_samples float32_real false = omega arith
  few_samples int16_iq true = omega arith
  few_samples int16_iq false = omega arith
  few_samples int16_real true = omega arith
  few_samples int16_real false = omega arith
  few_samples uint16_real true = omega arith
  few_samples uint16_real false = omega arith

  -- One conversion after the other, each with the scratch that the one before it left.
  abbrev pub conversions : SampleType → Bool → List Buf → Scratch F → List (Samples F)
  conversions s p [] scratch = []
  conversions s p (buf ∷ bufs) scratch =
      let converted = convert_block f s p buf scratch in
      converted.0.0 ∷ conversions s p bufs converted.1

  pub record Accounts (s : SampleType) (p : Bool) (n : ℕ) (turns : List Turn) (scratch : Scratch F)
      (c : Consumed F) : Type 0 where
    pub samples : map (λ t. t.samples) c.delivered ≡ conversions s p (called_back turns) scratch
    pub types : All (λ t. t.sample_type ≡ s) c.delivered
    pub counts :
        map (λ t. t.dropped_samples) c.delivered
        ≡ map (λ d. d * block_samples s p n) (drop_counts turns)
    pub returned : c.recycled ≡ popped turns
    pub lost : lost_samples c.delivered ≡ lost_buffers turns * block_samples s p n

  small_product : (a b : ℕ) → a < 2 ^ 32 → b ≤ 2 ^ 32 → a * b < 2 ^ 64
  small_product a b h k = omega (arith, mul-le-mul_left a k)

  -- One block's lost samples do not wrap.
  unwrapped :
      (s : SampleType) (p : Bool) (n : ℕ) (buf : Buf) (dropped : ℕ) (scratch : Scratch F)
      → block_samples s p n ≤ 2 ^ 32
      → length buf ≡ n
      → dropped < 2 ^ 32
      → dropped * (convert_block f s p buf scratch).0.1 % 2 ^ 64 ≡ dropped * block_samples s p n
  unwrapped s p n buf dropped scratch few size small =
      ap (λ k. dropped * k % 2 ^ 64) (count-lem s p buf scratch ∙ ap (block_samples s p) size)
      ∙ mod-eq_of_lt {n = dropped * block_samples s p n} {m = 2 ^ 64}
          (small_product dropped (block_samples s p n) small few)

  -- Over buffers of one size that holds at most 2^32 samples, as those of a stream do, and whatever the
  -- queue, the flags and the callback answer: the callback gets the conversions of the buffers popped before a
  -- stop, in order, each with the scratch of the one before it, under the stream's sample type, and with the
  -- lost buffers that came with its own times the samples of a buffer, which never wraps. Every buffer popped
  -- is given back once, in order.
  pub run_consumer-Accounts :
      (s : SampleType) (p : Bool) (n : ℕ) (turns : List Turn) (scratch : Scratch F)
      → block_samples s p n ≤ 2 ^ 32
      → All (OfSize n) turns
      → Accounts s p n turns scratch (run_consumer f s p turns scratch)
  unfolding run_consumer
  run_consumer-Accounts s p n [] scratch few h = record {
    samples = refl;
    types = tt;
    counts = refl;
    returned = refl;
    lost = omega arith;
  }
  run_consumer-Accounts s p n (stopped ∷ turns) scratch few h = record {
    samples = refl;
    types = tt;
    counts = refl;
    returned = refl;
    lost = omega arith;
  }
  run_consumer-Accounts s p n (closed ∷ turns) scratch few h = record {
    samples = refl;
    types = tt;
    counts = refl;
    returned = refl;
    lost = omega arith;
  }
  run_consumer-Accounts s p n (raced buf dropped ∷ turns) scratch few h = record {
    samples = refl;
    types = tt;
    counts = refl;
    returned = refl;
    lost = omega arith;
  }
  run_consumer-Accounts s p n (block buf dropped true ∷ turns) scratch few h =
      let rest = run_consumer-Accounts s p n turns (convert_block f s p buf scratch).1 few h.1 in
      record {
        samples = ap (◌∷◌ (convert_block f s p buf scratch).0.0) rest.samples;
        types = (refl, rest.types);
        counts =
            ap₂ (λ d ds. d ∷ ds) (unwrapped s p n buf dropped scratch few h.0.0 h.0.1) rest.counts;
        returned = ap (◌∷◌ buf) rest.returned;
        lost = grind (arith, rest.lost, unwrapped s p n buf dropped scratch few h.0.0 h.0.1);
      }
  run_consumer-Accounts s p n (block buf dropped false ∷ turns) scratch few h = record {
    samples = refl;
    types = (refl, tt);
    counts = ap (λ d. d ∷ []) (unwrapped s p n buf dropped scratch few h.0.0 h.0.1);
    returned = refl;
    lost = omega (arith, unwrapped s p n buf dropped scratch few h.0.0 h.0.1);
  }
