-- ===== src/Iq/Float.antt =====
-- crates/libairspy/src/iqconverter_float.rs, `IqConverterFloat`. The arithmetic of `f32` is the
-- machine's: a parameter, of which nothing is assumed, with the constants among its values.
use libairspy_rs.Base.{
  ℕ, zero, suc, ◌+◌, ◌-◌, ◌*◌, ◌/◌, ◌==◌, ◌||◌, List, [], ◌∷◌, length, replicate, take, drop,
  get_or, leb, if◌then◌else◌, ◌≡◌, refl, ap, ◌∙◌,
}
use libairspy_rs.Base.Int.{ℤ}
use libairspy_rs.Iq.Queue.{Slide}
use libairspy_rs.Iq.Fir.{fir_pass, length-fir_pass}
use libairspy_rs.Iq.Delay.{Ring, delay_pass, length-delay_pass}
use libairspy_rs.Iq.Fixed.{every_other}

abbrev pub size_factor : ℕ
size_factor = 32

pub record FloatOps (F : Type 0) : Type 0 where
  pub zero_f : F
  pub add : F → F → F
  pub sub : F → F → F
  pub mul : F → F → F
  pub neg : F → F
  pub of_int : ℤ → F
  pub sample_scale : F
  pub dc_scale : F

pub record IqConverterFloat (F : Type 0) : Type 0 where
  pub fir_kernel : List F
  pub fir : Slide F
  pub delay : Ring F
  pub hbc : F
  pub avg : F

module _ {F : Type 0} (f : FloatOps F) where
  unfoldable pub new : List F → IqConverterFloat F
  new hb_kernel =
      let len = length hb_kernel / 2 + 1 in
      record {
        fir_kernel = every_other hb_kernel;
        fir = record { queue = replicate (len * size_factor) f.zero_f; index = 0 };
        delay = record { line = replicate (len / 2) f.zero_f; index = 0 };
        hbc = get_or hb_kernel (length hb_kernel / 2) f.zero_f;
        avg = f.zero_f;
      }

  unfoldable pub reset : IqConverterFloat F → IqConverterFloat F
  reset c = record {
    fir_kernel = c.fir_kernel;
    fir = record { queue = replicate (length c.fir.queue) f.zero_f; index = 0 };
    delay = record { line = replicate (length c.delay.line) f.zero_f; index = 0 };
    hbc = c.hbc;
    avg = f.zero_f;
  }

  -- `acc += kernel[k] * (queue[k] + queue[n - 1 - k])` for k below `half`, from `k` on.
  unfoldable pub symmetric_from : ℕ → ℕ → F → List F → List F → F
  symmetric_from zero k acc kernel queue = acc
  symmetric_from (suc left) k acc kernel queue =
      symmetric_from left (k + 1)
        (f.add acc (
          f.mul (get_or kernel k f.zero_f)
            (f.add (get_or queue k f.zero_f) (get_or queue (length kernel - 1 - k) f.zero_f))))
        kernel queue

  unfoldable pub symmetric_sum : List F → List F → F
  symmetric_sum kernel queue = symmetric_from (length kernel / 2) 0 f.zero_f kernel queue

  -- `kernel[k] * queue[k] + ...` over the first taps, added from the left.
  unfoldable pub block_from : F → List F → List F → F
  block_from acc (k ∷ ks) (q ∷ qs) = block_from (f.add acc (f.mul k q)) ks qs
  block_from acc _ _ = acc

  abbrev pub block_sum : List F → List F → F
  block_sum (k ∷ ks) (q ∷ qs) = block_from (f.mul k q) ks qs
  block_sum _ _ = f.zero_f

  -- The last two steps of `process_fir_taps`: a block of four, then a block of two.
  unfoldable pub rest_taps : F → List F → List F → F
  rest_taps sum kernel queue =
      let four = leb 4 (length kernel) in
      let sum4 = if four then f.add sum (block_sum (take 4 kernel) (take 4 queue)) else sum in
      let kernel4 = if four then drop 4 kernel else kernel in
      let queue4 = if four then drop 4 queue else queue in
      if leb 2 (length kernel4)
      then f.add sum4 (block_sum (take 2 kernel4) (take 2 queue4))
      else sum4

  -- The loop over blocks of eight, of which there are `length kernel / 8`.
  unfoldable pub fir_taps : ℕ → F → List F → List F → F
  fir_taps zero sum kernel queue = rest_taps sum kernel queue
  fir_taps (suc blocks) sum kernel queue =
      fir_taps blocks (f.add sum (block_sum (take 8 kernel) (take 8 queue))) (drop 8 kernel)
        (drop 8 queue)

  unfoldable pub process_fir_taps : List F → List F → F
  process_fir_taps kernel queue = fir_taps (length kernel / 8) f.zero_f kernel queue

  -- `SYMMETRIC_FIR_LENGTHS` and the dispatch of `fir_interleaved`.
  unfoldable pub fir_sum : List F → List F → F
  fir_sum kernel queue =
      let n = length kernel in
      if (n == 4) || ((n == 8) || ((n == 12) || (n == 24)))
      then symmetric_sum kernel queue
      else process_fir_taps kernel queue

  unfoldable pub remove_dc : F → List F → List F × F
  remove_dc avg [] = ([], avg)
  remove_dc avg (s ∷ rest) =
      let s' = f.sub s avg in
      let after = remove_dc (f.add avg (f.mul f.dc_scale s')) rest in (s' ∷ after.0, after.1)

  -- A tail of fewer than four samples is left alone.
  unfoldable pub apply_phases : F → List F → List F
  apply_phases hbc (a ∷ b ∷ c ∷ d ∷ rest) =
      f.neg a ∷ f.mul (f.neg b) hbc ∷ c ∷ f.mul d hbc ∷ apply_phases hbc rest
  apply_phases hbc samples = samples

  unfoldable pub process : IqConverterFloat F → List F → List F × IqConverterFloat F
  process c samples =
      let blocked = remove_dc c.avg samples in
      let filtered =
        fir_pass size_factor (length c.fir_kernel) (fir_sum c.fir_kernel) c.fir
          (apply_phases c.hbc blocked.0) in
      let delayed = delay_pass c.delay filtered.0 in
      (
        delayed.0,
        record {
          fir_kernel = c.fir_kernel;
          fir = filtered.1;
          delay = delayed.1;
          hbc = c.hbc;
          avg = blocked.1;
        },
      )

  length-remove_dc : (avg : F) (xs : List F) → length (remove_dc avg xs).0 ≡ length xs
  unfolding remove_dc
  length-remove_dc avg [] = refl
  length-remove_dc avg (x ∷ xs) =
      ap suc (length-remove_dc (f.add avg (f.mul f.dc_scale (f.sub x avg))) xs)

  length-apply_phases : (hbc : F) (xs : List F) → length (apply_phases hbc xs) ≡ length xs
  unfolding apply_phases
  length-apply_phases hbc [] = refl
  length-apply_phases hbc (a ∷ []) = refl
  length-apply_phases hbc (a ∷ b ∷ []) = refl
  length-apply_phases hbc (a ∷ b ∷ c ∷ []) = refl
  length-apply_phases hbc (a ∷ b ∷ c ∷ d ∷ rest) =
      ap (λ k. suc (suc (suc (suc k)))) (length-apply_phases hbc rest)

  pub length-process : (c : IqConverterFloat F) (xs : List F) → length (process c xs).0 ≡ length xs
  unfolding process
  length-process c xs =
      length-delay_pass c.delay
        (fir_pass size_factor (length c.fir_kernel) (fir_sum c.fir_kernel) c.fir
          (apply_phases c.hbc (remove_dc c.avg xs).0)).0
      ∙ (length-fir_pass size_factor (fir_sum c.fir_kernel) (length c.fir_kernel) c.fir
            (apply_phases c.hbc (remove_dc c.avg xs).0)
          ∙ (length-apply_phases c.hbc (remove_dc c.avg xs).0 ∙ length-remove_dc c.avg xs))
