-- ===== src/Iq/Fir.antt =====
-- The loop of `fir_interleaved`, `fir_symmetric` and `fir_generic` over the even samples
-- (crates/libairspy/src/iqconverter_int16.rs and iqconverter_float.rs), which differ in the sum that
-- they take of a window.
use libairspy_rs.Base.{ℕ, suc, ◌%◌, ◌≡◌, refl, ap, List, [], ◌∷◌, ◌++◌, arith, length, take}
use libairspy_rs.Iq.Queue.{Slide, insert, window, advance, Holds, window-insert, advance-Holds}

unfoldable pub fir_pass {ℓ} :
    {A : Type ℓ} → ℕ → ℕ → (List A → A) → Slide A → List A → List A × Slide A
fir_pass size_factor fir_len sum s [] = ([], s)
fir_pass size_factor fir_len sum s (x ∷ []) =
    (sum (window fir_len (insert s x)) ∷ [], advance size_factor fir_len (insert s x))
fir_pass size_factor fir_len sum s (x ∷ y ∷ rest) =
    let after = fir_pass size_factor fir_len sum (advance size_factor fir_len (insert s x)) rest in
    (sum (window fir_len (insert s x)) ∷ y ∷ after.0, after.1)

-- A filter of n + 1 taps, on the samples seen so far, newest first: every even sample becomes the sum
-- over itself and the n even samples before it.
unfoldable pub filtered {ℓ} : {A : Type ℓ} → ℕ → (List A → A) → List A → List A → List A
filtered n sum hist [] = []
filtered n sum hist (x ∷ []) = sum (x ∷ take n hist) ∷ []
filtered n sum hist (x ∷ y ∷ rest) = sum (x ∷ take n hist) ∷ y ∷ filtered n sum (x ∷ hist) rest

-- The even samples of a block, put before the history.
unfoldable pub seen {ℓ} : {A : Type ℓ} → List A → List A → List A
seen hist [] = hist
seen hist (x ∷ []) = x ∷ hist
seen hist (x ∷ y ∷ rest) = seen (x ∷ hist) rest

-- The sliding queue with its copy back computes the filter, and stands for the history afterwards.
pub record Filters {ℓ} {A : Type ℓ} (size_factor n : ℕ) (sum : List A → A) (hist samples : List A)
    (s : Slide A) : Type ℓ where
  pub output : (fir_pass size_factor (suc n) sum s samples).0 ≡ filtered n sum hist samples
  pub keeps : Holds size_factor n (seen hist samples) (fir_pass size_factor (suc n) sum s samples).1

module _ {ℓ} {A : Type ℓ} (size_factor : ℕ) (sum : List A → A) where
  -- On a queue that stands for the history `hist`, the loop over a block replaces every even sample by
  -- the sum over it and the n even samples before it, earlier blocks included, leaves the odd samples
  -- alone, and leaves a queue that stands for the history with the block's even samples.
  pub fir_pass-Filters :
      (n : ℕ) (hist samples : List A) (s : Slide A)
      → Holds size_factor n hist s
      → Filters size_factor n sum hist samples s
  unfolding fir_pass filtered seen
  fir_pass-Filters n hist [] s h = record { output = refl; keeps = h }
  fir_pass-Filters n hist (x ∷ []) s h = record {
    output = ap (λ w. sum w ∷ []) (window-insert size_factor n hist s x h);
    keeps = advance-Holds size_factor n hist s x h;
  }
  fir_pass-Filters n hist (x ∷ y ∷ rest) s h =
      let after =
        fir_pass-Filters n (x ∷ hist) rest (advance size_factor (suc n) (insert s x))
          (advance-Holds size_factor n hist s x h) in
      record {
        output = rw (window-insert size_factor n hist s x h, after.output) refl;
        keeps = after.keeps;
      }

  -- Two blocks filtered one after the other give what their concatenation gives, if the first has an
  -- even number of samples.
  pub fir_pass-append :
      (fir_len : ℕ) (s : Slide A) (a b : List A)
      → length a % 2 ≡ 0
      → fir_pass size_factor fir_len sum s (a ++ b) ≡ (
        (fir_pass size_factor fir_len sum s a).0
            ++ (fir_pass size_factor fir_len sum (fir_pass size_factor fir_len sum s a).1 b).0,
        (fir_pass size_factor fir_len sum (fir_pass size_factor fir_len sum s a).1 b).1,
      )
  unfolding fir_pass
  fir_pass-append fir_len s [] b h = refl
  fir_pass-append fir_len s (x ∷ []) b h = absurd (omega arith)
  fir_pass-append fir_len s (x ∷ y ∷ rest) b h =
      ap (λ (r : List A × Slide A). (sum (window fir_len (insert s x)) ∷ y ∷ r.0, r.1))
        (fir_pass-append fir_len (advance size_factor fir_len (insert s x)) rest b (omega arith))

  pub length-fir_pass :
      (fir_len : ℕ) (s : Slide A) (a : List A)
      → length (fir_pass size_factor fir_len sum s a).0 ≡ length a
  unfolding fir_pass
  length-fir_pass fir_len s [] = refl
  length-fir_pass fir_len s (x ∷ []) = refl
  length-fir_pass fir_len s (x ∷ y ∷ rest) =
      ap (λ k. suc (suc k))
        (length-fir_pass fir_len (advance size_factor fir_len (insert s x)) rest)
