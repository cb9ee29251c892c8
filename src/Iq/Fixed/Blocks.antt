-- ===== src/Iq/Fixed/Blocks.antt =====
-- `IqConverterInt16::process` over a stream that arrives in blocks.
use libairspy_rs.Base.{suc, ◌%◌, ◌≡◌, refl, ap, List, [], ◌∷◌, ◌++◌, arith, length}
use libairspy_rs.Base.Int.{ℤ}
use libairspy_rs.Iq.Queue.{Slide}
use libairspy_rs.Iq.Fir.{fir_pass, fir_pass-append, length-fir_pass}
use libairspy_rs.Iq.Delay.{delay_pass-append, length-delay_pass}
use libairspy_rs.Iq.Fixed.{
  IqConverterInt16, Blocker, block_dc, block_all, remove_dc, apply_fs_4_phases, fir_interleaved,
  delay_interleaved, translate_fs_4, process, phase0, phase1, phase3, blocker, fir_sum,
}

-- A stage run over two blocks, one after the other.
abbrev pub in_two {ℓ} : {S : Type ℓ} → (S → List ℤ → List ℤ × S) → S → List ℤ → List ℤ → List ℤ × S
in_two stage s a b = ((stage s a).0 ++ (stage (stage s a).1 b).0, (stage (stage s a).1 b).1)

block_all-append :
    (b : Blocker) (xs ys : List ℤ) → block_all b (xs ++ ys) ≡ in_two block_all b xs ys
unfolding block_all
block_all-append b [] ys = refl
block_all-append b (x ∷ xs) ys =
    ap (λ (r : List ℤ × Blocker). ((block_dc b x).old_y ∷ r.0, r.1))
      (block_all-append (block_dc b x) xs ys)

length-block_all : (b : Blocker) (xs : List ℤ) → length (block_all b xs).0 ≡ length xs
unfolding block_all
length-block_all b [] = refl
length-block_all b (x ∷ xs) = ap suc (length-block_all (block_dc b x) xs)

phases-append :
    (xs ys : List ℤ)
    → length xs % 4 ≡ 0
    → apply_fs_4_phases (xs ++ ys) ≡ apply_fs_4_phases xs ++ apply_fs_4_phases ys
unfolding apply_fs_4_phases
phases-append [] ys h = refl
phases-append (a ∷ []) ys h = absurd (omega arith)
phases-append (a ∷ b ∷ []) ys h = absurd (omega arith)
phases-append (a ∷ b ∷ c ∷ []) ys h = absurd (omega arith)
phases-append (a ∷ b ∷ c ∷ d ∷ rest) ys h =
    ap (λ l. phase0 a ∷ phase1 b ∷ c ∷ phase3 d ∷ l) (phases-append rest ys (omega arith))

pub length-phases : (xs : List ℤ) → length (apply_fs_4_phases xs) ≡ length xs
unfolding apply_fs_4_phases
length-phases [] = refl
length-phases (a ∷ []) = refl
length-phases (a ∷ b ∷ []) = refl
length-phases (a ∷ b ∷ c ∷ []) = refl
length-phases (a ∷ b ∷ c ∷ d ∷ rest) = ap (λ k. suc (suc (suc (suc k)))) (length-phases rest)

-- A stream cut after a multiple of four samples and converted in two calls gives the samples, and the
-- converter, that one call gives: the state carries everything across the border, and the phases,
-- which restart with every call, restart there anyway.
pub process-append :
    (c : IqConverterInt16) (xs ys : List ℤ)
    → length xs % 4 ≡ 0
    → process c (xs ++ ys) ≡ in_two process c xs ys
unfolding process translate_fs_4 remove_dc fir_interleaved delay_interleaved
process-append c xs ys h =
    rw
      (
        block_all-append (blocker c) xs ys,
        phases-append dc.0 (block_all dc.1 ys).0 dc_length,
        fir_pass-append 16 (fir_sum c.fir_kernel) (length c.fir_kernel) c.fir
            (apply_fs_4_phases dc.0) (apply_fs_4_phases (block_all dc.1 ys).0)
            (omega (arith, phases_length)),
        delay_pass-append c.delay fir.0
            (fir_pass 16 (length c.fir_kernel) (fir_sum c.fir_kernel) fir.1
              (apply_fs_4_phases (block_all dc.1 ys).0)).0
            (omega (
              arith,
              phases_length,
              length-fir_pass 16 (fir_sum c.fir_kernel) (length c.fir_kernel) c.fir
                  (apply_fs_4_phases dc.0),
            )),
      )
      refl
  where
    dc : List ℤ × Blocker
    dc = block_all (blocker c) xs

    dc_length : length dc.0 % 4 ≡ 0
    dc_length = omega (arith, length-block_all (blocker c) xs)

    phases_length : length (apply_fs_4_phases dc.0) % 4 ≡ 0
    phases_length = omega (arith, length-phases dc.0, dc_length)

    fir : List ℤ × Slide ℤ
    fir = fir_pass 16 (length c.fir_kernel) (fir_sum c.fir_kernel) c.fir (apply_fs_4_phases dc.0)

pub length-process : (c : IqConverterInt16) (xs : List ℤ) → length (process c xs).0 ≡ length xs
unfolding process translate_fs_4 remove_dc fir_interleaved delay_interleaved
length-process c xs = omega (
  arith,
  length-delay_pass c.delay
      (fir_pass 16 (length c.fir_kernel) (fir_sum c.fir_kernel) c.fir phased).0,
  length-fir_pass 16 (fir_sum c.fir_kernel) (length c.fir_kernel) c.fir phased,
  length-phases (block_all (blocker c) xs).0,
  length-block_all (blocker c) xs,
)
  where
    phased : List ℤ
    phased = apply_fs_4_phases (block_all (blocker c) xs).0
