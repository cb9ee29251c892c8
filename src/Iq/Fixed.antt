-- ===== src/Iq/Fixed.antt =====
-- crates/libairspy/src/iqconverter_int16.rs, `IqConverterInt16`, and `HB_KERNEL_INT16` of filters.rs.
-- Samples, taps and the queue's entries are integers; every cast and wrapping operation of the source
-- is `wrap16` or `wrap32`.
pub mod Dc
pub mod Blocks
pub mod Pipeline
use libairspy_rs.Base.{
  ℕ, zero, suc, ◌+◌, ◌*◌, ◌/◌, ◌≡◌, refl, List, [], ◌∷◌, ◌++◌, length, replicate,
}
use libairspy_rs.Base.Int.{ℤ, pos, negsuc, ◌+ℤ◌, ◌-ℤ◌, ◌*ℤ◌, shr_ℤ, wrap16, wrap32}
use libairspy_rs.Iq.Queue.{Slide}
use libairspy_rs.Iq.Fir.{fir_pass}
use libairspy_rs.Iq.Delay.{Ring, delay_pass}

abbrev pub neg_ℤ : ℤ → ℤ
neg_ℤ z = pos 0 -ℤ z

abbrev pub size_factor : ℕ
size_factor = 16

abbrev pub dc_pole_q15 : ℤ
dc_pole_q15 = pos 32100

abbrev pub q15_shift : ℕ
q15_shift = 15

-- `HB_KERNEL_INT16`.
abbrev pub hb_kernel_int16 : List ℤ
hb_kernel_int16 =
    negsuc 32
    ∷ pos 0
    ∷ pos 56
    ∷ pos 0
    ∷ negsuc 99
    ∷ pos 0
    ∷ pos 166
    ∷ pos 0
    ∷ negsuc 258
    ∷ pos 0
    ∷ pos 389
    ∷ pos 0
    ∷ negsuc 570
    ∷ pos 0
    ∷ pos 829
    ∷ pos 0
    ∷ negsuc 1219
    ∷ pos 0
    ∷ pos 1885
    ∷ pos 0
    ∷ negsuc 3352
    ∷ pos 0
    ∷ pos 10389
    ∷ pos 16384
    ∷ pos 10389
    ∷ pos 0
    ∷ negsuc 3352
    ∷ pos 0
    ∷ pos 1885
    ∷ pos 0
    ∷ negsuc 1219
    ∷ pos 0
    ∷ pos 829
    ∷ pos 0
    ∷ negsuc 570
    ∷ pos 0
    ∷ pos 389
    ∷ pos 0
    ∷ negsuc 258
    ∷ pos 0
    ∷ pos 166
    ∷ pos 0
    ∷ negsuc 99
    ∷ pos 0
    ∷ pos 56
    ∷ pos 0
    ∷ negsuc 32
    ∷ []

pub record IqConverterInt16 : Type 0 where
  pub fir_kernel : List ℤ
  pub fir : Slide ℤ
  pub delay : Ring ℤ
  pub old_x : ℤ
  pub old_y : ℤ
  pub old_e : ℤ

-- `iter().step_by(2)`.
abbrev pub every_other {ℓ} : {A : Type ℓ} → List A → List A
every_other [] = []
every_other (x ∷ []) = x ∷ []
every_other (x ∷ y ∷ rest) = x ∷ every_other rest

unfoldable pub new : List ℤ → IqConverterInt16
new hb_kernel =
    let len = length hb_kernel / 2 + 1 in
    record {
      fir_kernel = every_other hb_kernel;
      fir = record { queue = replicate (len * size_factor) (pos 0); index = 0 };
      delay = record { line = replicate (len / 2) (pos 0); index = 0 };
      old_x = pos 0;
      old_y = pos 0;
      old_e = pos 0;
    }

-- `fill(0)` keeps each buffer's length.
unfoldable pub reset : IqConverterInt16 → IqConverterInt16
reset c = record {
  fir_kernel = c.fir_kernel;
  fir = record { queue = replicate (length c.fir.queue) (pos 0); index = 0 };
  delay = record { line = replicate (length c.delay.line) (pos 0); index = 0 };
  old_x = pos 0;
  old_y = pos 0;
  old_e = pos 0;
}

-- The accumulator loop: 32-bit wrapping products and sums, from the first tap on.
unfoldable pub accumulate : ℤ → List ℤ → List ℤ → ℤ
accumulate acc [] window = acc
accumulate acc (k ∷ ks) [] = acc
accumulate acc (k ∷ ks) (q ∷ qs) = accumulate (wrap32 (acc +ℤ wrap32 (k *ℤ q))) ks qs

unfoldable pub fir_sum : List ℤ → List ℤ → ℤ
fir_sum kernel window = wrap16 (shr_ℤ (accumulate (pos 0) kernel window) q15_shift)

unfoldable pub fir_interleaved : IqConverterInt16 → List ℤ → List ℤ × IqConverterInt16
fir_interleaved c samples =
    let pass = fir_pass size_factor (length c.fir_kernel) (fir_sum c.fir_kernel) c.fir samples in
    (
      pass.0,
      record {
        fir_kernel = c.fir_kernel;
        fir = pass.1;
        delay = c.delay;
        old_x = c.old_x;
        old_y = c.old_y;
        old_e = c.old_e;
      },
    )

unfoldable pub delay_interleaved : IqConverterInt16 → List ℤ → List ℤ × IqConverterInt16
delay_interleaved c samples =
    let pass = delay_pass c.delay samples in
    (
      pass.0,
      record {
        fir_kernel = c.fir_kernel;
        fir = c.fir;
        delay = pass.1;
        old_x = c.old_x;
        old_y = c.old_y;
        old_e = c.old_e;
      },
    )

-- The three locals of `remove_dc`.
pub record Blocker : Type 0 where
  pub old_x : ℤ
  pub old_y : ℤ
  pub old_e : ℤ

abbrev pub w_of : Blocker → ℤ → ℤ
w_of b x = wrap16 (x -ℤ b.old_x)

abbrev pub u_of : Blocker → ℤ
u_of b = wrap32 (b.old_e +ℤ wrap32 (b.old_y *ℤ dc_pole_q15))

abbrev pub sh_of : Blocker → ℤ
sh_of b = wrap16 (shr_ℤ (u_of b) q15_shift)

-- One round of the loop of `remove_dc`; `sh << 15` is exact for a 16-bit `sh`.
unfoldable pub block_dc : Blocker → ℤ → Blocker
block_dc b x = record {
  old_x = x;
  old_y = wrap16 (w_of b x +ℤ sh_of b);
  old_e = wrap32 (u_of b -ℤ wrap32 (sh_of b *ℤ pos 32768));
}

unfoldable pub block_all : Blocker → List ℤ → List ℤ × Blocker
block_all b [] = ([], b)
block_all b (x ∷ rest) =
    let b' = block_dc b x in let after = block_all b' rest in (b'.old_y ∷ after.0, after.1)

abbrev pub blocker : IqConverterInt16 → Blocker
blocker c = record { old_x = c.old_x; old_y = c.old_y; old_e = c.old_e }

unfoldable pub remove_dc : IqConverterInt16 → List ℤ → List ℤ × IqConverterInt16
remove_dc c samples =
    let pass = block_all (blocker c) samples in
    (
      pass.0,
      record {
        fir_kernel = c.fir_kernel;
        fir = c.fir;
        delay = c.delay;
        old_x = pass.1.old_x;
        old_y = pass.1.old_y;
        old_e = pass.1.old_e;
      },
    )

-- `-i32::from(s) as i16`, `(-i32::from(s) >> 1) as i16` and `(i32::from(s) >> 1) as i16`.
abbrev pub phase0 : ℤ → ℤ
phase0 s = wrap16 (neg_ℤ s)

abbrev pub phase1 : ℤ → ℤ
phase1 s = wrap16 (shr_ℤ (neg_ℤ s) 1)

abbrev pub phase3 : ℤ → ℤ
phase3 s = wrap16 (shr_ℤ s 1)

unfoldable pub apply_fs_4_phases : List ℤ → List ℤ
apply_fs_4_phases [] = []
apply_fs_4_phases (a ∷ []) = phase0 a ∷ []
apply_fs_4_phases (a ∷ b ∷ []) = phase0 a ∷ phase1 b ∷ []
apply_fs_4_phases (a ∷ b ∷ c ∷ []) = phase0 a ∷ phase1 b ∷ c ∷ []
apply_fs_4_phases (a ∷ b ∷ c ∷ d ∷ rest) =
    phase0 a ∷ phase1 b ∷ c ∷ phase3 d ∷ apply_fs_4_phases rest

unfoldable pub translate_fs_4 : IqConverterInt16 → List ℤ → List ℤ × IqConverterInt16
translate_fs_4 c samples =
    let filtered = fir_interleaved c (apply_fs_4_phases samples) in
    delay_interleaved filtered.1 filtered.0

unfoldable pub process : IqConverterInt16 → List ℤ → List ℤ × IqConverterInt16
process c samples = let blocked = remove_dc c samples in translate_fs_4 blocked.1 blocked.0
