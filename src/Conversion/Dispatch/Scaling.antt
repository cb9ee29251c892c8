-- ===== src/Conversion/Dispatch/Scaling.antt =====
-- The 16-bit scaling of samples (`convert_samples_int16` of crates/libairspy/src/conversion.rs).
use libairspy_rs.Base.{ℕ, ◌+◌, ◌*◌, ◌<◌, ◌≡◌, refl, ap₂, List, [], ◌∷◌, length, map, All, arith}
use libairspy_rs.Base.Int.{ℤ, pos, pos_part, neg_part, ◌-ℤ◌, ◌*ℤ◌, wrap16_id, -ℤ_parts}
use libairspy_rs.Conversion.Dispatch.{sample_int16, convert_samples_int16}

sixteen_times :
    (z : ℤ) → pos_part (z *ℤ pos 16) + 16 * neg_part z ≡ neg_part (z *ℤ pos 16) + 16 * pos_part z
unfolding ◌*ℤ◌
sixteen_times z = ground arith

sample_int16_exact : (s : ℕ) → s < 4096 → sample_int16 s ≡ (pos s -ℤ pos 2048) *ℤ pos 16
unfolding sample_int16
sample_int16_exact s h =
    wrap16_id ((pos s -ℤ pos 2048) *ℤ pos 16)
      (ground (arith, sixteen_times (pos s -ℤ pos 2048), -ℤ_parts (pos s) (pos 2048)))

-- On 12-bit samples and a destination of their number, the conversion writes every slot with sixteen
-- times the sample's distance from 2048: the cast to `i16` never cuts a value.
pub convert_samples_int16-exact :
    (src : List ℕ) (dest : List ℤ)
    → All (λ s. s < 4096) src
    → length dest ≡ length src
    → convert_samples_int16 src dest ≡ map (λ s. (pos s -ℤ pos 2048) *ℤ pos 16) src
unfolding convert_samples_int16
convert_samples_int16-exact [] [] h sized = refl
convert_samples_int16-exact [] (d ∷ dest) h sized = absurd (omega arith)
convert_samples_int16-exact (s ∷ src) [] h sized = absurd (omega arith)
convert_samples_int16-exact (s ∷ src) (d ∷ dest) h sized =
    ap₂ ◌∷◌ (sample_int16_exact s h.0) (convert_samples_int16-exact src dest h.1 (omega arith))
