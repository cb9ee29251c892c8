-- ===== src/Tests/Samples.antt =====
-- Unpacking, conversion and the IQ converter.
use libairspy_rs.Base.{
  ℕ, ◌+◌, ◌*◌, ◌/◌, ◌%◌, ◌≡◌, refl, true, List, [], ◌∷◌, ◌++◌, length, replicate, arith,
}
use libairspy_rs.Base.Int.{ℤ, pos, negsuc}
use libairspy_rs.Commands.{int16_iq}
use libairspy_rs.Conversion.Unpack.{unpack_samples, unpacked_sample_count}
use libairspy_rs.Conversion.Counts.{Pushed, tail_samples, unpack_samples-written}
use libairspy_rs.Conversion.Packing.{Group, pack, flatten, Fits, unpack_samples-pack}
use libairspy_rs.Conversion.Dispatch.{convert_block, fresh_scratch}
use libairspy_rs.Conversion.Dispatch.Sizes.{Delivers, convert_block-Delivers}
use libairspy_rs.Iq.Fixed.{Blocker, new, reset, process, hb_kernel_int16}
use libairspy_rs.Iq.Fixed.Dc.{IsExact, remove_dc-IsExact}
use libairspy_rs.Iq.Fixed.Blocks.{in_two, process-append}
use libairspy_rs.Iq.Fixed.Pipeline.{Converts, process-Converts, new-IsReady, process_all, reset-new}
use libairspy_rs.Iq.Float.{FloatOps}

abbrev packed : List ℕ
packed = 1 ∷ 2 ∷ 3 ∷ 4 ∷ 5 ∷ 6 ∷ 7 ∷ 8 ∷ 9 ∷ 10 ∷ 11 ∷ 12 ∷ 13 ∷ 14 ∷ 15 ∷ 16 ∷ 17 ∷ []

unpack_samples-written_example :
    Pushed
      (record { output = replicate 11 0; written = 0 })
      (unpack_samples packed (replicate 11 0))
      (length packed / 12 * 8 + tail_samples (length packed % 12))
unfolding unpacked_sample_count
unpack_samples-written_example = unpack_samples-written packed (replicate 11 0) refl

-- Integers in the place of floats, which is all that sizes need.
abbrev numbers : FloatOps ℕ
numbers = record {
  zero_f = 0;
  add = λ a b. a + b;
  sub = λ a b. a;
  mul = λ a b. a * b;
  neg = λ a. a;
  of_int = λ z. 0;
  sample_scale = 1;
  dc_scale = 1;
}

convert_block-Delivers_example :
    Delivers int16_iq true packed
      (convert_block numbers int16_iq true packed (fresh_scratch numbers (1 ∷ 2 ∷ 3 ∷ [])))
convert_block-Delivers_example =
    convert_block-Delivers numbers int16_iq true packed (fresh_scratch numbers (1 ∷ 2 ∷ 3 ∷ []))
      refl

abbrev kernel : List ℤ
kernel = negsuc 3 ∷ pos 0 ∷ pos 9000 ∷ pos 16384 ∷ pos 9000 ∷ pos 0 ∷ negsuc 3 ∷ []

abbrev block : List ℤ
block = pos 100 ∷ negsuc 200 ∷ pos 300 ∷ pos 32000 ∷ []

process-Converts_example : Converts 3 (replicate 3 (pos 0)) (new kernel) block
process-Converts_example =
    process-Converts 3 (replicate 3 (pos 0)) block (new kernel)
      (new-IsReady 3 kernel refl (omega arith))

process-append_example :
    process (new kernel) (block ++ pos 5 ∷ pos 6 ∷ [])
    ≡ in_two process (new kernel) block (pos 5 ∷ pos 6 ∷ [])
process-append_example = process-append (new kernel) block (pos 5 ∷ pos 6 ∷ []) (omega arith)

reset-new_example :
    reset (process_all (new hb_kernel_int16) (block ∷ block ∷ [])) ≡ new hb_kernel_int16
reset-new_example = reset-new 23 hb_kernel_int16 (block ∷ block ∷ []) refl (omega arith)

abbrev quiet_blocker : Blocker
quiet_blocker = record { old_x = pos 0; old_y = pos 0; old_e = pos 0 }

remove_dc-IsExact_example : IsExact quiet_blocker block
remove_dc-IsExact_example =
    remove_dc-IsExact block quiet_blocker
      (record {
        x_range = (omega arith, omega arith);
        y_range = (omega arith, omega arith);
        e_low = omega arith;
        e_high = omega arith;
      })
      (
        (omega arith, omega arith),
        (
          (omega arith, omega arith),
          ((omega arith, omega arith), ((omega arith, omega arith), tt)),
        ),
      )

abbrev ramp : Group
ramp = record { s0 = 1; s1 = 4095; s2 = 2048; s3 = 7; s4 = 300; s5 = 3000; s6 = 17; s7 = 0 }

unpack_samples-pack_example :
    unpack_samples (pack (ramp ∷ ramp ∷ [])) (replicate 16 9)
    ≡ record { output = flatten (ramp ∷ ramp ∷ []); written = 2 * 8 }
unpack_samples-pack_example =
    unpack_samples-pack (ramp ∷ ramp ∷ []) (replicate 16 9) (ramp_fits, (ramp_fits, tt)) refl
  where
    ramp_fits : Fits ramp
    ramp_fits = ground arith
