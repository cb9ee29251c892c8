-- ===== src/Conversion/Layout.antt =====
-- The bit layout of a packed group: three words are one number of 96 bits, and its eight 12-bit digits,
-- the highest first, are the samples.
use Prim.Native.Nat.{bit_and, bit_or}
use libairspy_rs.Base.{
  ℕ, zero, suc, ◌+◌, ◌*◌, ◌/◌, ◌%◌, ◌^◌, ◌<◌, ◌≡◌, refl, ap, ap₂, List, [], ◌∷◌, arith,
}
use libairspy_rs.Base.Bits.{shr, bit_and_ones, bit_or_disjoint, bit_and_shifted}
use libairspy_rs.Conversion.Unpack.{
  group_samples, sample0, sample1, sample2, sample3, sample4, sample5, sample6, sample7,
}

sample0-value : (w0 : ℕ) → w0 < 4294967296 → sample0 w0 ≡ w0 / 1048576
unfolding sample0
sample0-value w0 h = omega (arith, bit_and_ones 12 (shr w0 20))

sample1-value : (w0 : ℕ) → sample1 w0 ≡ w0 / 256 % 4096
unfolding sample1
sample1-value w0 = omega (arith, bit_and_ones 12 (shr w0 8))

sample2-value : (w0 w1 : ℕ) → w1 < 4294967296 → sample2 w0 w1 ≡ w0 % 256 * 16 + w1 / 268435456
unfolding sample2
sample2-value w0 w1 h = omega (
  arith,
  ap (λ t. bit_or (t * 16) (bit_and (w1 / 268435456) 15)) (bit_and_ones 8 w0),
  ap (bit_or (w0 % 256 * 16)) (bit_and_ones 4 (w1 / 268435456)),
  bit_or_disjoint 4 (w0 % 256) (w1 / 268435456 % 16) (omega arith),
)

sample3-value : (w1 : ℕ) → sample3 w1 ≡ w1 / 65536 % 4096
unfolding sample3
sample3-value w1 = omega (arith, bit_and_shifted 16 w1 4095, bit_and_ones 12 (w1 / 65536))

sample4-value : (w1 : ℕ) → sample4 w1 ≡ w1 / 16 % 4096
unfolding sample4
sample4-value w1 = omega (arith, bit_and_shifted 4 w1 4095, bit_and_ones 12 (w1 / 16))

sample5-value : (w1 w2 : ℕ) → w2 < 4294967296 → sample5 w1 w2 ≡ w1 % 16 * 256 + w2 / 16777216
unfolding sample5
sample5-value w1 w2 h = omega (
  arith,
  ap (λ t. bit_or (t * 256) (bit_and w2 0xff00_0000 / 16777216)) (bit_and_ones 4 w1),
  bit_and_shifted 24 w2 255,
  bit_and_ones 8 (w2 / 16777216),
  ap (bit_or (w1 % 16 * 256)) (
      let e : bit_and w2 0xff00_0000 / 16777216 ≡ w2 / 16777216 =
        omega (arith, bit_and_shifted 24 w2 255, bit_and_ones 8 (w2 / 16777216)) in
      e),
  bit_or_disjoint 8 (w1 % 16) (w2 / 16777216) (omega arith),
)

sample6-value : (w2 : ℕ) → sample6 w2 ≡ w2 / 4096 % 4096
unfolding sample6
sample6-value w2 = omega (arith, bit_and_ones 12 (shr w2 12))

sample7-value : (w2 : ℕ) → sample7 w2 ≡ w2 % 4096
unfolding sample7
sample7-value w2 = omega (arith, bit_and_ones 12 w2)

-- The base-4096 digits of a number, the highest of n first.
abbrev pub digits_4096 : ℕ → ℕ → List ℕ
digits_4096 zero x = []
digits_4096 (suc n) x = (x / 4096 ^ n % 4096) ∷ digits_4096 n x

-- The eight samples of a group are the eight 12-bit digits, the highest first, of the 96-bit number
-- whose highest word is the first.
pub group_samples-digits :
    (w0 w1 w2 : ℕ)
    → w0 < 4294967296
    → w1 < 4294967296
    → w2 < 4294967296
    → group_samples w0 w1 w2 ≡ digits_4096 8 (w0 * 18446744073709551616 + w1 * 4294967296 + w2)
group_samples-digits w0 w1 w2 h0 h1 h2 = ap₂ ◌∷◌ (omega (arith, sample0-value w0 h0)) (
    ap₂ ◌∷◌ (omega (arith, sample1-value w0)) (
      ap₂ ◌∷◌ (omega (arith, sample2-value w0 w1 h1)) (
        ap₂ ◌∷◌ (omega (arith, sample3-value w1)) (
          ap₂ ◌∷◌ (omega (arith, sample4-value w1)) (
            ap₂ ◌∷◌ (omega (arith, sample5-value w1 w2 h2)) (
              ap₂ ◌∷◌ (omega (arith, sample6-value w2))
                (ap₂ ◌∷◌ (omega (arith, sample7-value w2)) refl)))))))
