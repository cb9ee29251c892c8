-- ===== src/Tools/Registers/Multisynth.antt =====
-- The multisynth parameters of crates/airspy-tools/src/reg_cli.rs, `ms_params`.
use Prim.Native.Nat.{bit_and, bit_or}
use libairspy_rs.Base.{ℕ, ◌+◌, ◌*◌, ◌/◌, ◌%◌, ◌^◌, ◌<◌, ◌≡◌, ap, ap₂, ◌∙◌, List, [], ◌∷◌, arith}
use libairspy_rs.Base.Bits.{shl, shr, bit_and_ones, bit_or_disjoint, bit_and_shifted}
use libairspy_rs.Tools.Registers.{MsParams, ms_params}

-- Three bytes side by side.
join_bytes :
    (a b c : ℕ)
    → b < 256
    → c < 256
    → bit_or (bit_or (shl a 16) (shl b 8)) c ≡ a * 65536 + b * 256 + c
join_bytes a b c hb hc =
    ap (λ t. bit_or t c)
      (bit_or_disjoint 16 a (b * 256) (omega arith)
        ∙ (let e : a * 2 ^ 16 + b * 256 ≡ (a * 256 + b) * 2 ^ 8 = omega arith in e))
    ∙ (bit_or_disjoint 8 (a * 256 + b) c (omega arith)
        ∙ (let e : (a * 256 + b) * 2 ^ 8 + c ≡ a * 65536 + b * 256 + c = omega arith in e))

high_nibble : (x : ℕ) → shl (bit_and x 0xf0) 12 ≡ shl (x / 16 % 16) 16
high_nibble x =
    ap (λ t. t * 2 ^ 12) (bit_and_shifted 4 x 15 ∙ ap (λ t. t * 2 ^ 4) (bit_and_ones 4 (x / 2 ^ 4)))
    ∙ (let e : x / 2 ^ 4 % 2 ^ 4 * 2 ^ 4 * 2 ^ 12 ≡ x / 16 % 16 * 2 ^ 16 = omega arith in e)

-- The eight registers of a multisynth as the chip lays the fields out; `spare` and `odd` are bits of the
-- third register that belong to none of them.
abbrev pub registers_of : ℕ → ℕ → MsParams → List ℕ
registers_of spare odd m =
    m.p3 / 256 % 256
    ∷ m.p3 % 256
    ∷ (spare * 128 + m.r_div * 16 + odd * 4 + m.p1 / 65536)
    ∷ m.p1 / 256 % 256
    ∷ m.p1 % 256
    ∷ (m.p3 / 65536 * 16 + m.p2 / 65536)
    ∷ m.p2 / 256 % 256
    ∷ m.p2 % 256
    ∷ []

-- Fields that fit their widths are read back from the eight registers that hold them, whatever the other
-- bits of these are.
pub ms_params-registers_of :
    (m : MsParams) (spare odd : ℕ)
    → m.p1 < 2 ^ 18
    → m.p2 < 2 ^ 20
    → m.p3 < 2 ^ 20
    → m.r_div < 8
    → odd < 4
    → ms_params (registers_of spare odd m) ≡ m
unfolding ms_params
ms_params-registers_of m spare odd h1 h2 h3 hr ho =
    ap₂ (λ (a : ℕ × ℕ) (b : ℕ × ℕ). record { p1 = a.0; p2 = a.1; p3 = b.0; r_div = b.1 })
      (ap₂ (λ x y. (x, y)) first second) (ap₂ (λ x y. (x, y)) third divider)
  where
    r2 : ℕ
    r2 = spare * 128 + m.r_div * 16 + odd * 4 + m.p1 / 65536

    r5 : ℕ
    r5 = m.p3 / 65536 * 16 + m.p2 / 65536

    first : bit_or (bit_or (shl (bit_and r2 3) 16) (shl (m.p1 / 256 % 256) 8)) (m.p1 % 256) ≡ m.p1
    first =
        ap (λ t. bit_or (bit_or (shl t 16) (shl (m.p1 / 256 % 256) 8)) (m.p1 % 256))
          (bit_and_ones 2 r2)
        ∙ (join_bytes (r2 % 4) (m.p1 / 256 % 256) (m.p1 % 256) (omega arith) (omega arith)
            ∙ omega arith)

    second : bit_or (bit_or (shl (bit_and r5 15) 16) (shl (m.p2 / 256 % 256) 8)) (m.p2 % 256) ≡ m.p2
    second =
        ap (λ t. bit_or (bit_or (shl t 16) (shl (m.p2 / 256 % 256) 8)) (m.p2 % 256))
          (bit_and_ones 4 r5)
        ∙ (join_bytes (r5 % 16) (m.p2 / 256 % 256) (m.p2 % 256) (omega arith) (omega arith)
            ∙ omega arith)

    third :
        bit_or (bit_or (shl (bit_and r5 0xf0) 12) (shl (m.p3 / 256 % 256) 8)) (m.p3 % 256) ≡ m.p3
    third =
        ap (λ t. bit_or (bit_or t (shl (m.p3 / 256 % 256) 8)) (m.p3 % 256)) (high_nibble r5)
        ∙ (join_bytes (r5 / 16 % 16) (m.p3 / 256 % 256) (m.p3 % 256) (omega arith) (omega arith)
            ∙ omega arith)

    divider : bit_and (shr r2 4) 7 ≡ m.r_div
    divider = bit_and_ones 3 (shr r2 4) ∙ omega arith
