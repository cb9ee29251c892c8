-- ===== src/Tools/Replay/Bytes.antt =====
-- `parse_u8` (crates/airspy-tools/src/gpio_cli.rs) on decimal numbers.
use libairspy_rs.Base.{
  ℕ, ◌+◌, ◌*◌, ◌<◌, ◌≡◌, refl, ap, ◌∙◌, false, Option, some, none, List, [], ◌∷◌, All, leb,
  if◌then◌else◌, arith,
}
use libairspy_rs.Tools.Numbers.Decimal.{decimal_chars, decimal_value, to_digit-decimal, plain_start}
use libairspy_rs.Tools.Replay.{saturated, scan_i64, u8_try_from, unsigned_digits, parse_u8}

-- The scan knows the number, or that it is at least the largest i64.
saturated_step :
    (v d : ℕ) → d < 10 → saturated (saturated (saturated v * 10) + d) ≡ saturated (v * 10 + d)
saturated_step v d h = ground arith

scan_i64-decimal :
    (ds : List ℕ) (v : ℕ)
    → All (λ d. d < 10) ds
    → scan_i64 (saturated v) (decimal_chars ds) ≡ some (saturated (decimal_value v ds))
unfolding scan_i64
scan_i64-decimal [] v h = refl
scan_i64-decimal (d ∷ ds) v h =
    rw (scan_i64, to_digit-decimal d h.0, saturated_step v d h.0)
      (scan_i64-decimal ds (v * 10 + d) h.1)

-- The value as a byte, if it is one.
abbrev pub byte_of : ℕ → Option ℕ
byte_of v = if leb v 255 then some v else none

byte_of-saturated : (v : ℕ) → u8_try_from false (saturated v) ≡ byte_of v
byte_of-saturated v = ground arith

-- Every non-empty string of decimal digits is read as its number if that is at most 255, and refused
-- otherwise, however long it is.
pub parse_u8-decimal :
    (d : ℕ) (ds : List ℕ)
    → All (λ x. x < 10) (d ∷ ds)
    → parse_u8 (decimal_chars (d ∷ ds)) ≡ byte_of (decimal_value 0 (d ∷ ds))
unfolding parse_u8
parse_u8-decimal d ds h =
    ap unsigned_digits (plain_start d ds h.0)
    ∙ (ap (λ (o : Option ℕ). elim o [ some value ↦ u8_try_from false value | none ↦ none ])
          (scan_i64-decimal (d ∷ ds) 0 h)
        ∙ byte_of-saturated (decimal_value 0 (d ∷ ds)))
