-- ===== src/Tests/Arguments.antt =====
-- The tools' arguments and records.
use libairspy_rs.Base.{◌≡◌, some, [], ◌∷◌, arith}
use libairspy_rs.Tools.Numbers.{parse_u64}
use libairspy_rs.Tools.Numbers.Decimal.{
  decimal_chars, decimal_value, saturated_u64, parse_u64-decimal,
}

parse_u64-decimal_example :
    parse_u64 (decimal_chars (0 ∷ 4 ∷ 3 ∷ 3 ∷ []))
    ≡ some (saturated_u64 (decimal_value 0 (0 ∷ 4 ∷ 3 ∷ 3 ∷ [])))
parse_u64-decimal_example = parse_u64-decimal 0 (4 ∷ 3 ∷ 3 ∷ []) (ground arith)
