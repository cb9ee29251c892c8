-- ===== src/Tools/Numbers.antt =====
-- crates/airspy-tools/src/lib.rs: `parse_u64` and `strtoull_whole`, over the bytes of an ASCII argument.
pub mod Decimal
use libairspy_rs.Base.{
  ℕ, zero, suc, ◌+◌, ◌-◌, ◌*◌, ◌%◌, ◌^◌, ◌≤◌, ◌<◌, ◌==◌, ◌≡◌, refl, sym, ap, ap₂, ◌∙◌, subst, Bool,
  true, false, ◌&&◌, ◌||◌, Option, some, none, List, [], ◌∷◌, length, All, ltb, leb, if◌then◌else◌,
  arith, Bool-cases, inl, inr,
}
use libairspy_rs.Device.Serial.{trim_start, split_sign, skip_prefix, hex_digit, wrapping_neg}

abbrev pub u64_max : ℕ
u64_max = 18446744073709551615

-- `c.to_digit(base)`
abbrev pub to_digit : ℕ → ℕ → Option ℕ
to_digit base c = elim (hex_digit c) [ some d ↦ if ltb d base then some d else none | none ↦ none ]

-- The loop's `value`, `saturated` and `digits`.
pub record Scan : Type 0 where
  pub value : ℕ
  pub saturated : Bool
  pub digits : ℕ

unfoldable pub take_digit : ℕ → Scan → ℕ → Scan
take_digit base s d =
    if s.saturated
    then record { value = s.value; saturated = true; digits = s.digits + 1 }
    else if ltb u64_max (s.value * base + d)
    then record { value = s.value; saturated = true; digits = s.digits + 1 }
    else record { value = s.value * base + d; saturated = false; digits = s.digits + 1 }

unfoldable pub scan : ℕ → Scan → List ℕ → Option Scan
scan base s [] = some s
scan base s (c ∷ cs) = elim (to_digit base c) [
  | some d ↦ scan base (take_digit base s d) cs
  | none ↦ none
]

abbrev pub scan_result : Bool → Scan → Option ℕ
scan_result negative s =
    if s.digits == 0
    then none
    else some (if s.saturated then u64_max else if negative then wrapping_neg s.value else s.value)

abbrev pub finish_scan : Bool → Option Scan → Option ℕ
finish_scan negative none = none
finish_scan negative (some s) = scan_result negative s

unfoldable pub strtoull_whole : List ℕ → ℕ → Option ℕ
strtoull_whole s base =
    let signed = split_sign (trim_start s) in
    let text = if base == 16 then skip_prefix signed.1 else signed.1 in
    finish_scan signed.0 (scan base (record { value = 0; saturated = false; digits = 0 }) text)

-- A base prefix counts only on a string of more than two characters.
unfoldable pub parse_u64 : List ℕ → Option ℕ
parse_u64 (a ∷ b ∷ c ∷ rest) =
    if (a == 48) && ((b == 120) || (b == 88))
    then strtoull_whole (c ∷ rest) 16
    else if (a == 48) && ((b == 98) || (b == 66))
    then strtoull_whole (c ∷ rest) 2
    else strtoull_whole (a ∷ b ∷ c ∷ rest) 10
parse_u64 s = strtoull_whole s 10
