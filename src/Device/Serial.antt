-- ===== src/Device/Serial.antt =====
-- crates/libairspy/src/device.rs, `serial_filter`, `parse_serial` and `strtoull_16`, over the bytes of
-- the ASCII descriptor.
pub mod Notation
use libairspy_rs.Base.{
  ℕ, zero, suc, ◌+◌, ◌-◌, ◌*◌, ◌/◌, ◌%◌, ◌^◌, ◌≤◌, ◌<◌, ◌==◌, ◌≡◌, refl, sym, ap, ap₂, ◌∙◌, subst,
  Bool, true, false, ◌&&◌, ◌||◌, Option, some, none, List, [], ◌∷◌, ◌++◌, length, take, drop, All,
  ltb, leb, if◌then◌else◌, arith, Bool-cases, inl, inr, length-append, take-append_length,
  drop-append_length, take_all,
}

abbrev pub serial_prefix_len : ℕ
serial_prefix_len = 10

abbrev pub serial_expected_len : ℕ
serial_expected_len = 26

unfoldable pub serial_filter : ℕ → Option ℕ
serial_filter serial_number = if serial_number == 0 then none else some serial_number

-- Space, and \t \n \x0B \x0C \r.
unfoldable pub is_space : ℕ → Bool
is_space c = (c == 32) || (leb 9 c && leb c 13)

-- The value of a hex digit.
unfoldable pub hex_digit : ℕ → Option ℕ
hex_digit c =
    if leb 48 c && leb c 57
    then some (c - 48)
    else if leb 97 c && leb c 102
    then some (c - 87)
    else if leb 65 c && leb c 70
    then some (c - 55)
    else none

-- `trim_start_matches`
unfoldable pub trim_start : List ℕ → List ℕ
trim_start [] = []
trim_start (c ∷ cs) = let rest = trim_start cs in if is_space c then rest else c ∷ cs

-- A leading `+` or `-`, and what follows it.
unfoldable pub split_sign : List ℕ → Bool × List ℕ
split_sign [] = (false, [])
split_sign (c ∷ cs) =
    if c == 43 then (false, cs) else if c == 45 then (true, cs) else (false, c ∷ cs)

abbrev pub starts_with_digit : List ℕ → Bool
starts_with_digit [] = false
starts_with_digit (c ∷ cs) = elim (hex_digit c) [ some d ↦ true | none ↦ false ]

-- `0x` or `0X` is a prefix only in front of a digit.
unfoldable pub skip_prefix : List ℕ → List ℕ
skip_prefix (a ∷ b ∷ rest) =
    if ((a == 48) && ((b == 120) || (b == 88))) && starts_with_digit rest
    then rest
    else a ∷ b ∷ rest
skip_prefix s = s

-- The digits up to the first other character.
unfoldable pub leading_digits : List ℕ → List ℕ
leading_digits [] = []
leading_digits (c ∷ cs) =
    let rest = leading_digits cs in elim (hex_digit c) [ some d ↦ d ∷ rest | none ↦ [] ]

-- The value of the digits, the first the most significant; `none` where it does not fit 64 bits.
unfoldable pub digits_value : ℕ → List ℕ → ℕ
digits_value acc [] = acc
digits_value acc (d ∷ ds) = digits_value (acc * 16 + d) ds

abbrev pub from_str_radix : List ℕ → Option ℕ
from_str_radix digits =
    if ltb (digits_value 0 digits) (2 ^ 64) then some (digits_value 0 digits) else none

abbrev pub wrapping_neg : ℕ → ℕ
wrapping_neg v = (2 ^ 64 - v) % 2 ^ 64

abbrev pub no_digits : List ℕ → Bool
no_digits [] = true
no_digits (d ∷ ds) = false

-- `strtoull_16` behind the sign.
unfoldable pub after_sign : Bool × List ℕ → Option ℕ
after_sign signed =
    let digits = leading_digits (skip_prefix signed.1) in
    if no_digits digits then none else elim (from_str_radix digits) [
      | some v ↦ some (if signed.0 then wrapping_neg v else v)
      | none ↦ none
    ]

unfoldable pub strtoull_16 : List ℕ → Option ℕ
strtoull_16 s = after_sign (split_sign (trim_start s))

unfoldable pub parse_serial : List ℕ → Option ℕ
parse_serial descriptor =
    if ltb (length descriptor) serial_expected_len
    then none
    else strtoull_16 (drop serial_prefix_len (take serial_expected_len descriptor))
