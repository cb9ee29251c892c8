-- ===== src/Tools/Replay.antt =====
-- crates/airspy-tools/src/gpio_cli.rs, what the GPIO and register tools share: `parse_u8`, the outcome of a
-- replay, and the lines that it prints. An operation of the device is a computation on the wire.
pub mod Bytes
use libairspy_rs.Base.{
  ℕ, ◌+◌, ◌*◌, ◌==◌, Bool, true, false, Option, none, some, List, [], ◌∷◌, ◌++◌, leb, if◌then◌else◌,
}
use libairspy_rs.Error.{Error, Result, ok, err}
use libairspy_rs.Transport.{Bus}
use libairspy_rs.Device.Serial.{trim_start, split_sign}
use libairspy_rs.Tools.Numbers.{to_digit}

-- `i64::MAX`
abbrev pub i64_max : ℕ
i64_max = 9223372036854775807

-- `saturating_mul` and `saturating_add` on an i64 that is not negative.
abbrev pub saturated : ℕ → ℕ
saturated n = if leb n i64_max then n else i64_max

-- The digits' value; none at a character that is no digit.
unfoldable pub scan_i64 : ℕ → List ℕ → Option ℕ
scan_i64 value [] = some value
scan_i64 value (c ∷ cs) = elim (to_digit 10 c) [
  | some d ↦ scan_i64 (saturated (saturated (value * 10) + d)) cs
  | none ↦ none
]

-- `u8::try_from` of the value or its negation.
abbrev pub u8_try_from : Bool → ℕ → Option ℕ
u8_try_from negative value =
    if negative
    then (if value == 0 then some 0 else none)
    else if leb value 255
    then some value
    else none

abbrev pub unsigned_digits : Bool × List ℕ → Option ℕ
unsigned_digits (negative, []) = none
unsigned_digits (negative, c ∷ cs) = elim (scan_i64 0 (c ∷ cs)) [
  | some value ↦ u8_try_from negative value
  | none ↦ none
]

unfoldable pub parse_u8 : List ℕ → Option ℕ
parse_u8 s = unsigned_digits (split_sign (trim_start s))

pub data ReplayOutcome : Type 0 where
  no_ops completed failed : ReplayOutcome

-- The option that a range message names.
pub data Flag : Type 0 where
  port_flag pin_flag register_flag write_flag : Flag

-- `range_error flag max`, "argument error: ..", and the complaint about a `-w` with nothing latched.
pub data Line : Type 0 where
  range_error : Flag → ℕ → Line
  argument_error : Error → Line
  nothing_latched : Line

-- What a replay carries from one option to the next besides its latches.
pub record Progress : Type 0 where
  pub outcome : ReplayOutcome
  pub bus : Bus
  pub lines : List Line

abbrev pub print : Line → Progress → Progress
print l p = record p { lines = p.lines ++ (l ∷ []) }
