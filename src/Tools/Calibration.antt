-- ===== src/Tools/Calibration.antt =====
-- crates/airspy-tools/src/calib_cli.rs: the calibration record in flash.
use libairspy_rs.Base.{
  ℕ, ◌-◌, ◌^◌, ◌<◌, ◌==◌, ◌≡◌, ap, ap₂, ◌∙◌, Bool, List, ◌++◌, take, drop, arith,
}
use libairspy_rs.Base.Bytes.{from_le, to_le, from_le-to_le}
use libairspy_rs.Base.Int.{ℤ, pos, negsuc, signed32, IsI32}

abbrev pub calib_header : ℕ
calib_header = 0xca1b0001

pub record Calib : Type 0 where
  pub header : ℕ
  pub timestamp : ℕ
  pub correction_ppb : ℤ

-- The bit pattern of an `i32`.
abbrev pub pattern32 : ℤ → ℕ
pattern32 (pos n) = n
pattern32 (negsuc n) = 4294967295 - n

abbrev pub word_at : List ℕ → ℕ → ℕ
word_at bytes i = from_le (take 4 (drop i bytes))

unfoldable pub calib_from_le_bytes : List ℕ → Calib
calib_from_le_bytes bytes = record {
  header = word_at bytes 0;
  timestamp = word_at bytes 4;
  correction_ppb = signed32 (word_at bytes 8);
}

unfoldable pub calib_to_le_bytes : Calib → List ℕ
calib_to_le_bytes c =
    to_le 4 c.header ++ (to_le 4 c.timestamp ++ to_le 4 (pattern32 c.correction_ppb))

unfoldable pub header_valid : Calib → Bool
header_valid c = c.header == calib_header

signed32-pattern32 : (z : ℤ) → IsI32 z → signed32 (pattern32 z) ≡ z
signed32-pattern32 (pos n) h = ground arith
signed32-pattern32 (negsuc n) h = ground arith

pattern32-lt : (z : ℤ) → IsI32 z → pattern32 z < 2 ^ 32
pattern32-lt (pos n) h = ground arith
pattern32-lt (negsuc n) h = omega arith

-- A record whose fields fit their 32-bit types is read back from the twelve bytes that it is written as,
-- a negative correction included.
pub calib_from_le_bytes-calib_to_le_bytes :
    (c : Calib)
    → c.header < 2 ^ 32
    → c.timestamp < 2 ^ 32
    → IsI32 c.correction_ppb
    → calib_from_le_bytes (calib_to_le_bytes c) ≡ c
unfolding calib_from_le_bytes calib_to_le_bytes to_le
calib_from_le_bytes-calib_to_le_bytes c hh ht hc =
    ap₂ (λ a (b : ℕ × ℤ). record { header = a; timestamp = b.0; correction_ppb = b.1 })
      (from_le-to_le 4 c.header ∙ omega (arith, hh))
      (ap₂ (λ a b. (a, b)) (from_le-to_le 4 c.timestamp ∙ omega (arith, ht))
        (ap signed32 (
            from_le-to_le 4 (pattern32 c.correction_ppb)
            ∙ omega (arith, pattern32-lt c.correction_ppb hc))
          ∙ signed32-pattern32 c.correction_ppb hc))
