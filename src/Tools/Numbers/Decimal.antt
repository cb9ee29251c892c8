-- ===== src/Tools/Numbers/Decimal.antt =====
-- `parse_u64` (crates/airspy-tools/src/lib.rs) on decimal numbers.
use libairspy_rs.Base.{
  ℕ, ◌+◌, ◌*◌, ◌≤◌, ◌<◌, ◌==◌, ◌≡◌, refl, ap, ◌∙◌, Bool, true, false, ◌||◌, Option, some, List, [],
  ◌∷◌, length, All, ltb, leb, if◌then◌else◌, arith, Bool-cases, inl, inr, ◌⊎◌,
}
use libairspy_rs.Device.Serial.{trim_start, split_sign, hex_digit, is_space}
use libairspy_rs.Tools.Numbers.{
  u64_max, to_digit, Scan, take_digit, scan, finish_scan, strtoull_whole, parse_u64,
}

abbrev pub decimal_chars : List ℕ → List ℕ
decimal_chars [] = []
decimal_chars (d ∷ ds) = (d + 48) ∷ decimal_chars ds

abbrev pub decimal_value : ℕ → List ℕ → ℕ
decimal_value v [] = v
decimal_value v (d ∷ ds) = decimal_value (v * 10 + d) ds

-- What the scan knows of the number read so far: it, or that it is too large.
abbrev Knows : ℕ → Scan → Type 0
Knows v s =
    ((s.saturated ≡ true) × (u64_max < v)) ⊎ ((s.saturated ≡ false) × (s.value ≡ v) × (v ≤ u64_max))

take_digit-Knows :
    (v d : ℕ) (s : Scan)
    → Knows v s
    → Knows (v * 10 + d) (take_digit 10 s d) × ((take_digit 10 s d).digits ≡ s.digits + 1)
unfolding take_digit
take_digit-Knows v d s (inl h) = rw (h.0) (inl (refl, omega (arith, h.1)), refl)
take_digit-Knows v d s (inr h) = elim (Bool-cases (ltb u64_max (s.value * 10 + d))) [
  | inl e ↦ rw (h.0, e) (inl (refl, ground (arith, e, h.1)), refl)
  | inr e ↦ rw (h.0, e) (inr (refl, omega (arith, h.1), ground (arith, e, h.1)), refl)
]

pub to_digit-decimal : (d : ℕ) → d < 10 → to_digit 10 (d + 48) ≡ some d
unfolding hex_digit
to_digit-decimal d h = ground arith

-- What a scan over digits leaves.
record Scanned (v k : ℕ) (o : Option Scan) : Type 0 where
  last : Scan
  found : o ≡ some last
  known : Knows v last
  counted : last.digits ≡ k

scan-Scanned :
    (ds : List ℕ) (v : ℕ) (s : Scan)
    → All (λ d. d < 10) ds
    → Knows v s
    → Scanned (decimal_value v ds) (s.digits + length ds) (scan 10 s (decimal_chars ds))
unfolding scan
scan-Scanned [] v s h kn = record { last = s; found = refl; known = kn; counted = omega arith }
scan-Scanned (d ∷ ds) v s h kn =
    let rest = scan-Scanned ds (v * 10 + d) (take_digit 10 s d) h.1 (take_digit-Knows v d s kn).0 in
    rw (scan, to_digit-decimal d h.0)
      (record {
        last = rest.last;
        found = rest.found;
        known = rest.known;
        counted = omega (arith, rest.counted, (take_digit-Knows v d s kn).1);
      })

plain-char : (d : ℕ) → d < 10 → is_space (d + 48) ≡ false
unfolding is_space
plain-char d h = ground arith

pub plain_start :
    (d : ℕ) (ds : List ℕ)
    → d < 10
    → split_sign (trim_start (decimal_chars (d ∷ ds))) ≡ (false, decimal_chars (d ∷ ds))
unfolding trim_start split_sign
plain_start d ds h = ap split_sign trimmed ∙ unsigned
  where
    trimmed : trim_start (decimal_chars (d ∷ ds)) ≡ decimal_chars (d ∷ ds)
    trimmed = rw (trim_start, plain-char d h) refl

    not_plus : (d + 48 == 43) ≡ false
    not_plus = ground arith

    not_minus : (d + 48 == 45) ≡ false
    not_minus = ground arith

    unsigned : split_sign (decimal_chars (d ∷ ds)) ≡ (false, decimal_chars (d ∷ ds))
    unsigned = rw (split_sign, not_plus, not_minus) refl

-- The number, or the largest one if it does not fit.
abbrev pub saturated_u64 : ℕ → ℕ
saturated_u64 v = if leb v u64_max then v else u64_max

finished :
    (v k : ℕ) (o : Option Scan)
    → Scanned v k o
    → 1 ≤ k
    → finish_scan false o ≡ some (saturated_u64 v)
finished v k o h some_digit = rw (h.found, counted) (go h.known)
  where
    counted : (h.last.digits == 0) ≡ false
    counted = ground (arith, h.counted, some_digit)

    go :
        Knows v h.last
        → some (if h.last.saturated then u64_max else h.last.value) ≡ some (saturated_u64 v)
    go (inl kn) = rw (kn.0) (ap some (ground (arith, kn.1)))
    go (inr kn) = rw (kn.0) (ap some (ground (arith, kn.1)))

whole-decimal :
    (d : ℕ) (ds : List ℕ)
    → All (λ x. x < 10) (d ∷ ds)
    → strtoull_whole (decimal_chars (d ∷ ds)) 10 ≡ some (saturated_u64 (decimal_value 0 (d ∷ ds)))
unfolding strtoull_whole
whole-decimal d ds h =
    ap
      (λ (signed : Bool × List ℕ).
        finish_scan signed.0
          (scan 10 (record { value = 0; saturated = false; digits = 0 }) signed.1))
      (plain_start d ds h.0)
    ∙ finished (decimal_value 0 (d ∷ ds)) (0 + length (d ∷ ds)) _
        (scan-Scanned (d ∷ ds) 0 (record { value = 0; saturated = false; digits = 0 }) h
          (inr (refl, refl, omega arith)))
        (omega arith)

-- Every non-empty string of decimal digits is read as its number, and one beyond 64 bits as the largest
-- 64-bit number. A leading zero changes nothing.
pub parse_u64-decimal :
    (d : ℕ) (ds : List ℕ)
    → All (λ x. x < 10) (d ∷ ds)
    → parse_u64 (decimal_chars (d ∷ ds)) ≡ some (saturated_u64 (decimal_value 0 (d ∷ ds)))
unfolding parse_u64
parse_u64-decimal d [] h = whole-decimal d [] h
parse_u64-decimal d (e ∷ []) h = whole-decimal d (e ∷ []) h
parse_u64-decimal d (e ∷ f ∷ ds) h = elim (Bool-cases (d + 48 == 48)) [
  | inl z ↦ rw (z, no_x, no_b) (whole-decimal d (e ∷ f ∷ ds) h)
  | inr z ↦ rw (z) (whole-decimal d (e ∷ f ∷ ds) h)
]
  where
    no_x : ((e + 48 == 120) || (e + 48 == 88)) ≡ false
    no_x = ground (arith, h.1.0)

    no_b : ((e + 48 == 98) || (e + 48 == 66)) ≡ false
    no_b = ground (arith, h.1.0)
