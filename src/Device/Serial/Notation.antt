-- ===== src/Device/Serial/Notation.antt =====
-- `parse_serial` reads the notation of the firmware: ten characters, then sixteen hex digits.
use libairspy_rs.Base.{
  ℕ, zero, suc, ◌+◌, ◌*◌, ◌^◌, ◌≤◌, ◌<◌, ◌==◌, ◌≡◌, refl, sym, ap, ◌∙◌, subst, Bool, true, false,
  ◌&&◌, ◌||◌, some, List, [], ◌∷◌, ◌++◌, length, take, drop, All, ltb, if◌then◌else◌, arith,
  length-append, append_assoc, take-append_length, drop-append_length,
}
use native.Mathlib.Nat.{pow-suc, mul-le-mul_right}
use libairspy_rs.Device.Serial.{
  hex_digit, is_space, trim_start, split_sign, skip_prefix, leading_digits, digits_value,
  after_sign, strtoull_16, parse_serial, starts_with_digit, serial_expected_len,
}

-- Digit values as upper-case hex characters.
unfoldable pub hex_char : ℕ → ℕ
hex_char d = if ltb d 10 then d + 48 else d + 55

abbrev pub hex_chars : List ℕ → List ℕ
hex_chars [] = []
hex_chars (d ∷ ds) = hex_char d ∷ hex_chars ds

-- What the parser asks of a character, for a digit's.
abbrev pub ReadsAs : ℕ → ℕ → Type 0
ReadsAs c d =
    (hex_digit c ≡ some d)
    × (is_space c ≡ false)
    × ((c == 43) ≡ false)
    × ((c == 45) ≡ false)
    × (((c == 120) || (c == 88)) ≡ false)

hex_char-ReadsAs : (d : ℕ) → d < 16 → ReadsAs (hex_char d) d
unfolding hex_char hex_digit is_space
hex_char-ReadsAs zero h = (refl, refl, refl, refl, refl)
hex_char-ReadsAs (suc zero) h = (refl, refl, refl, refl, refl)
hex_char-ReadsAs (suc (suc zero)) h = (refl, refl, refl, refl, refl)
hex_char-ReadsAs (suc (suc (suc zero))) h = (refl, refl, refl, refl, refl)
hex_char-ReadsAs (suc (suc (suc (suc zero)))) h = (refl, refl, refl, refl, refl)
hex_char-ReadsAs (suc (suc (suc (suc (suc zero))))) h = (refl, refl, refl, refl, refl)
hex_char-ReadsAs (suc (suc (suc (suc (suc (suc zero)))))) h = (refl, refl, refl, refl, refl)
hex_char-ReadsAs (suc (suc (suc (suc (suc (suc (suc zero))))))) h = (refl, refl, refl, refl, refl)
hex_char-ReadsAs (suc (suc (suc (suc (suc (suc (suc (suc zero)))))))) h =
    (refl, refl, refl, refl, refl)
hex_char-ReadsAs (suc (suc (suc (suc (suc (suc (suc (suc (suc zero))))))))) h =
    (refl, refl, refl, refl, refl)
hex_char-ReadsAs (suc (suc (suc (suc (suc (suc (suc (suc (suc (suc zero)))))))))) h =
    (refl, refl, refl, refl, refl)
hex_char-ReadsAs (suc (suc (suc (suc (suc (suc (suc (suc (suc (suc (suc zero))))))))))) h =
    (refl, refl, refl, refl, refl)
hex_char-ReadsAs (suc (suc (suc (suc (suc (suc (suc (suc (suc (suc (suc (suc zero)))))))))))) h =
    (refl, refl, refl, refl, refl)
hex_char-ReadsAs (suc (suc (suc (suc (suc (suc (suc (suc (suc (suc (suc (suc (suc zero)))))))))))))
      h =
    (refl, refl, refl, refl, refl)
hex_char-ReadsAs
      (suc (suc (suc (suc (suc (suc (suc (suc (suc (suc (suc (suc (suc (suc zero)))))))))))))) h =
    (refl, refl, refl, refl, refl)
hex_char-ReadsAs
      (suc (suc (suc (suc (suc (suc (suc (suc (suc (suc (suc (suc (suc (suc (suc zero)))))))))))))))
      h =
    (refl, refl, refl, refl, refl)
hex_char-ReadsAs
      (suc
        (suc (suc (suc (suc (suc (suc (suc (suc (suc (suc (suc (suc (suc (suc (suc d))))))))))))))))
      h =
    absurd (omega arith)

length-hex_chars : (ds : List ℕ) → length (hex_chars ds) ≡ length ds
length-hex_chars [] = refl
length-hex_chars (d ∷ ds) = ap suc (length-hex_chars ds)

leading_digits-hex : (ds : List ℕ) → All (λ d. d < 16) ds → leading_digits (hex_chars ds) ≡ ds
unfolding leading_digits
leading_digits-hex [] h = refl
leading_digits-hex (d ∷ ds) h =
    rw (leading_digits, (hex_char-ReadsAs d h.0).0) (ap (◌∷◌ d) (leading_digits-hex ds h.1))

module _ (d e : ℕ) (ds : List ℕ) (hd : d < 16) (he : e < 16) where
  trim-hex : trim_start (hex_chars (d ∷ e ∷ ds)) ≡ hex_chars (d ∷ e ∷ ds)
  unfolding trim_start
  trim-hex = rw ((hex_char-ReadsAs d hd).1) refl

  sign-hex : split_sign (hex_chars (d ∷ e ∷ ds)) ≡ (false, hex_chars (d ∷ e ∷ ds))
  unfolding split_sign
  sign-hex = rw ((hex_char-ReadsAs d hd).2, (hex_char-ReadsAs d hd).3) refl

  prefix-hex : skip_prefix (hex_chars (d ∷ e ∷ ds)) ≡ hex_chars (d ∷ e ∷ ds)
  unfolding skip_prefix
  prefix-hex = rw ((hex_char-ReadsAs e he).4) (go (hex_char d == 48))
    where
      go :
          (b : Bool)
          → (if (b && false) && starts_with_digit (hex_chars ds)
              then hex_chars ds
              else hex_chars (d ∷ e ∷ ds))
            ≡ hex_chars (d ∷ e ∷ ds)
      go true = refl
      go false = refl

digits_value-lt :
    (ds : List ℕ) (acc : ℕ)
    → All (λ d. d < 16) ds
    → digits_value acc ds < (acc + 1) * 16 ^ length ds
unfolding digits_value
digits_value-lt [] acc h = omega arith
digits_value-lt (d ∷ ds) acc h =
    subst (λ p. digits_value (acc * 16 + d) ds < (acc + 1) * p) (sym (pow-suc 16 (length ds)))
      (grind (arith, digits_value-lt ds (acc * 16 + d) h.1, widened))
  where
    widened : (acc * 16 + d + 1) * 16 ^ length ds ≤ (acc * 16 + 16) * 16 ^ length ds
    widened = mul-le-mul_right (16 ^ length ds) (omega (arith, h.0))

strtoull_16-hex :
    (d e : ℕ) (ds : List ℕ)
    → length ds ≡ 14
    → All (λ x. x < 16) (d ∷ e ∷ ds)
    → strtoull_16 (hex_chars (d ∷ e ∷ ds)) ≡ some (digits_value 0 (d ∷ e ∷ ds))
unfolding strtoull_16 after_sign
strtoull_16-hex d e ds len h =
    ap after_sign (ap split_sign (trim-hex d e ds h.0 h.1.0) ∙ sign-hex d e ds h.0 h.1.0)
    ∙ rw (prefix-hex d e ds h.0 h.1.0, leading_digits-hex (d ∷ e ∷ ds) h, fits) refl
  where
    bound : digits_value 0 (d ∷ e ∷ ds) < (0 + 1) * 16 ^ 16
    bound =
        subst (λ n. digits_value 0 (d ∷ e ∷ ds) < (0 + 1) * 16 ^ n) {x = length (d ∷ e ∷ ds)}
          {y = 16} (omega (arith, len)) (digits_value-lt (d ∷ e ∷ ds) 0 h)

    fits : ltb (digits_value 0 (d ∷ e ∷ ds)) (2 ^ 64) ≡ true
    fits = ground (arith, bound)

-- A descriptor of any ten characters and sixteen upper-case hex digits, with whatever the device sends
-- behind these 26, parses to the number that the digits write.
pub parse_serial-notation :
    (prefix digits behind : List ℕ)
    → length prefix ≡ 10
    → length digits ≡ 16
    → All (λ d. d < 16) digits
    → parse_serial (prefix ++ (hex_chars digits ++ behind)) ≡ some (digits_value 0 digits)
unfolding parse_serial
parse_serial-notation prefix [] behind hp hd h = absurd (omega arith)
parse_serial-notation prefix (d ∷ []) behind hp hd h = absurd (omega arith)
parse_serial-notation prefix (d ∷ e ∷ ds) behind hp hd h =
    rw (long_enough, cut, after_prefix) (strtoull_16-hex d e ds (omega (arith, hd)) h)
  where
    text : List ℕ
    text = hex_chars (d ∷ e ∷ ds)

    text_length : length text ≡ 16
    text_length = omega (arith, length-hex_chars (d ∷ e ∷ ds), hd)

    long_enough : ltb (length (prefix ++ (text ++ behind))) serial_expected_len ≡ false
    long_enough =
        ground
          (arith, length-append prefix (text ++ behind), length-append text behind, text_length, hp)

    cut : take serial_expected_len (prefix ++ (text ++ behind)) ≡ prefix ++ text
    cut =
        ap (take 26) (sym (append_assoc prefix text behind))
        ∙ subst (λ k. take k ((prefix ++ text) ++ behind) ≡ prefix ++ text)
            {x = length (prefix ++ text)} {y = 26}
            (omega (arith, length-append prefix text, text_length, hp))
            (take-append_length (prefix ++ text) behind)

    after_prefix : drop 10 (prefix ++ text) ≡ text
    after_prefix = subst (λ k. drop k (prefix ++ text) ≡ text) hp (drop-append_length prefix text)
