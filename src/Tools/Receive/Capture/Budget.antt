-- ===== src/Tools/Receive/Capture/Budget.antt =====
-- What a byte budget lets through (crates/airspy-tools/src/rx.rs, `apply_byte_budget`).
use libairspy_rs.Base.{
  ℕ, zero, suc, ◌+◌, ◌-◌, ◌≤◌, ◌≡◌, refl, sym, ap, ◌∙◌, true, Option, none, some, List, [], ◌∷◌,
  ◌++◌, length, take, leb, arith, Bool-cases, inl, inr, append_nil, take_all,
}
use libairspy_rs.Tools.Receive.{apply_byte_budget}
use libairspy_rs.Tools.Receive.Capture.{is_spent}

-- What a budget lets through.
abbrev pub within : Option ℕ → List ℕ → List ℕ
within none bytes = bytes
within (some b) bytes = take b bytes

take-append_le : (b : ℕ) (xs ys : List ℕ) → b ≤ length xs → take b (xs ++ ys) ≡ take b xs
take-append_le zero xs ys h = refl
take-append_le (suc b) [] ys h = absurd (omega arith)
take-append_le (suc b) (x ∷ xs) ys h = ap (◌∷◌ x) (take-append_le b xs ys (omega arith))

-- With k more than the length of the first part.
take-append_more : (k : ℕ) (xs ys : List ℕ) → take (length xs + k) (xs ++ ys) ≡ xs ++ take k ys
take-append_more k [] ys = ap (λ n. take n ys) (let z : 0 + k ≡ k = omega arith in z)
take-append_more k (x ∷ xs) ys =
    ap (λ n. take n (x ∷ (xs ++ ys)))
      (let z : suc (length xs) + k ≡ suc (length xs + k) = omega arith in z)
    ∙ ap (◌∷◌ x) (take-append_more k xs ys)

take-append_ge :
    (b : ℕ) (xs ys : List ℕ) → length xs ≤ b → take b (xs ++ ys) ≡ xs ++ take (b - length xs) ys
take-append_ge b xs ys h =
    ap (λ n. take n (xs ++ ys)) (let z : b ≡ length xs + (b - length xs) = omega arith in z)
    ∙ take-append_more (b - length xs) xs ys

-- A budget is spent on a block as on the bytes of the stream.
pub within-append :
    (r : Option ℕ) (xs ys : List ℕ)
    → within r (xs ++ ys)
      ≡ take (apply_byte_budget r (length xs)).0 xs ++ within (apply_byte_budget r (length xs)).1 ys
unfolding apply_byte_budget
within-append none xs ys = ap (λ t. t ++ ys) (sym (take_all (length xs) xs (omega arith)))
within-append (some b) xs ys = elim (Bool-cases (leb b (length xs))) [
  | inl e ↦ rw (e) (
      let none_left : take (b - b) ys ≡ [] =
        ap (λ k. take k ys) (let z : b - b ≡ 0 = omega arith in z) in
      take-append_le b xs ys (ground arith) ∙ sym (rw (none_left) (append_nil (take b xs))))
  | inr e ↦ rw (e) (
      take-append_ge b xs ys (ground arith)
      ∙ ap (λ t. t ++ take (b - length xs) ys) (sym (take_all (length xs) xs (omega arith))))
]

pub within-spent : (r : Option ℕ) (ys : List ℕ) → is_spent r ≡ true → within r ys ≡ []
within-spent none ys h = absurd (cc)
within-spent (some zero) ys h = refl
within-spent (some (suc b)) ys h = absurd (ground arith)
