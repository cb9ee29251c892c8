-- ===== src/Iq/Delay.antt =====
-- `delay_interleaved` (crates/libairspy/src/iqconverter_int16.rs and iqconverter_float.rs): the
-- circular delay over the odd samples.
use libairspy_rs.Base.{
  ℕ, zero, suc, ◌+◌, ◌%◌, ◌≤◌, ◌<◌, ◌≡◌, refl, sym, ap, ◌∙◌, subst, List, [], ◌∷◌, ◌++◌, arith,
  length, append_assoc, append_nil, get_or, set, take, drop, leb, if◌then◌else◌, length-set,
  take_all, ap₂, Bool-cases, inl, inr, true,
}

pub record Ring {ℓ} (A : Type ℓ) : Type ℓ where
  pub line : List A
  pub index : ℕ

-- The swap of a sample with the entry at the index, and the step of the index.
unfoldable pub swap {ℓ} : {A : Type ℓ} → Ring A → A → A × Ring A
swap r x = (
  get_or r.line r.index x,
  record {
    line = set r.line r.index x;
    index = if leb (length r.line) (r.index + 1) then 0 else r.index + 1;
  },
)

unfoldable pub delay_pass {ℓ} : {A : Type ℓ} → Ring A → List A → List A × Ring A
delay_pass r [] = ([], r)
delay_pass r (x ∷ []) = (x ∷ [], r)
delay_pass r (x ∷ y ∷ rest) =
    let swapped = swap r y in
    let after = delay_pass swapped.1 rest in (x ∷ swapped.0 ∷ after.0, after.1)

-- The delayed samples, the next one to come out first.
unfoldable pub pending {ℓ} : {A : Type ℓ} → Ring A → List A
pending r = drop r.index r.line ++ take r.index r.line

abbrev pub odds {ℓ} : {A : Type ℓ} → List A → List A
odds [] = []
odds (x ∷ []) = []
odds (x ∷ y ∷ rest) = y ∷ odds rest

abbrev pub evens {ℓ} : {A : Type ℓ} → List A → List A
evens [] = []
evens (x ∷ []) = x ∷ []
evens (x ∷ y ∷ rest) = x ∷ evens rest

module _ {ℓ} {A : Type ℓ} where
  -- The list taken apart at an index in range.
  drop-get_or :
      (xs : List A) (i : ℕ) (d : A) → i < length xs → drop i xs ≡ get_or xs i d ∷ drop (suc i) xs
  drop-get_or [] i d h = absurd (omega arith)
  drop-get_or (x ∷ xs) zero d h = refl
  drop-get_or (x ∷ xs) (suc i) d h = drop-get_or xs i d (omega arith)

  take-set :
      (xs : List A) (i : ℕ) (v : A)
      → i < length xs
      → take (suc i) (set xs i v) ≡ take i xs ++ (v ∷ [])
  take-set [] i v h = absurd (omega arith)
  take-set (x ∷ xs) zero v h = refl
  take-set (x ∷ xs) (suc i) v h = ap (◌∷◌ x) (take-set xs i v (omega arith))

  drop-set_after : (xs : List A) (i : ℕ) (v : A) → drop (suc i) (set xs i v) ≡ drop (suc i) xs
  drop-set_after [] i v = refl
  drop-set_after (x ∷ xs) zero v = refl
  drop-set_after (x ∷ xs) (suc i) v = drop-set_after xs i v

  drop_all : (n : ℕ) (xs : List A) → length xs ≤ n → drop n xs ≡ []
  drop_all zero [] h = refl
  drop_all zero (x ∷ xs) h = absurd (omega arith)
  drop_all (suc n) [] h = refl
  drop_all (suc n) (x ∷ xs) h = drop_all n xs (omega arith)

  -- After the step the line reads, from the index on and around, the old one without its next sample
  -- and with the new one last.
  turned :
      (r : Ring A) (x : A)
      → r.index < length r.line
      → pending (swap r x).1 ≡ drop (suc r.index) r.line ++ (take r.index r.line ++ (x ∷ []))
  unfolding pending swap
  turned r x h = elim (Bool-cases (leb (length r.line) (r.index + 1))) [
    | inl e ↦ rw (e) (
        append_nil written
        ∙ (sym (take_all (suc r.index) written (wrapped e))
            ∙ (take-set r.line r.index x h
                ∙ ap (λ l. l ++ (take r.index r.line ++ (x ∷ [])))
                    (sym (drop_all (suc r.index) r.line (wrapped_line e))))))
    | inr e ↦ rw (e) (
        subst
          (λ i.
            drop i written ++ take i written
            ≡ drop (suc r.index) r.line ++ (take r.index r.line ++ (x ∷ [])))
          {x = suc r.index} (omega arith)
          (ap₂ (λ a b. a ++ b) (drop-set_after r.line r.index x) (take-set r.line r.index x h)))
  ]
    where
      written : List A
      written = set r.line r.index x

      wrapped : leb (length r.line) (r.index + 1) ≡ true → length written ≤ suc r.index
      wrapped e = ground (arith, length-set r.line r.index x)

      wrapped_line : leb (length r.line) (r.index + 1) ≡ true → length r.line ≤ suc r.index
      wrapped_line e = ground arith

  -- A swap is a step of a queue: the sample that comes out, then what is pending, is what was
  -- pending, then the sample that goes in.
  swap-pending :
      (r : Ring A) (x : A)
      → r.index < length r.line
      → (swap r x).0 ∷ pending (swap r x).1 ≡ pending r ++ (x ∷ [])
  unfolding swap pending
  swap-pending r x h = rw (drop-get_or r.line r.index x h) (
      ap (◌∷◌ (get_or r.line r.index x)) (
        turned r x h
        ∙ sym (append_assoc (drop (suc r.index) r.line) (take r.index r.line) (x ∷ []))))

  pub record InRing (r : Ring A) (half_len : ℕ) : Type ℓ where
    pub size : length r.line ≡ half_len
    pub inside : r.index < half_len

  swap-InRing :
      (r : Ring A) (half_len : ℕ) (x : A) → InRing r half_len → InRing (swap r x).1 half_len
  unfolding swap
  swap-InRing r half_len x h = record {
    size = omega (arith, length-set r.line r.index x, h.size);
    inside = ground (arith, h.size, h.inside);
  }

  -- The delay line is a queue over whole blocks: the odd samples that come out, then what is
  -- pending afterwards, are what was pending before, then the odd samples that go in. The even
  -- samples and the block's length stay, and the ring stays in its bounds.
  pub record Delays (r : Ring A) (half_len : ℕ) (samples : List A) : Type ℓ where
    pub in_order :
        odds (delay_pass r samples).0 ++ pending (delay_pass r samples).1
        ≡ pending r ++ odds samples
    pub evens_stay : evens (delay_pass r samples).0 ≡ evens samples
    pub stays : InRing (delay_pass r samples).1 half_len

  -- The delay line of a ring in its bounds is a queue over whole blocks: the odd samples that come out
  -- followed by those still pending are those that were pending followed by the odd samples that went
  -- in; the even samples stay, and so do the bounds of the ring.
  pub delay_pass-Delays :
      (half_len : ℕ) (samples : List A) (r : Ring A) → InRing r half_len → Delays r half_len samples
  unfolding delay_pass
  delay_pass-Delays half_len [] r h = record {
    in_order = sym (append_nil (pending r));
    evens_stay = refl;
    stays = h;
  }
  delay_pass-Delays half_len (x ∷ []) r h = record {
    in_order = sym (append_nil (pending r));
    evens_stay = refl;
    stays = h;
  }
  delay_pass-Delays half_len (x ∷ y ∷ rest) r h =
      let after = delay_pass-Delays half_len rest (swap r y).1 (swap-InRing r half_len y h) in
      record {
        in_order =
            ap (◌∷◌ (swap r y).0) after.in_order
            ∙ (ap (λ l. l ++ odds rest) (swap-pending r y (omega (arith, h.size, h.inside)))
                ∙ append_assoc (pending r) (y ∷ []) (odds rest));
        evens_stay = ap (◌∷◌ x) after.evens_stay;
        stays = after.stays;
      }

  pub delay_pass-append :
      (r : Ring A) (a b : List A)
      → length a % 2 ≡ 0
      → delay_pass r (a ++ b) ≡ (
        (delay_pass r a).0 ++ (delay_pass (delay_pass r a).1 b).0,
        (delay_pass (delay_pass r a).1 b).1,
      )
  unfolding delay_pass
  delay_pass-append r [] b h = refl
  delay_pass-append r (x ∷ []) b h = absurd (omega arith)
  delay_pass-append r (x ∷ y ∷ rest) b h =
      ap (λ (p : List A × Ring A). (x ∷ (swap r y).0 ∷ p.0, p.1))
        (delay_pass-append (swap r y).1 rest b (omega arith))

  pub length-delay_pass : (r : Ring A) (a : List A) → length (delay_pass r a).0 ≡ length a
  unfolding delay_pass
  length-delay_pass r [] = refl
  length-delay_pass r (x ∷ []) = refl
  length-delay_pass r (x ∷ y ∷ rest) = ap (λ k. suc (suc k)) (length-delay_pass (swap r y).1 rest)
