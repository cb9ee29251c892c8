-- ===== src/Iq/Queue.antt =====
-- crates/libairspy/src/iqconverter_int16.rs and iqconverter_float.rs, `fir_queue` and `fir_index`: the
-- queue that slides backwards through a buffer of `fir_len * SIZE_FACTOR` entries. The two files hold
-- the same code over `i32` and `f32` with a `SIZE_FACTOR` of 16 and of 32; it is written once, over any
-- type of samples and any factor.
use libairspy_rs.Base.{
  ℕ, zero, suc, ◌+◌, ◌-◌, ◌*◌, ◌≤◌, ◌<◌, ◌≡◌, refl, sym, ap, ◌∙◌, List, [], ◌∷◌, ◌++◌, arith,
  length, set, take, drop, replicate, length-append, length-set, length-take, length-drop,
  length-replicate, subst, drop-append_length,
}

-- `queue.copy_within(lo..hi, dest)`.
unfoldable pub copy_within {ℓ} : {A : Type ℓ} → List A → ℕ → ℕ → ℕ → List A
copy_within queue lo hi dest =
    take dest queue ++ (take (hi - lo) (drop lo queue) ++ drop (dest + (hi - lo)) queue)

pub record Slide {ℓ} (A : Type ℓ) : Type ℓ where
  pub queue : List A
  pub index : ℕ

-- The write at the head of the window.
unfoldable pub insert {ℓ} : {A : Type ℓ} → Slide A → A → Slide A
insert s x = record { queue = set s.queue s.index x; index = s.index }

-- The `fir_len` entries that the accumulator loop reads, newest first.
unfoldable pub window {ℓ} : {A : Type ℓ} → ℕ → Slide A → List A
window fir_len s = take fir_len (drop s.index s.queue)

-- The step of the index, with the block copied back when it reaches the front.
unfoldable pub advance {ℓ} : {A : Type ℓ} → ℕ → ℕ → Slide A → Slide A
advance size_factor fir_len s = elim s.index [
  | zero ↦ record {
    queue = copy_within s.queue 0 (fir_len - 1) (fir_len * (size_factor - 1) + 1);
    index = fir_len * (size_factor - 1);
  }
  | suc i ↦ record { queue = s.queue; index = i }
]

-- The queue of a filter of n + 1 taps stands for the samples seen so far, newest first: the entries
-- after the index are the newest n of them, and the index leaves room for a window.
pub record Holds {ℓ} {A : Type ℓ} (size_factor n : ℕ) (hist : List A) (s : Slide A) : Type ℓ where
  pub room : length s.queue ≡ (n + 1) * (size_factor - 1) + (n + 1)
  pub in_front : s.index ≤ (n + 1) * (size_factor - 1)
  pub newest : take n (drop (suc s.index) s.queue) ≡ take n hist
  pub enough : n ≤ length hist

module _ {ℓ} {A : Type ℓ} where
  drop-set :
      (i : ℕ) (xs : List A) (v : A) → i < length xs → drop i (set xs i v) ≡ v ∷ drop (suc i) xs
  drop-set i [] v h = absurd (omega arith)
  drop-set zero (x ∷ xs) v h = refl
  drop-set (suc i) (x ∷ xs) v h = drop-set i xs v (omega arith)

  take-take : (m n : ℕ) (xs : List A) → m ≤ n → take m (take n xs) ≡ take m xs
  take-take zero n xs h = refl
  take-take (suc m) zero xs h = absurd (omega arith)
  take-take (suc m) (suc n) [] h = refl
  take-take (suc m) (suc n) (x ∷ xs) h = ap (◌∷◌ x) (take-take m n xs (omega arith))

  take-append : (n : ℕ) (xs ys : List A) → n ≤ length xs → take n (xs ++ ys) ≡ take n xs
  take-append zero xs ys h = refl
  take-append (suc n) [] ys h = absurd (omega arith)
  take-append (suc n) (x ∷ xs) ys h = ap (◌∷◌ x) (take-append n xs ys (omega arith))

  drop-append : (n : ℕ) (xs ys : List A) → n ≡ length xs → drop n (xs ++ ys) ≡ ys
  drop-append n xs ys h = subst (λ k. drop k (xs ++ ys) ≡ ys) (sym h) (drop-append_length xs ys)

  take-replicate : (n m : ℕ) (z : A) → n ≤ m → take n (replicate m z) ≡ replicate n z
  take-replicate zero m z h = refl
  take-replicate (suc n) zero z h = absurd (omega arith)
  take-replicate (suc n) (suc m) z h = ap (◌∷◌ z) (take-replicate n m z (omega arith))

  fresh_window :
      (m n : ℕ) (z : A) → n < m → take n (drop 1 (replicate m z)) ≡ take n (replicate n z)
  fresh_window zero n z h = absurd (omega arith)
  fresh_window (suc m) n z h =
      take-replicate n m z (omega arith) ∙ sym (take-replicate n n z (omega arith))

module _ {ℓ} {A : Type ℓ} (size_factor : ℕ) where
  -- The window after a write is the newest n + 1 samples, the new one first.
  pub window-insert :
      (n : ℕ) (hist : List A) (s : Slide A) (x : A)
      → Holds size_factor n hist s
      → window (suc n) (insert s x) ≡ x ∷ take n hist
  unfolding window insert
  window-insert n hist s x h =
      rw (drop-set s.index s.queue x (omega (arith, h.room, h.in_front))) (ap (◌∷◌ x) h.newest)

  -- A block of the front copied within the queue, and what stands after it.
  copy_within_front :
      (q : List A) (k dest : ℕ)
      → copy_within q 0 k dest ≡ take dest q ++ (take k q ++ drop (dest + k) q)
  unfolding copy_within
  copy_within_front q k dest =
      ap (λ j. take dest q ++ (take j q ++ drop (dest + j) q)) {x = k - 0} (omega arith)

  length-copy_within :
      (q : List A) (k dest : ℕ) → dest + k ≤ length q → length (copy_within q 0 k dest) ≡ length q
  length-copy_within q k dest h = omega (
    arith,
    ap length (copy_within_front q k dest),
    length-append (take dest q) (take k q ++ drop (dest + k) q),
    length-append (take k q) (drop (dest + k) q),
    length-take dest q,
    length-take k q,
    length-drop (dest + k) q,
  )

  copied :
      (q : List A) (k dest : ℕ)
      → dest + k ≤ length q
      → take k (drop dest (copy_within q 0 k dest)) ≡ take k q
  copied q k dest h =
      ap (λ l. take k (drop dest l)) (copy_within_front q k dest)
      ∙ (ap (take k) (drop-append dest (take dest q) _ (omega (arith, length-take dest q)))
          ∙ (take-append k (take k q) _ (omega (arith, length-take k q))
              ∙ take-take k k q (omega arith)))

  -- The newest samples after the write, as the next window's tail.
  after_write :
      (n : ℕ) (hist : List A) (s : Slide A) (x : A)
      → Holds size_factor n hist s
      → take n (drop s.index (set s.queue s.index x)) ≡ take n (x ∷ hist)
  unfolding window insert
  after_write n hist s x h =
      sym (take-take n (suc n) (drop s.index (set s.queue s.index x)) (omega arith))
      ∙ (ap (take n) (window-insert n hist s x h) ∙ take-take n (suc n) (x ∷ hist) (omega arith))

  step-Holds :
      (n : ℕ) (hist q : List A) (i : ℕ) (x : A)
      → Holds size_factor n hist (record { queue = q; index = i })
      → Holds size_factor n
          (x ∷ hist)
          (advance size_factor (suc n) (insert (record { queue = q; index = i }) x))
  unfolding advance insert
  step-Holds n hist q zero x h = record {
    room = omega (
      arith,
      h.room,
      length-set q 0 x,
      length-copy_within (set q 0 x) (suc n - 1) (suc n * (size_factor - 1) + 1)
          (omega (arith, h.room, length-set q 0 x)),
    );
    in_front = omega arith;
    newest = back_front ∙ after_write n hist (record { queue = q; index = 0 }) x h;
    enough = omega (arith, h.enough);
  }
    where
      back_front :
          take n (
            drop
              (suc (suc n * (size_factor - 1)))
              (copy_within (set q 0 x) 0 (suc n - 1) (suc n * (size_factor - 1) + 1)))
          ≡ take n (set q 0 x)
      back_front =
          ap
            (λ k. take n (
              drop (suc (suc n * (size_factor - 1)))
                (copy_within (set q 0 x) 0 k (suc n * (size_factor - 1) + 1))))
            {x = suc n - 1} (omega arith)
          ∙ (ap (λ d. take n (drop d (copy_within (set q 0 x) 0 n (suc n * (size_factor - 1) + 1))))
                {x = suc (suc n * (size_factor - 1))} (omega arith)
              ∙ copied (set q 0 x) n (suc n * (size_factor - 1) + 1)
                  (omega (arith, h.room, length-set q 0 x)))
  step-Holds n hist q (suc i) x h = record {
    room = omega (arith, h.room, length-set q (suc i) x);
    in_front = omega (arith, h.in_front);
    newest = after_write n hist (record { queue = q; index = suc i }) x h;
    enough = omega (arith, h.enough);
  }

  -- The step of the index keeps what the queue stands for, with the new sample added.
  pub advance-Holds :
      (n : ℕ) (hist : List A) (s : Slide A) (x : A)
      → Holds size_factor n hist s
      → Holds size_factor n (x ∷ hist) (advance size_factor (suc n) (insert s x))
  advance-Holds n hist s x h = step-Holds n hist s.queue s.index x h

  -- The zeroed queue of a fresh or reset filter.
  pub fresh-Holds :
      (n m : ℕ) (z : A)
      → m ≡ (n + 1) * (size_factor - 1) + (n + 1)
      → Holds size_factor n (replicate n z) (record { queue = replicate m z; index = 0 })
  fresh-Holds n m z h = record {
    room = length-replicate m z ∙ h;
    in_front = omega arith;
    newest = fresh_window m n z (omega (arith, h));
    enough = omega (arith, length-replicate n z);
  }
