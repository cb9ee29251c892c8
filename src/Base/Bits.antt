-- ===== src/Base/Bits.antt =====
-- Shifts and masks of machine words. `a >> k` is `a / 2 ^ k`, `a << k` is `a * 2 ^ k`, `a & b` and
-- `a | b` are the native operations; the lemmas turn a mask of k ones into `% 2 ^ k` and the `|` of
-- fields that do not overlap into a sum.
use Prim.Native.Nat.{
  ℕ, zero, suc, ◌+◌, ◌-◌, ◌*◌, ◌/◌, ◌%◌, ◌^◌, ◌≤◌, ◌<◌, min, max, bit_and, bit_or, digits,
  bit_and-bitwise, bit_or-bitwise,
}
use mathlib.Core.Path.{◌≡◌, refl, sym, ap, ◌∙◌}
use native.Mathlib.Omega.{arith}
use native.Mathlib.Nat.{
  pow-suc, one-le-pow, mod-lt, mod-eq_of_lt, div-add-mod', add-mul-mod_self_right,
  div-div-eq-div-mul, pow-succ',
}

abbrev pub shr : ℕ → ℕ → ℕ
shr x k = x / 2 ^ k

abbrev pub shl : ℕ → ℕ → ℕ
shl x k = x * 2 ^ k

-- A digitwise operation, whose value past the first number's last digit is that of a digit 0 there.
module _ (z : ℕ → ℕ) (f : ℕ → ℕ → ℕ) (past : (b : ℕ) → z b ≡ z (b / 2) * 2 + f 0 (b % 2)) where
  digits_enough : (n m a b : ℕ) → a ≤ n → a ≤ m → digits z f n a b ≡ digits z f m a b
  digits_enough zero zero a b p q = refl
  digits_enough (suc n) zero zero b p q = refl
  digits_enough (suc n) zero (suc a) b p q = absurd (omega arith)
  digits_enough zero (suc m) zero b p q = refl
  digits_enough zero (suc m) (suc a) b p q = absurd (omega arith)
  digits_enough (suc n) (suc m) zero b p q = refl
  digits_enough (suc n) (suc m) (suc a) b p q =
      ap (λ d. d * 2 + f (suc a % 2) (b % 2))
        (digits_enough n m (suc a / 2) (b / 2) (omega arith) (omega arith))

  lowest_digit :
      (a b : ℕ) → digits z f a a b ≡ digits z f (a / 2) (a / 2) (b / 2) * 2 + f (a % 2) (b % 2)
  lowest_digit zero b = past b
  lowest_digit (suc a) b =
      ap (λ d. d * 2 + f (suc a % 2) (b % 2))
        (digits_enough a (suc a / 2) (suc a / 2) (b / 2) (omega arith) (omega arith))

bit_or_lowest : (a b : ℕ) → bit_or a b ≡ bit_or (a / 2) (b / 2) * 2 + max (a % 2) (b % 2)
bit_or_lowest a b = omega (
  arith,
  bit_or-bitwise a b,
  bit_or-bitwise (a / 2) (b / 2),
  lowest_digit (λ b. b) max (λ b. omega arith) a b,
)

bit_and_lowest : (a b : ℕ) → bit_and a b ≡ bit_and (a / 2) (b / 2) * 2 + min (a % 2) (b % 2)
bit_and_lowest a b = omega (
  arith,
  bit_and-bitwise a b,
  bit_and-bitwise (a / 2) (b / 2),
  lowest_digit (λ b. zero) min (λ b. omega arith) a b,
)

-- The number of halvings that empty a number bounds these two inductions.
bit_or-zero_below : (n a : ℕ) → a ≤ n → bit_or a 0 ≡ a
bit_or-zero_below n zero h = bit_or-bitwise 0 0
bit_or-zero_below zero (suc a) h = absurd (omega arith)
bit_or-zero_below (suc n) (suc a) h =
    omega (arith, bit_or_lowest (suc a) 0, bit_or-zero_below n (suc a / 2) (omega arith))

bit_and-zero_below : (n a : ℕ) → a ≤ n → bit_and a 0 ≡ 0
bit_and-zero_below n zero h = bit_and-bitwise 0 0
bit_and-zero_below zero (suc a) h = absurd (omega arith)
bit_and-zero_below (suc n) (suc a) h =
    omega (arith, bit_and_lowest (suc a) 0, bit_and-zero_below n (suc a / 2) (omega arith))

double_power : (q k : ℕ) → q * 2 ^ suc k ≡ q * 2 ^ k + q * 2 ^ k
double_power q k = omega (arith, ap (λ (t : ℕ). q * t) (pow-suc 2 k))

-- `(hi << k) | lo` is a sum when `lo` has at most k bits.
pub bit_or_disjoint : (k hi lo : ℕ) → lo < 2 ^ k → bit_or (hi * 2 ^ k) lo ≡ hi * 2 ^ k + lo
bit_or_disjoint zero hi lo h = omega (
  arith,
  ap (bit_or (hi * 2 ^ 0)) (let e : lo ≡ 0 = omega arith in e),
  bit_or-zero_below (hi * 2 ^ 0) (hi * 2 ^ 0) (omega arith),
)
bit_or_disjoint (suc k) hi lo h = omega (
  arith,
  bit_or_lowest (hi * 2 ^ suc k) lo,
  ap (λ t. bit_or t (lo / 2))
      (let e : hi * 2 ^ suc k / 2 ≡ hi * 2 ^ k = omega (arith, double_power hi k) in e),
  bit_or_disjoint k hi (lo / 2) (omega (arith, pow-suc 2 k)),
  double_power hi k,
)

low_half : (a p : ℕ) → 0 < p → a % (p + p) ≡ a / 2 % p * 2 + a % 2
low_half a p h =
    ap (λ t. t % (p + p)) split
    ∙ add-mul-mod_self_right (a / 2 % p * 2 + a % 2) (a / 2 / p) (p + p)
    ∙ mod-eq_of_lt (omega (arith, mod-lt (a / 2) h))
  where
    split : a ≡ a / 2 % p * 2 + a % 2 + a / 2 / p * (p + p)
    split = omega (arith, div-add-mod' (a / 2) p)

-- `a & mask` with a mask of k ones.
pub bit_and_ones : (k a : ℕ) → bit_and a (2 ^ k - 1) ≡ a % 2 ^ k
bit_and_ones zero a = omega (arith, bit_and-zero_below a a (omega arith))
bit_and_ones (suc k) a = omega (
  arith,
  bit_and_lowest a (2 ^ suc k - 1),
  ap (bit_and (a / 2)) half_mask,
  bit_and_ones k (a / 2),
  low_half a (2 ^ k) (one-le-pow k 2 (omega arith)),
  ap (λ t. a % t) (let e : 2 ^ suc k ≡ 2 ^ k + 2 ^ k = omega (arith, pow-suc 2 k) in e),
  pow-suc 2 k,
  one-le-pow k 2 (omega arith),
)
  where
    half_mask : (2 ^ suc k - 1) / 2 ≡ 2 ^ k - 1
    half_mask = omega (arith, pow-suc 2 k, one-le-pow k 2 (omega arith))

-- A mask shifted by k.
pub bit_and_shifted : (k a m : ℕ) → bit_and a (m * 2 ^ k) ≡ bit_and (a / 2 ^ k) m * 2 ^ k
bit_and_shifted zero a m = omega (
  arith,
  ap (bit_and a) (let e : m * 2 ^ 0 ≡ m = omega arith in e),
  ap (λ t. bit_and t m) (let e : a / 2 ^ 0 ≡ a = omega arith in e),
)
bit_and_shifted (suc k) a m = omega (
  arith,
  bit_and_lowest a (m * 2 ^ suc k),
  ap (bit_and (a / 2))
      (let e : m * 2 ^ suc k / 2 ≡ m * 2 ^ k = omega (arith, double_power m k) in e),
  bit_and_shifted k (a / 2) m,
  ap (λ t. bit_and t m * 2 ^ k)
      (let e : a / 2 / 2 ^ k ≡ a / 2 ^ suc k =
          div-div-eq-div-mul a 2 (2 ^ k) ∙ ap (λ t. a / t) (sym (pow-succ' 2 k)) in
        e),
  double_power m k,
  double_power (bit_and (a / 2 ^ suc k) m) k,
)
