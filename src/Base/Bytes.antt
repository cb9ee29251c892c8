-- ===== src/Base/Bytes.antt =====
-- Little-endian byte strings: `from_le_bytes` and `to_le_bytes` of the unsigned words.
use Prim.Native.Nat.{ℕ, zero, suc, ◌+◌, ◌*◌, ◌/◌, ◌%◌, ◌^◌, ◌<◌}
use mathlib.Core.Path.{◌≡◌, refl, ap, ap₂, ◌∙◌}
use mathlib.Core.List.{List, [], ◌∷◌}
use native.Mathlib.Omega.{arith}
use native.Mathlib.Nat.{
  pow-suc, one-le-pow, div-add-mod, add-mul-mod_self_left, mod-lt, mod-eq_of_lt,
}
use libairspy_rs.Base.Lists.{length, All}

-- The word of any number of bytes, lowest first.
unfoldable pub from_le : List ℕ → ℕ
from_le [] = 0
from_le (b ∷ bs) = b + 256 * from_le bs

-- The n low bytes of a word, lowest first.
unfoldable pub to_le : ℕ → ℕ → List ℕ
to_le zero x = []
to_le (suc n) x = (x % 256) ∷ to_le n (x / 256)

abbrev pub AreBytes : List ℕ → Type 0
AreBytes = All (λ b. b < 256)

pub length-to_le : (n x : ℕ) → length (to_le n x) ≡ n
unfolding to_le
length-to_le zero x = refl
length-to_le (suc n) x = ap suc (length-to_le n (x / 256))

pub to_le-AreBytes : (n x : ℕ) → AreBytes (to_le n x)
unfolding to_le
to_le-AreBytes zero x = tt
to_le-AreBytes (suc n) x = (omega arith, to_le-AreBytes n (x / 256))

-- The low n bytes of a quotient by 256 make, with the byte below, the low n + 1 bytes.
low_byte : (x p : ℕ) → 0 < p → x % 256 + 256 * (x / 256 % p) ≡ x % (p * 256)
low_byte x p h = sym_eq
  where
    split : x ≡ x % 256 + 256 * (x / 256 % p) + (p * 256) * (x / 256 / p)
    split = omega (arith, div-add-mod (x / 256) p)

    sym_eq : x % 256 + 256 * (x / 256 % p) ≡ x % (p * 256)
    sym_eq = omega (
      arith,
      ap (λ t. t % (p * 256)) split,
      add-mul-mod_self_left (x % 256 + 256 * (x / 256 % p)) (p * 256) (x / 256 / p),
      mod-eq_of_lt {n = x % 256 + 256 * (x / 256 % p)} {m = p * 256}
          (omega (arith, mod-lt (x / 256) h)),
    )

pub from_le-to_le : (n x : ℕ) → from_le (to_le n x) ≡ x % 256 ^ n
unfolding from_le to_le
from_le-to_le zero x = omega arith
from_le-to_le (suc n) x = omega (
  arith,
  from_le-to_le n (x / 256),
  low_byte x (256 ^ n) (one-le-pow n 256 (omega arith)),
  ap (λ t. x % t) (pow-suc 256 n),
)

pub to_le-from_le : (bs : List ℕ) → AreBytes bs → to_le (length bs) (from_le bs) ≡ bs
unfolding from_le to_le
to_le-from_le [] h = refl
to_le-from_le (b ∷ bs) h = ap₂ ◌∷◌ (omega arith) (
    ap (to_le (length bs)) (let e : (b + 256 * from_le bs) / 256 ≡ from_le bs = omega arith in e)
    ∙ to_le-from_le bs h.1)

pub from_le-lt : (bs : List ℕ) → AreBytes bs → from_le bs < 256 ^ length bs
unfolding from_le
from_le-lt [] h = omega arith
from_le-lt (b ∷ bs) h = omega (arith, from_le-lt bs h.1, pow-suc 256 (length bs))

-- The bytes of a word, with more bytes behind them.
pub from_le-four :
    (a b c d : ℕ) → from_le (a ∷ b ∷ c ∷ d ∷ []) ≡ a + 256 * b + 65536 * c + 16777216 * d
unfolding from_le
from_le-four a b c d = omega arith
