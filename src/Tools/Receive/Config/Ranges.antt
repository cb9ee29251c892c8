-- ===== src/Tools/Receive/Config/Ranges.antt =====
-- The range checks of rx_cli.rs (`validate_ranges`), and how a refused test ends them.
use libairspy_rs.Base.{
  ℕ, ◌≤◌, ◌≡◌, ◌↔◌, refl, Bool, true, false, ◌&&◌, Option, none, some, ltb, arith,
}
use libairspy_rs.Tools.Receive.Config.{
  Args, Refusal, Checked, accept, refuse, ◌>>=◌, ◌>>◌, reject_if, or_else, given, validate_ranges,
}

abbrev pub AtMost : ℕ → Option ℕ → Type 0
AtMost n none = Unit
AtMost n (some v) = v ≤ n

abbrev pub NotBoth : Option ℕ → Option ℕ → Type 0
NotBoth (some a) (some b) = ⊥
NotBoth _ _ = Unit

-- A refused test, and what follows an accepted one.
pub reject-inv :
    {B : Type 0} (t : Bool) (r : Refusal) (k : Checked B) {b : B}
    → (reject_if t r >> k) ≡ accept b
    → (t ≡ false) × (k ≡ accept b)
reject-inv true r k h = cc
reject-inv false r k h = (refl, h)

pub >>=-inv :
    {A B : Type 0} (m : Checked A) (f : A → Checked B) {b : B}
    → (m >>= f) ≡ accept b
    → (a : A) × (m ≡ accept a) × (f a ≡ accept b)
>>=-inv (accept a) f h = (a, refl, h)
>>=-inv (refuse r) f h = cc

pub at_most : (n d : ℕ) (o : Option ℕ) → d ≤ n → (ltb n (or_else o d) ≡ false) ↔ AtMost n o
at_most n d none h = (λ e. tt, λ e. ground arith)
at_most n d (some v) h = (λ e. ground arith, λ e. ground arith)

not_both : (a b : Option ℕ) → (given a && given b ≡ false) ↔ NotBoth a b
not_both none b = (λ e. tt, λ e. refl)
not_both (some a) none = (λ e. tt, λ e. refl)
not_both (some a) (some b) = (λ e. absurd (cc), λ e. absurd e)

-- What `validate_ranges` asks for, and the values that it hands on.
abbrev pub Ranges : Args → Type 0
Ranges a =
    AtMost 1 a.biast
    × AtMost 15 a.vga_gain
    × AtMost 15 a.mixer_gain
    × AtMost 14 a.lna_gain
    × AtMost 21 a.linearity_gain
    × AtMost 21 a.sensitivity_gain
    × NotBoth a.linearity_gain a.sensitivity_gain

abbrev pub ranges_of : Args → ℕ × ℕ × ℕ × ℕ
ranges_of a =
    (or_else a.biast 0, or_else a.vga_gain 5, or_else a.mixer_gain 5, or_else a.lna_gain 1)

pub validate_ranges-inv :
    (a : Args) {r : ℕ × ℕ × ℕ × ℕ}
    → validate_ranges a ≡ accept r
    → Ranges a × (accept (ranges_of a) ≡ accept r)
unfolding validate_ranges
validate_ranges-inv a h =
    let b = reject-inv (ltb 1 (or_else a.biast 0)) _ _ h in
    let v = reject-inv (ltb 15 (or_else a.vga_gain 5)) _ _ b.1 in
    let m = reject-inv (ltb 15 (or_else a.mixer_gain 5)) _ _ v.1 in
    let l = reject-inv (ltb 14 (or_else a.lna_gain 1)) _ _ m.1 in
    let g = reject-inv (ltb 21 (or_else a.linearity_gain 0)) _ _ l.1 in
    let s = reject-inv (ltb 21 (or_else a.sensitivity_gain 0)) _ _ g.1 in
    let n = reject-inv (given a.linearity_gain && given a.sensitivity_gain) _ _ s.1 in
    (
      (
        (at_most 1 0 a.biast (omega arith)).0 b.0,
        (at_most 15 5 a.vga_gain (omega arith)).0 v.0,
        (at_most 15 5 a.mixer_gain (omega arith)).0 m.0,
        (at_most 14 1 a.lna_gain (omega arith)).0 l.0,
        (at_most 21 0 a.linearity_gain (omega arith)).0 g.0,
        (at_most 21 0 a.sensitivity_gain (omega arith)).0 s.0,
        (not_both a.linearity_gain a.sensitivity_gain).0 n.0,
      ),
      n.1,
    )

pub validate_ranges-accept : (a : Args) → Ranges a → validate_ranges a ≡ accept (ranges_of a)
unfolding validate_ranges
validate_ranges-accept a h =
    rw
      (
        (at_most 1 0 a.biast (omega arith)).1 h.0,
        (at_most 15 5 a.vga_gain (omega arith)).1 h.1,
        (at_most 15 5 a.mixer_gain (omega arith)).1 h.2,
        (at_most 14 1 a.lna_gain (omega arith)).1 h.3,
        (at_most 21 0 a.linearity_gain (omega arith)).1 h.4,
        (at_most 21 0 a.sensitivity_gain (omega arith)).1 h.5,
        (not_both a.linearity_gain a.sensitivity_gain).1 h.6,
      )
      refl
