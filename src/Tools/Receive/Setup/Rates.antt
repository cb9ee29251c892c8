-- ===== src/Tools/Receive/Setup/Rates.antt =====
-- The rate that crates/airspy-tools/src/bin/airspy_rx.rs puts in a file, against the rate that it sets.
use libairspy_rs.Base.{
  ℕ, ◌*◌, ◌/◌, ◌%◌, ◌^◌, ◌≤◌, ◌<◌, ◌≡◌, ◌≢◌, refl, ap, subst, none, some, List, [], ◌∷◌, map, zero,
  suc, length, length-map, get_elem?, All, leb, ◌⊎◌, inl, inr, Bool-cases, arith, if◌then◌else◌,
}
use libairspy_rs.Device.{Device}
use libairspy_rs.Device.Control.{is_iq, samplerate_value}
use libairspy_rs.Device.Control.Rates.{SamplerateVerdict, samplerate_value-verdict}
use libairspy_rs.Device.Lifecycle.{samplerates, rates_for_sample_type}
use libairspy_rs.Tools.Receive.{resolve_display_rate, min_samplerate_by_value}

-- The rate of the file by the argument, and the number that the device is sent: an index, whose reported
-- rate is the file's; a rate of the firmware's table, at whose index the device reports this rate for the IQ
-- types and its double for the others; or another rate, sent in kHz.
abbrev pub Agrees : Device → ℕ → ℕ → Type 0
Agrees d val rate =
    ((val < 1000000) × (samplerate_value d val ≡ val) × (get_elem? (samplerates d) val ≡ some rate))
    ⊎ ((1000000 < val)
        × (rate ≡ val)
        × (get_elem? (samplerates d) (samplerate_value d val)
            ≡ some (if is_iq d.sample_type then rate else rate * 2 % 2 ^ 32)))
    ⊎ ((1000000 < val)
        × (rate ≡ val)
        × All (λ x. x ≢ val) d.supported_samplerates
        × (samplerate_value d val ≡ (if is_iq d.sample_type then val * 2 % 2 ^ 32 else val) / 1000))

pub some-injective : {A : Type 0} {a b : A} → some a ≡ some b → a ≡ b
some-injective h = cc

get_elem?-map :
    {A B : Type 0} (f : A → B) (xs : List A) (i : ℕ) {x : A}
    → get_elem? xs i ≡ some x
    → get_elem? (map f xs) i ≡ some (f x)
get_elem?-map f [] i {x} h = absurd (let e : none ≡ some x = h in cc)
get_elem?-map f (y ∷ ys) zero {x} h =
    ap some (let e : some y ≡ some x = h in ap f (some-injective e))
get_elem?-map f (y ∷ ys) (suc i) h = get_elem?-map f ys i h

get_elem?-length :
    {A : Type 0} (xs : List A) (i : ℕ) {x : A} → get_elem? xs i ≡ some x → i < length xs
get_elem?-length [] i {x} h = absurd (let e : none ≡ some x = h in cc)
get_elem?-length (y ∷ ys) zero h = omega arith
get_elem?-length (y ∷ ys) (suc i) h = omega (arith, get_elem?-length ys i h)

-- The display rate never resolves an argument of exactly 1 MHz in a table of less than a million rates.
pub resolve-Agrees :
    (d : Device) (val : ℕ) {rate : ℕ}
    → length d.supported_samplerates ≤ 1000000
    → resolve_display_rate val (samplerates d) ≡ some rate
    → Agrees d val rate
unfolding resolve_display_rate samplerates rates_for_sample_type
resolve-Agrees d val {rate} small h = elim (Bool-cases (leb val min_samplerate_by_value)) [
  | inl e ↦
      let listed : get_elem? (samplerates d) val ≡ some rate = rw (e) at h in
      let below : val < 1000000 = omega (
        arith,
        get_elem?-length (samplerates d) val listed,
        length-map d.supported_samplerates (λ r. if is_iq d.sample_type then r else r * 2 % 2 ^ 32),
        small,
      ) in
      inl (below, by_index val below (samplerate_value-verdict d val), listed)
  | inr e ↦
      let same : some val ≡ some rate = rw (e) at h in
      let above : 1000000 < val = ground (arith, e) in
      inr (
        subst
          (λ r.
            ((1000000 < val)
              × (r ≡ val)
              × (get_elem? (samplerates d) (samplerate_value d val)
                  ≡ some (if is_iq d.sample_type then r else r * 2 % 2 ^ 32)))
            ⊎ ((1000000 < val)
                × (r ≡ val)
                × All (λ x. x ≢ val) d.supported_samplerates
                × (samplerate_value d val
                    ≡ (if is_iq d.sample_type then val * 2 % 2 ^ 32 else val) / 1000)))
          (some-injective same) (literal above (samplerate_value-verdict d val)))
]
  where
    by_index : (v : ℕ) → v < 1000000 → SamplerateVerdict d v → samplerate_value d v ≡ v
    by_index v b (inl p) = p.1
    by_index v b (inr (inl p)) = absurd (omega (arith, p.0))
    by_index v b (inr (inr p)) = absurd (omega (arith, p.0))

    literal :
        1000000 < val
        → SamplerateVerdict d val
        → ((1000000 < val)
            × (val ≡ val)
            × (get_elem? (samplerates d) (samplerate_value d val)
                ≡ some (if is_iq d.sample_type then val else val * 2 % 2 ^ 32)))
          ⊎ ((1000000 < val)
              × (val ≡ val)
              × All (λ x. x ≢ val) d.supported_samplerates
              × (samplerate_value d val
                  ≡ (if is_iq d.sample_type then val * 2 % 2 ^ 32 else val) / 1000))
    literal a (inl p) = absurd (omega (arith, p.0))
    literal a (inr (inl p)) =
        inl (a, refl, get_elem?-map _ d.supported_samplerates (samplerate_value d val) p.1)
    literal a (inr (inr p)) = inr (a, refl, p.1, p.2)
