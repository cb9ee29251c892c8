-- ===== src/Device/Control/Gains.antt =====
-- The composite gains of crates/libairspy/src/control.rs on the wire.
use libairspy_rs.Base.{ℕ, zero, suc, ◌-◌, ◌≤◌, min, ◌≡◌, List, [], ◌∷◌, get_or, All, arith}
use libairspy_rs.Commands.{Command}
use libairspy_rs.Transport.{UsbTransport, Call, control_in, Wire, ◌>>◌}
use libairspy_rs.Device.{in_setter}
use libairspy_rs.Device.Requests.{Tries, then-Tries, last-Tries, in_setter-Makes, in_setter-Answers}
use libairspy_rs.Device.Control.{
  set_composite_gain, set_linearity_gain, set_sensitivity_gain, set_lna_gain, set_mixer_gain,
  set_vga_gain, set_lna_agc, set_mixer_agc, linearity_vga_gains, linearity_mixer_gains,
  linearity_lna_gains, sensitivity_vga_gains, sensitivity_mixer_gains, sensitivity_lna_gains,
}

-- The requests of a gain step: both AGCs off, then the gains of the step, as they stand in the tables.
abbrev pub gain_requests : ℕ → List ℕ → List ℕ → List ℕ → List Call
gain_requests step vga mixer lna =
    control_in Command.set_mixer_agc 0 0 1
    ∷ control_in Command.set_lna_agc 0 0 1
    ∷ control_in Command.set_vga_gain 0 (get_or vga step 0) 1
    ∷ control_in Command.set_mixer_gain 0 (get_or mixer step 0) 1
    ∷ control_in Command.set_lna_gain 0 (get_or lna step 0) 1
    ∷ []

get_or-All :
    (bound : ℕ) (xs : List ℕ) (i : ℕ)
    → All (λ x. x ≤ bound) xs
    → min (get_or xs i 0) bound ≡ get_or xs i 0
get_or-All bound [] i h = omega arith
get_or-All bound (x ∷ xs) zero h = omega (arith, h.0)
get_or-All bound (x ∷ xs) (suc i) h = get_or-All bound xs i h.1

module _ (t : UsbTransport) where
  setter_then :
      (c : Command) (i : ℕ) (cs : List Call) (k : Wire (Unit {0}))
      → Tries t cs k
      → Tries t (control_in c 0 i 1 ∷ cs) (in_setter t c i >> k)
  setter_then c i cs k h =
      then-Tries t (control_in c 0 i 1) cs (in_setter t c i) k (in_setter-Makes t c i)
        (in_setter-Answers t c i) h

  composite-Tries :
      (value : ℕ) (vga mixer lna : List ℕ)
      → All (λ x. x ≤ 15) vga
      → All (λ x. x ≤ 15) mixer
      → All (λ x. x ≤ 14) lna
      → Tries t
          (gain_requests (21 - min value 21) vga mixer lna)
          (set_composite_gain t value vga mixer lna)
  unfolding set_composite_gain set_mixer_agc set_lna_agc set_vga_gain set_mixer_gain set_lna_gain
  composite-Tries value vga mixer lna hv hm hl =
      rw
        (
          get_or-All 15 vga (21 - min value 21) hv,
          get_or-All 15 mixer (21 - min value 21) hm,
          get_or-All 14 lna (21 - min value 21) hl,
        )
        (setter_then Command.set_mixer_agc 0 _ _ (
          setter_then Command.set_lna_agc 0 _ _ (
            setter_then Command.set_vga_gain (get_or vga (21 - min value 21) 0) _ _ (
              setter_then Command.set_mixer_gain (get_or mixer (21 - min value 21) 0) _ _ (
                last-Tries t _ (in_setter t Command.set_lna_gain (get_or lna (21 - min value 21) 0))
                  (in_setter-Makes t Command.set_lna_gain (get_or lna (21 - min value 21) 0))
                  (in_setter-Answers t Command.set_lna_gain (get_or lna (21 - min value 21) 0)))))))

  -- `set_linearity_gain` switches both AGCs off and then sends the three gains that the tables hold for
  -- the value, counted from the end and held at the last step: no gain is cut by the setters' clamps,
  -- and the first request that the transport refuses or answers short ends the sequence with its error,
  -- while `Ok` means that none did.
  pub set_linearity_gain-Tries :
      (value : ℕ)
      → Tries t
          (gain_requests
            (21 - min value 21)
            linearity_vga_gains
            linearity_mixer_gains
            linearity_lna_gains)
          (set_linearity_gain t value)
  unfolding set_linearity_gain
  set_linearity_gain-Tries value =
      composite-Tries value linearity_vga_gains linearity_mixer_gains linearity_lna_gains
        (ground arith) (ground arith) (ground arith)

  pub set_sensitivity_gain-Tries :
      (value : ℕ)
      → Tries t
          (gain_requests
            (21 - min value 21)
            sensitivity_vga_gains
            sensitivity_mixer_gains
            sensitivity_lna_gains)
          (set_sensitivity_gain t value)
  unfolding set_sensitivity_gain
  set_sensitivity_gain-Tries value =
      composite-Tries value sensitivity_vga_gains sensitivity_mixer_gains sensitivity_lna_gains
        (ground arith) (ground arith) (ground arith)
