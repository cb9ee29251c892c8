-- ===== src/Device/Control/Tuning.antt =====
-- `set_freq` of crates/libairspy/src/control.rs.
use libairspy_rs.Base.{
  ℕ, ◌^◌, ◌<◌, ◌==◌, ◌≡◌, refl, ◌∙◌, Bool-cases, inl, inr, List, ◌∷◌, length, if◌then◌else◌, arith,
}
use libairspy_rs.Base.Bytes.{to_le, from_le, from_le-to_le, length-to_le}
use libairspy_rs.Commands.{Command}
use libairspy_rs.Error.{Error, Result, ok, err}
use libairspy_rs.Transport.{UsbTransport, Bus, control_out}
use libairspy_rs.Device.{out_setter, vendor_out}
use libairspy_rs.Device.Requests.{out_setter-Makes, Result-cases}
use libairspy_rs.Device.Control.{set_freq}

-- What a payload of four bytes is answered with, by the number that the transport says it took.
abbrev pub judged : Result ℕ → Result (Unit {0})
judged (ok n) = if n == 4 then ok tt else err (Error.transfer_length_mismatch 4 n)
judged (err e) = err e

-- One request on the wire, with four bytes that are the frequency, and an answer that follows the
-- transport's.
pub record Tunes (t : UsbTransport) (freq : ℕ) (bus : Bus) : Type 0 where
  pub payload : List ℕ
  pub four_bytes : length payload ≡ 4
  pub frequency : from_le payload ≡ freq
  pub on_wire : (set_freq t freq bus).1 ≡ control_out Command.set_freq 0 0 payload ∷ bus
  pub answer :
      (set_freq t freq bus).0
      ≡ judged (t.write_control bus (control_out Command.set_freq 0 0 payload))

setter-judged :
    (t : UsbTransport) (freq : ℕ) (bus : Bus)
    → (out_setter t Command.set_freq 0 0 (to_le 4 freq) bus).0
      ≡ judged (t.write_control bus (control_out Command.set_freq 0 0 (to_le 4 freq)))
unfolding out_setter vendor_out to_le
setter-judged t freq bus =
    elim (Result-cases (t.write_control bus (control_out Command.set_freq 0 0 (to_le 4 freq)))) [
      | inl p ↦
          rw (p.1) (elim (Bool-cases (p.0 == 4)) [ inl h ↦ rw (h) refl | inr h ↦ rw (h) refl ])
      | inr p ↦ rw (p.1) refl
    ]

-- `set_freq` sends one request whose four bytes give a 32-bit frequency back, and succeeds exactly when
-- the transport took all four; another number is a length mismatch and a transport error is passed on.
pub set_freq-Tunes : (t : UsbTransport) (freq : ℕ) (bus : Bus) → freq < 2 ^ 32 → Tunes t freq bus
unfolding set_freq
set_freq-Tunes t freq bus h = record {
  payload = to_le 4 freq;
  four_bytes = length-to_le 4 freq;
  frequency = from_le-to_le 4 freq ∙ omega (arith, h);
  on_wire = out_setter-Makes t Command.set_freq 0 0 (to_le 4 freq) bus;
  answer = setter-judged t freq bus;
}
