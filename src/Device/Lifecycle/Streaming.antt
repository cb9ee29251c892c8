-- ===== src/Device/Lifecycle/Streaming.antt =====
-- Stopping a stream (crates/libairspy/src/stream.rs, `impl Device`), and what its mode requests put on the wire.
use libairspy_rs.Base.{
  ℕ, ◌==◌, ◌≡◌, refl, ap, ◌∙◌, false, Bool-cases, inl, inr, Option, some, none, [], ◌∷◌,
}
use libairspy_rs.Commands.{Command, ReceiverMode, mode_value, off}
use libairspy_rs.Transport.{UsbTransport, Bus, Call, control_out}
use libairspy_rs.Device.{Device, StreamFlags, is_streaming, vendor_out}
use libairspy_rs.Device.Requests.{Makes, Answers, Result-cases}
use libairspy_rs.Device.Lifecycle.{set_receiver_mode, stop_rx, drop_device, joined}

pub set_receiver_mode-Makes :
    (t : UsbTransport) (mode : ReceiverMode)
    → Makes (control_out Command.receiver_mode (mode_value mode) 0 []) (set_receiver_mode t mode)
unfolding set_receiver_mode vendor_out
set_receiver_mode-Makes t mode bus =
    elim (Result-cases
      (t.write_control bus (control_out Command.receiver_mode (mode_value mode) 0 []))) [
        | inl p ↦
            rw (p.1) (elim (Bool-cases (p.0 == 0)) [ inl h ↦ rw (h) refl | inr h ↦ rw (h) refl ])
        | inr p ↦ rw (p.1) refl
      ]

pub set_receiver_mode-Answers :
    (t : UsbTransport) (mode : ReceiverMode)
    → Answers t
        (control_out Command.receiver_mode (mode_value mode) 0 [])
        (set_receiver_mode t mode)
unfolding set_receiver_mode vendor_out
set_receiver_mode-Answers t mode bus =
    elim (Result-cases
      (t.write_control bus (control_out Command.receiver_mode (mode_value mode) 0 []))) [
        | inl p ↦
            rw (p.1) (elim (Bool-cases (p.0 == 0)) [ inl h ↦ rw (h) refl | inr h ↦ rw (h) refl ])
        | inr p ↦ rw (p.1) refl
      ]

-- The value of the last receiver-mode request.
abbrev pub last_mode : Bus → Option ℕ
last_mode [] = none
last_mode (control_out Command.receiver_mode v i p ∷ rest) = some v
last_mode (_ ∷ rest) = last_mode rest

abbrev pub mode_call : ReceiverMode → Call
mode_call mode = control_out Command.receiver_mode (mode_value mode) 0 []

last_mode-joined : (o : Option StreamFlags) (b : Bus) → last_mode (joined o b) ≡ last_mode b
last_mode-joined none b = refl
last_mode-joined (some w) b = refl

-- How a device is left without a stream: no workers, and the receiver's last mode request OFF, after
-- `stop_rx` and, behind the release of the interface, after the device is dropped.
pub record Stopped (t : UsbTransport) (d : Device) (bus : Bus) : Type 0 where
  pub no_workers : (stop_rx t d bus).0.1.workers ≡ none
  pub not_live : is_streaming (stop_rx t d bus).0.1 ≡ false
  pub receiver_off : last_mode (stop_rx t d bus).1 ≡ some 0
  pub dropped_off : last_mode (drop_device t d bus) ≡ some 0

-- After `stop_rx`, whatever it answers and whatever the device did before, the device has no workers and
-- does not stream, and the last receiver-mode request was OFF; dropping the device leaves the receiver
-- so too.
pub stop_rx-Stopped : (t : UsbTransport) (d : Device) (bus : Bus) → Stopped t d bus
unfolding stop_rx drop_device mode_value is_streaming
stop_rx-Stopped t d bus = record {
  no_workers = refl;
  not_live = refl;
  receiver_off = mode_off;
  dropped_off = mode_off;
}
  where
    mode_off : last_mode (joined d.workers (set_receiver_mode t off bus).1) ≡ some 0
    mode_off =
        last_mode-joined d.workers (set_receiver_mode t off bus).1
        ∙ ap last_mode (set_receiver_mode-Makes t off bus)
