-- ===== src/Device/Lifecycle/Freezing.antt =====
-- The configuration of a device between the start and the stop of a stream (crates/libairspy/src/stream.rs,
-- control.rs and device.rs).
use libairspy_rs.Base.{◌≡◌, Bool}
use libairspy_rs.Commands.{Command, SampleType}
use libairspy_rs.Error.{Error, ok, err}
use libairspy_rs.Transport.{UsbTransport, Bus, Worker, control_in}
use libairspy_rs.Device.{Device}
use libairspy_rs.Device.Requests.{answer}
use libairspy_rs.Device.Control.{set_packing, flag}
use libairspy_rs.Device.Lifecycle.{set_sample_type, start_rx, stop_rx}

-- What is refused while a stream runs, with `Busy`, nothing sent and nothing changed.
pub record RefusesBusy (t : UsbTransport) (spawns : Bus → Worker → Bool) (d : Device) (bus : Bus)
    : Type 0 where
  pub start : start_rx t spawns d bus ≡ ((err Error.busy, d), bus)
  pub packing : (enabled : Bool) → set_packing t d enabled bus ≡ ((err Error.busy, d), bus)
  pub sample_type : (s : SampleType) → set_sample_type d s ≡ (err Error.busy, d)

-- What a successful start leaves: the configuration as it was, and frozen until `stop_rx`, after which the
-- setters work again.
pub record Freezes (t : UsbTransport) (spawns : Bus → Worker → Bool) (d d' : Device) (bus : Bus)
    : Type 0 where
  pub latched : (d'.sample_type ≡ d.sample_type) × (d'.packing_enabled ≡ d.packing_enabled)
  pub busy : RefusesBusy t spawns d' bus
  pub thawed :
      (s : SampleType)
      → set_sample_type (stop_rx t d' bus).0.1 s
        ≡ (ok tt, record (stop_rx t d' bus).0.1 { sample_type = s })
  pub packs :
      (enabled : Bool)
      → (set_packing t (stop_rx t d' bus).0.1 enabled (stop_rx t d' bus).1).0.0
        ≡ answer t (stop_rx t d' bus).1 (control_in Command.set_packing 0 (flag enabled) 1)

abbrev SameConfig : Device → Device → Type 0
SameConfig d d' = (d'.sample_type ≡ d.sample_type) × (d'.packing_enabled ≡ d.packing_enabled)
