-- ===== src/Transport.antt =====
-- crates/libairspy/src/transport.rs: the seam that every wire operation goes through. The USB stack
-- below it (nusb) is not part of the repository: a `UsbTransport` is a parameter, a function of the
-- operations that the driver has performed so far. The bulk reader above it is in `Reader`.
pub mod Reader
use libairspy_rs.Base.{ℕ, ◌≤◌, ◌≡◌, List, ◌∷◌, length}
use libairspy_rs.Base.Bytes.{AreBytes}
use libairspy_rs.Commands.{Command}
use libairspy_rs.Error.{Result, ok, err}

pub data Worker : Type 0 where
  reader consumer : Worker

-- One operation on the wire: a vendor request to or from the device (the byte string sent, or the
-- number of bytes asked for), a cleared halt of an endpoint, a released interface; and, for their place
-- among these, a worker thread started or joined.
pub data Call : Type 0 where
  control_out : Command → ℕ → ℕ → List ℕ → Call
  control_in : Command → ℕ → ℕ → ℕ → Call
  clear_halt : ℕ → Call
  release_interface : ℕ → Call
  spawn join : Worker → Call

-- The operations so far, the latest first.
abbrev pub Bus : Type 0
Bus = List Call

-- `write_control` answers with the number of bytes accepted, `read_control` with the bytes that it put
-- at the front of the caller's buffer.
pub record UsbTransport : Type 0 where
  pub write_control : Bus → Call → Result ℕ
  pub read_control : Bus → Call → Result (List ℕ)

-- A computation on the wire.
abbrev pub Wire {ℓ} : Type ℓ → Type ℓ
Wire A = Bus → Result A × Bus

infixl 5 ◌>>=◌ ◌>>◌
abbrev pub ◌>>=◌ {ℓ κ} : {A : Type ℓ} {B : Type κ} → Wire A → (A → Wire B) → Wire B
◌>>=◌ m f bus = elim (m bus).0 [ ok a ↦ f a (m bus).1 | err e ↦ (err e, (m bus).1) ]

abbrev pub ◌>>◌ {ℓ} : {B : Type ℓ} → Wire (Unit {0}) → Wire B → Wire B
m >> k = m >>= λ _. k

abbrev pub pure {ℓ} : {A : Type ℓ} → A → Wire A
pure a bus = (ok a, bus)

abbrev pub fail {ℓ} : {A : Type ℓ} → libairspy_rs.Error.Error → Wire A
fail e bus = (err e, bus)
