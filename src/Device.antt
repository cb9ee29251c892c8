-- ===== src/Device.antt =====
-- crates/libairspy/src/device.rs and transfer.rs: the device handle, and the vendor requests that every
-- feature of it is built on. The setters are in `Control`, registers and flash in `Peripherals`, the
-- board's data in `Board`, opening, starting and stopping in `Lifecycle`, serial numbers in `Serial`.
pub mod Requests
pub mod Control
pub mod Peripherals
pub mod Board
pub mod Lifecycle
pub mod Serial
use libairspy_rs.Base.{
  ℕ, ◌+◌, ◌-◌, ◌==◌, Bool, true, false, not, ◌&&◌, Option, none, some, List, [], ◌∷◌, ◌++◌, length,
  replicate, drop, ltb, if◌then◌else◌,
}
use libairspy_rs.Commands.{Command, SampleType}
use libairspy_rs.Error.{Error, Result, ok, err}
use libairspy_rs.Transport.{
  UsbTransport, Call, control_out, control_in, Wire, ◌>>=◌, ◌>>◌, pure, fail,
}

-- The flags of a stream's `StreamShared`, as the owning device sees them.
pub record StreamFlags : Type 0 where
  pub streaming : Bool
  pub stop_requested : Bool

unfoldable pub running : StreamFlags → Bool
running w = w.streaming && not w.stop_requested

-- `Device` less its transport, which is a parameter of the operations.
pub record Device : Type 0 where
  pub supported_samplerates : List ℕ
  pub workers : Option StreamFlags
  pub sample_type : SampleType
  pub packing_enabled : Bool

unfoldable pub is_streaming : Device → Bool
is_streaming d = elim d.workers [ some w ↦ running w | none ↦ false ]

abbrev pub no_wvalue : ℕ
no_wvalue = 0

abbrev pub no_windex : ℕ
no_windex = 0

abbrev pub bulk_endpoint : ℕ
bulk_endpoint = 0x81

-- A call that is recorded, and whose answer nobody reads.
abbrev pub perform : Call → Wire (Unit {0})
perform c bus = (ok tt, c ∷ bus)

unfoldable pub vendor_out : UsbTransport → Command → ℕ → ℕ → List ℕ → Wire ℕ
vendor_out t command value index payload bus = (
  t.write_control bus (control_out command value index payload),
  control_out command value index payload ∷ bus,
)

-- The bytes read, for a caller that asks for `len` bytes.
unfoldable pub vendor_in : UsbTransport → Command → ℕ → ℕ → ℕ → Wire (List ℕ)
vendor_in t command value index len bus = (
  t.read_control bus (control_in command value index len),
  control_in command value index len ∷ bus,
)

-- The caller's zeroed buffer of `len` bytes after a read.
abbrev pub read_into : ℕ → List ℕ → List ℕ
read_into len bytes = bytes ++ replicate (len - length bytes) 0

unfoldable pub out_setter : UsbTransport → Command → ℕ → ℕ → List ℕ → Wire (Unit {0})
out_setter t command value index payload = vendor_out t command value index payload >>= λ n.
    if n == length payload
    then pure tt
    else fail (Error.transfer_length_mismatch (length payload) n)

unfoldable pub in_setter : UsbTransport → Command → ℕ → Wire (Unit {0})
in_setter t command index = vendor_in t command no_wvalue index 1 >>= λ bytes.
    if ltb (length bytes) 1 then fail (Error.transfer_length_mismatch 1 (length bytes)) else pure tt

abbrev pub first_byte : List ℕ → ℕ
first_byte [] = 0
first_byte (b ∷ bs) = b

unfoldable pub in_byte : UsbTransport → Command → ℕ → Wire ℕ
in_byte t command index = vendor_in t command no_wvalue index 1 >>= λ bytes.
    if ltb (length bytes) 1
    then fail (Error.transfer_length_mismatch 1 (length bytes))
    else pure (first_byte (read_into 1 bytes))
