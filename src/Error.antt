-- ===== src/Error.antt =====
-- crates/libairspy/src/error.rs: the driver's errors with their C codes and names, and the results that
-- carry them. The payloads of the two USB variants are nusb's: a transfer error keeps the variants
-- that the reader tells apart (`unknown` carries the operating system's number), a device error its
-- number alone.
use Prim.Native.String.{String}
use libairspy_rs.Base.{ℕ}
use libairspy_rs.Base.Int.{ℤ, negsuc}

pub data TransferError : Type 0 where
  cancelled stall disconnected fault invalid_argument : TransferError
  unknown : ℕ → TransferError

pub data Error : Type 0 where
  invalid_param not_found busy no_mem unsupported : Error
  usb : ℕ → Error
  transfer : TransferError → Error
  transfer_length_mismatch : ℕ → ℕ → Error
  thread streaming_thread streaming_stopped other : Error

unfoldable pub code : Error → ℤ
code invalid_param = negsuc 1
code not_found = negsuc 4
code busy = negsuc 5
code no_mem = negsuc 10
code unsupported = negsuc 11
code (usb e) = negsuc 999
code (transfer e) = negsuc 999
code (transfer_length_mismatch expected actual) = negsuc 999
code thread = negsuc 1000
code streaming_thread = negsuc 1001
code streaming_stopped = negsuc 1002
code other = negsuc 9998

unfoldable pub name : Error → String
name invalid_param = "AIRSPY_ERROR_INVALID_PARAM"
name not_found = "AIRSPY_ERROR_NOT_FOUND"
name busy = "AIRSPY_ERROR_BUSY"
name no_mem = "AIRSPY_ERROR_NO_MEM"
name unsupported = "airspy unknown error"
name (usb e) = "AIRSPY_ERROR_LIBUSB"
name (transfer e) = "AIRSPY_ERROR_LIBUSB"
name (transfer_length_mismatch expected actual) = "AIRSPY_ERROR_LIBUSB"
name thread = "AIRSPY_ERROR_THREAD"
name streaming_thread = "AIRSPY_ERROR_STREAMING_THREAD_ERR"
name streaming_stopped = "AIRSPY_ERROR_STREAMING_STOPPED"
name other = "AIRSPY_ERROR_OTHER"

pub data Result {ℓ} (A : Type ℓ) : Type ℓ where
  ok : A → Result A
  err : Error → Result A
