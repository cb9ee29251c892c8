-- ===== src/Device/Board.antt =====
-- crates/libairspy/src/board.rs: the board's data.
pub mod Decoding
use libairspy_rs.Base.{
  ℕ, zero, suc, ◌-◌, ◌*◌, ◌==◌, List, [], ◌∷◌, length, take, drop, ltb, leb, if◌then◌else◌, get_or,
}
use libairspy_rs.Base.Bytes.{from_le}
use libairspy_rs.Commands.{Command}
use libairspy_rs.Error.{Error}
use libairspy_rs.Transport.{UsbTransport, Wire, ◌>>=◌, pure, fail}
use libairspy_rs.Device.{vendor_in, in_byte}

abbrev pub version_local_size : ℕ
version_local_size = 128

abbrev pub partid_serialno_words : ℕ
partid_serialno_words = 6

abbrev pub partid_serialno_len : ℕ
partid_serialno_len = partid_serialno_words * 4

pub record PartIdSerial : Type 0 where
  pub part_id : List ℕ
  pub serial_no : List ℕ

-- The loop over `words`: one word is peeled off while four bytes are left, else it stays 0.
unfoldable pub peel_words : ℕ → List ℕ → List ℕ
peel_words zero rest = []
peel_words (suc n) rest =
    if leb 4 (length rest)
    then from_le (take 4 rest) ∷ peel_words n (drop 4 rest)
    else 0 ∷ peel_words n rest

unfoldable pub from_le_bytes : List ℕ → PartIdSerial
from_le_bytes bytes =
    let words = peel_words partid_serialno_words bytes in
    record { part_id = take 2 words; serial_no = drop 2 words }

-- The bytes before the first NUL.
unfoldable pub before_nul : List ℕ → List ℕ
before_nul [] = []
before_nul (b ∷ bs) = let rest = before_nul bs in if b == 0 then [] else b ∷ rest

-- `String::from_utf8_lossy` is the standard library's.
unfoldable pub parse_version {ℓ} : {S : Type ℓ} → (List ℕ → S) → List ℕ → S
parse_version from_utf8_lossy bytes = from_utf8_lossy (before_nul bytes)

module _ (t : UsbTransport) where
  unfoldable pub board_id : Wire ℕ
  board_id = in_byte t Command.board_id_read 0

  unfoldable pub version_string : {S : Type 0} → (List ℕ → S) → Wire S
  version_string from_utf8_lossy =
      vendor_in t Command.version_string_read 0 0 (version_local_size - 1) >>= λ bytes.
      pure (parse_version from_utf8_lossy bytes)

  unfoldable pub partid_serialno : Wire PartIdSerial
  partid_serialno =
      vendor_in t Command.board_part_id_serial_no_read 0 0 partid_serialno_len >>= λ bytes.
      if ltb (length bytes) partid_serialno_len
      then fail (Error.transfer_length_mismatch partid_serialno_len (length bytes))
      else pure (from_le_bytes bytes)
