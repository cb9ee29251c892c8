-- ===== src/Device/Lifecycle/Opening.antt =====
-- Opening a device reads the firmware's rate table (crates/libairspy/src/device.rs).
use libairspy_rs.Base.{
  ℕ, ◌*◌, ◌-◌, ◌^◌, ◌≤◌, ◌<◌, ◌==◌, ◌≡◌, refl, sym, ap, ◌∙◌, subst, false, List, [], ◌∷◌, ◌++◌,
  length, ltb, arith, All, length-append, append_nil, replicate,
}
use libairspy_rs.Base.Bytes.{from_le, to_le, from_le-to_le, length-to_le}
use libairspy_rs.Commands.{Command}
use libairspy_rs.Error.{ok}
use libairspy_rs.Transport.{UsbTransport, Bus, control_in}
use libairspy_rs.Device.{vendor_in, read_into}
use libairspy_rs.Device.Lifecycle.{
  samplerates_from_le_bytes, read_samplerates_from_fw, rate_count, from_transport,
}

-- The firmware's table as bytes.
abbrev pub encoded : List ℕ → List ℕ
encoded [] = []
encoded (r ∷ rs) = to_le 4 r ++ encoded rs

-- A rate's four bytes are decoded alone.
decode_rate :
    (r : ℕ) (rest : List ℕ)
    → samplerates_from_le_bytes (to_le 4 r ++ rest)
      ≡ from_le (to_le 4 r) ∷ samplerates_from_le_bytes rest
unfolding samplerates_from_le_bytes to_le
decode_rate r rest = refl

-- Any bytes after the last whole word are dropped.
pub samplerates_from_le_bytes-encoded :
    (rates : List ℕ)
    → All (λ r. r < 2 ^ 32) rates
    → samplerates_from_le_bytes (encoded rates) ≡ rates
unfolding samplerates_from_le_bytes to_le
samplerates_from_le_bytes-encoded [] h = refl
samplerates_from_le_bytes-encoded (r ∷ rs) h =
    decode_rate r (encoded rs)
    ∙ (ap (λ x. x ∷ samplerates_from_le_bytes (encoded rs)) (from_le-to_le 4 r ∙ omega (arith, h.0))
        ∙ ap (◌∷◌ r) (samplerates_from_le_bytes-encoded rs h.1))

length-encoded : (rates : List ℕ) → length (encoded rates) ≡ length rates * 4
length-encoded [] = refl
length-encoded (r ∷ rs) =
    omega (arith, length-append (to_le 4 r) (encoded rs), length-to_le 4 r, length-encoded rs)

-- A firmware that answers the two queries with the number of its rates and with the rates themselves, at
-- this point of the wire's history.
pub record Reports (t : UsbTransport) (bus : Bus) (rates : List ℕ) : Type 0 where
  pub number :
      t.read_control bus (control_in Command.get_samplerates 0 0 4) ≡ ok (to_le 4 (length rates))
  pub table :
      t.read_control
        (control_in Command.get_samplerates 0 0 4 ∷ bus)
        (control_in Command.get_samplerates 0 (length rates) (length rates * 4))
      ≡ ok (encoded rates)

read_into_full : (len : ℕ) (bytes : List ℕ) → length bytes ≡ len → read_into len bytes ≡ bytes
read_into_full len bytes h =
    ap (λ k. bytes ++ replicate k 0) {x = len - length bytes} {y = 0} (omega (arith, h))
    ∙ append_nil bytes

rate_count-length :
    (rates : List ℕ) → length rates ≤ 16383 → rate_count (to_le 4 (length rates)) ≡ length rates
unfolding rate_count
rate_count-length rates h = omega (
  arith,
  h,
  ap from_le (read_into_full 4 (to_le 4 (length rates)) (length-to_le 4 (length rates))),
  from_le-to_le 4 (length rates),
)

read_two :
    (t : UsbTransport) (bus : Bus) (bytes table : List ℕ)
    → t.read_control bus (control_in Command.get_samplerates 0 0 4) ≡ ok bytes
    → ltb (length bytes) 1 ≡ false
    → (rate_count bytes == 0) ≡ false
    → t.read_control
        (control_in Command.get_samplerates 0 0 4 ∷ bus)
        (control_in Command.get_samplerates 0 (rate_count bytes) (rate_count bytes * 4))
      ≡ ok table
    → ltb (length table) 1 ≡ false
    → (read_samplerates_from_fw t bus).0 ≡ ok (samplerates_from_le_bytes table)
unfolding read_samplerates_from_fw vendor_in
read_two t bus bytes table number h0 h1 answer h2 = rw (number, h0, h1, answer, h2) refl

-- A device opened over a firmware that reports between 1 and 16383 rates of 32 bits supports exactly
-- those rates, in their order.
pub from_transport-Reports :
    (t : UsbTransport) (bus : Bus) (rates : List ℕ)
    → Reports t bus rates
    → 1 ≤ length rates
    → length rates ≤ 16383
    → All (λ r. r < 2 ^ 32) rates
    → (from_transport t bus).0.supported_samplerates ≡ rates
unfolding from_transport read_samplerates_from_fw vendor_in
from_transport-Reports t bus rates h some_rates few sized =
    rw
      (read_two t bus (to_le 4 (length rates)) (encoded rates) h.number
        (ground (arith, length-to_le 4 (length rates))) (ground (arith, counted, some_rates))
        (subst
          (λ n.
            t.read_control (control_in Command.get_samplerates 0 0 4 ∷ bus)
              (control_in Command.get_samplerates 0 n (n * 4))
            ≡ ok (encoded rates))
          (sym counted) h.table)
        (ground (arith, length-encoded rates, some_rates)))
      (samplerates_from_le_bytes-encoded rates sized)
  where
    counted : rate_count (to_le 4 (length rates)) ≡ length rates
    counted = rate_count-length rates few
