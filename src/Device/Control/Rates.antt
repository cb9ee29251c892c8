-- ===== src/Device/Control/Rates.antt =====
-- `set_samplerate` of crates/libairspy/src/control.rs: which number goes to the firmware.
use libairspy_rs.Base.{
  ℕ, suc, ◌*◌, ◌/◌, ◌%◌, ◌^◌, ◌≤◌, ◌<◌, ◌==◌, ◌≡◌, ◌≢◌, refl, true, false, Option, some, none, List,
  [], ◌∷◌, length, get_elem?, All, leb, if◌then◌else◌, arith, Bool-cases, inl, inr, ◌⊎◌,
}
use libairspy_rs.Commands.{Command}
use libairspy_rs.Transport.{UsbTransport, Call, control_in, clear_halt, ◌>>◌, pure}
use libairspy_rs.Device.{
  Device, StreamFlags, running, is_streaming, in_setter, bulk_endpoint, perform,
}
use libairspy_rs.Device.Requests.{Tries, then-Tries, last-Tries, in_setter-Makes, in_setter-Answers}
use libairspy_rs.Device.Control.{
  position, by_position, samplerate_value, set_samplerate, is_iq, min_samplerate_by_value,
}

-- What a search answers: a position at which the rate stands, or that it stands nowhere.
abbrev pub FoundAt : ℕ → List ℕ → Option ℕ → Type 0
FoundAt v xs (some i) = (get_elem? xs i ≡ some v) × (i < length xs)
FoundAt v xs none = All (λ x. x ≢ v) xs

position-FoundAt : (v : ℕ) (xs : List ℕ) → FoundAt v xs (position v xs)
unfolding position
position-FoundAt v [] = tt
position-FoundAt v (x ∷ xs) =
    let later = position-FoundAt v xs in
    elim (Bool-cases (x == v)) [
      | inl e ↦ rw (e) (ground (arith, e), omega arith)
      | inr e ↦ rw (e) (go (position v xs) later e)
    ]
  where
    go :
        (o : Option ℕ)
        → FoundAt v xs o
        → (x == v) ≡ false
        → FoundAt v (x ∷ xs) (elim o [ some i ↦ some (suc i) | none ↦ none ])
    go (some i) h e = (h.0, omega (arith, h.1))
    go none h e = (ground (arith, e), h)

-- The number that is sent, by the argument: a small number is a table index and stays; a rate of the
-- table becomes its index there; any other rate is sent in kHz, doubled for the IQ types.
abbrev pub SamplerateVerdict : Device → ℕ → Type 0
SamplerateVerdict d rate =
    ((rate < 1000000) × (samplerate_value d rate ≡ rate))
    ⊎ ((1000000 ≤ rate)
        × (get_elem? d.supported_samplerates (samplerate_value d rate) ≡ some rate)
        × (samplerate_value d rate < length d.supported_samplerates))
    ⊎ ((1000000 ≤ rate)
        × All (λ x. x ≢ rate) d.supported_samplerates
        × (samplerate_value d rate
            ≡ (if is_iq d.sample_type then rate * 2 % 2 ^ 32 else rate) / 1000))

-- `set_samplerate` reads an argument below 1 MHz as a table index. From there on it sends an index at
-- which the firmware's undoubled table holds the rate, if there is one, and for a rate that stands nowhere
-- in that table the kHz, doubled for IQ types.
pub samplerate_value-verdict : (d : Device) (rate : ℕ) → SamplerateVerdict d rate
unfolding samplerate_value
samplerate_value-verdict d rate = elim (Bool-cases (leb min_samplerate_by_value rate)) [
  | inl e ↦ inr (
      rw (e) (
        go (position rate d.supported_samplerates) (position-FoundAt rate d.supported_samplerates)
          (ground (arith, e))))
  | inr e ↦ inl (ground (arith, e), rw (e) refl)
]
  where
    go :
        (o : Option ℕ)
        → FoundAt rate d.supported_samplerates o
        → 1000000 ≤ rate
        → ((1000000 ≤ rate)
            × (get_elem? d.supported_samplerates (by_position d rate o) ≡ some rate)
            × (by_position d rate o < length d.supported_samplerates))
          ⊎ ((1000000 ≤ rate)
              × All (λ x. x ≢ rate) d.supported_samplerates
              × (by_position d rate o
                  ≡ (if is_iq d.sample_type then rate * 2 % 2 ^ 32 else rate) / 1000))
    go (some i) h e = inl (e, h.0, h.1)
    go none h e = inr (e, h, refl)

-- What `set_samplerate` sends for an argument: the low 16 bits of a number as the verdict says.
abbrev pub rate_request : Device → ℕ → Call
rate_request d rate = control_in Command.set_samplerate 0 (samplerate_value d rate % 2 ^ 16) 1

-- The calls of `set_samplerate`, by whether transfers are in flight, up to the first that fails.
pub record SetsRate (t : UsbTransport) (d : Device) (rate : ℕ) : Type 0 where
  pub verdict : SamplerateVerdict d rate
  pub in_flight :
      (w : StreamFlags)
      → d.workers ≡ some w
      → running w ≡ true
      → Tries t (rate_request d rate ∷ []) (set_samplerate t d rate)
  pub ended :
      (w : StreamFlags)
      → d.workers ≡ some w
      → running w ≡ false
      → Tries t (clear_halt 0x81 ∷ rate_request d rate ∷ []) (set_samplerate t d rate)
  pub at_rest :
      d.workers ≡ none
      → Tries t (clear_halt 0x81 ∷ rate_request d rate ∷ []) (set_samplerate t d rate)

module _ (t : UsbTransport) (d : Device) (rate : ℕ) where
  with_clear :
      is_streaming d ≡ false
      → Tries t (clear_halt 0x81 ∷ rate_request d rate ∷ []) (set_samplerate t d rate)
  unfolding set_samplerate
  with_clear e = rw (e) (
      then-Tries t (clear_halt bulk_endpoint) _ (perform (clear_halt bulk_endpoint))
        (in_setter t Command.set_samplerate (samplerate_value d rate % 2 ^ 16)) (λ b. refl)
        (λ b. refl)
        (last-Tries t _ (in_setter t Command.set_samplerate (samplerate_value d rate % 2 ^ 16))
          (in_setter-Makes t Command.set_samplerate (samplerate_value d rate % 2 ^ 16))
          (in_setter-Answers t Command.set_samplerate (samplerate_value d rate % 2 ^ 16))))

  -- With live workers `set_samplerate` makes the request alone, for the endpoint in use is not cleared; on a
  -- device without workers, or with those of an ended stream, it clears the endpoint's halt first, and makes
  -- the request whatever comes of that. The request carries the low 16 bits of an index of the firmware's
  -- table, or of a number of kHz, as the argument asks, and the answer is `Ok` exactly if the device takes it,
  -- else its error.
  pub set_samplerate-SetsRate : SetsRate t d rate
  unfolding set_samplerate is_streaming
  set_samplerate-SetsRate = record {
    verdict = samplerate_value-verdict d rate;
    in_flight = λ w e r. rw ((let s : is_streaming d ≡ true = rw (e) r in s)) (
        last-Tries t (rate_request d rate)
          (pure tt >> in_setter t Command.set_samplerate (samplerate_value d rate % 2 ^ 16))
          (in_setter-Makes t Command.set_samplerate (samplerate_value d rate % 2 ^ 16))
          (in_setter-Answers t Command.set_samplerate (samplerate_value d rate % 2 ^ 16)));
    ended = λ w e r. with_clear (rw (e) r);
    at_rest = λ e. with_clear (rw (e) refl);
  }
