-- ===== src/Tools/Receive/Capture/Finishing.antt =====
-- The last write of a capture: the header over the placeholder (crates/airspy-tools/src/bin/airspy_rx.rs).
use libairspy_rs.Base.{
  ℕ, ◌+◌, ◌≤◌, ◌<◌, ◌^◌, ◌≡◌, refl, sym, subst, ap, ◌∙◌, Bool, true, false, not, ◌&&◌, Option, none,
  some, List, [], ◌++◌, length, drop, min, if◌then◌else◌, arith, length-append, length-take,
  drop-append_length, lt→ltb,
}
use libairspy_rs.Base.Bytes.{from_le}
use libairspy_rs.Tools.Wav.{wav_header_placeholder, wav_header_finalized}
use libairspy_rs.Tools.Wav.Header.{
  field, wav_header_finalized-sizes, length-wav_header_finalized, length-wav_header_placeholder,
}
use libairspy_rs.Tools.Receive.Config.{Config}
use libairspy_rs.Tools.Receive.Capture.{
  in_full, limit, capped, initial_remaining, Storage, rewrite_wav_header, finish_file,
}
use libairspy_rs.Tools.Receive.Capture.Budget.{within}

-- The file system does all that it is asked for outside the stream.
pub record Reliable (st : Storage) : Type 0 where
  pub placed : st.placeholder ≡ in_full
  pub flushed : st.flush ≡ in_full
  pub opened : st.reopens ≡ true
  pub rewritten : st.rewrite ≡ in_full

-- The header in front of n bytes of samples.
abbrev pub header_of : Config → ℕ → ℕ → List ℕ
header_of c rate n = if c.receive_wav then wav_header_finalized (n + 44) c.wav_params rate else []

length-within : (b : Option ℕ) (xs : List ℕ) → length (within (capped b) xs) ≤ 4294967251
length-within none xs = omega (arith, length-take 4294967251 xs)
length-within (some b) xs = omega (arith, length-take (min b 4294967251) xs)

pub asked-small :
    (c : Config) (xs : List ℕ)
    → c.receive_wav ≡ true
    → length (within (initial_remaining c) xs) ≤ 4294967251
unfolding initial_remaining
asked-small c xs wav =
    subst (λ (b : Bool). length (within (if b then capped (limit c) else limit c) xs) ≤ 4294967251)
      (sym wav) (length-within (limit c) xs)

-- A complete file gets its header in place of the placeholder.
rewrite-header :
    (c : Config) (rate : ℕ) (st : Storage) (samples : List ℕ)
    → Reliable st
    → length samples + 44 < 2 ^ 32
    → rewrite_wav_header c rate st (wav_header_placeholder ++ samples)
      ≡ (true, wav_header_finalized (length samples + 44) c.wav_params rate ++ samples)
unfolding rewrite_wav_header
rewrite-header c rate st samples r h =
    rw (r.opened, size, lt→ltb (length samples + 44) (2 ^ 32) h, r.rewritten)
      (ap
        (λ (k : List ℕ). (true, wav_header_finalized (length samples + 44) c.wav_params rate ++ k))
        behind)
  where
    size : length (wav_header_placeholder ++ samples) ≡ length samples + 44
    size =
        omega
          (arith, length-append {0} wav_header_placeholder samples, length-wav_header_placeholder)

    behind :
        drop
          (length (wav_header_finalized (length samples + 44) c.wav_params rate))
          (wav_header_placeholder ++ samples)
        ≡ samples
    behind =
        ap (λ n. drop n (wav_header_placeholder ++ samples))
          (length-wav_header_finalized (length samples + 44) c.wav_params rate
            ∙ sym length-wav_header_placeholder)
        ∙ drop-append_length wav_header_placeholder samples

pub file-sizes :
    (c : Config) (rate : ℕ) (samples : List ℕ)
    → c.receive_wav ≡ true
    → length samples + 44 < 2 ^ 32
    → (from_le (field 40 4 (header_of c rate (length samples) ++ samples)) ≡ length samples)
      × (from_le (field 4 4 (header_of c rate (length samples) ++ samples)) + 8
          ≡ length (header_of c rate (length samples) ++ samples))
file-sizes c rate samples wav h =
    subst
      (λ (b : Bool).
        let head = if b then wav_header_finalized (length samples + 44) c.wav_params rate else [] in
        (from_le (field 40 4 (head ++ samples)) ≡ length samples)
        × (from_le (field 4 4 (head ++ samples)) + 8 ≡ length (head ++ samples)))
      (sym wav)
      (
        sizes.0,
        omega (
          arith,
          sizes.1,
          length-append {0} (wav_header_finalized (length samples + 44) c.wav_params rate) samples,
          length-wav_header_finalized (length samples + 44) c.wav_params rate,
        ),
      )
  where
    sizes :
        (from_le
            (field 40 4 (wav_header_finalized (length samples + 44) c.wav_params rate ++ samples))
          ≡ length samples)
        × (from_le
              (field 4 4 (wav_header_finalized (length samples + 44) c.wav_params rate ++ samples))
            ≡ length samples + 36)
    sizes = wav_header_finalized-sizes (length samples) c.wav_params rate samples h

abbrev pub placeholder_of : Config → List ℕ
placeholder_of c = if c.receive_wav then wav_header_placeholder else []

pub small-samples :
    (b : Bool) (asked samples rest : List ℕ)
    → (b ≡ true → length asked ≤ 4294967251)
    → samples ++ rest ≡ asked
    → b ≡ true
    → length samples + 44 < 2 ^ 32
small-samples b asked samples rest small front e =
    omega (arith, ap (λ (x : List ℕ). length x) front, length-append {0} samples rest, small e)

and_true : (b : Bool) → (b && true) ≡ b
and_true true = refl
and_true false = refl

pub finish-value :
    (c : Config) (rate : ℕ) (st : Storage) (failed : Bool) (samples : List ℕ)
    → Reliable st
    → (c.receive_wav ≡ true → length samples + 44 < 2 ^ 32)
    → finish_file c rate st (not failed && true) (placeholder_of c ++ samples)
      ≡ (not failed, header_of c rate (length samples) ++ samples)
finish-value c rate st failed samples r small = go c.receive_wav small
  where
    over : Bool → List ℕ
    over wav = if wav then wav_header_placeholder else []

    head : Bool → List ℕ
    head wav = if wav then wav_header_finalized (length samples + 44) c.wav_params rate else []

    done : Bool → Bool × List ℕ
    done wav =
        if wav
        then (let rewritten = rewrite_wav_header c rate st (over wav ++ samples) in
            ((not failed && true) && rewritten.0, rewritten.1))
        else (not failed && true, over wav ++ samples)

    go :
        (wav : Bool)
        → (wav ≡ true → length samples + 44 < 2 ^ 32)
        → done wav ≡ (not failed, head wav ++ samples)
    go true h =
        ap (λ (x : Bool × List ℕ). ((not failed && true) && x.0, x.1))
          (rewrite-header c rate st samples r (h refl))
        ∙ ap
            (λ (b : Bool).
              (b, wav_header_finalized (length samples + 44) c.wav_params rate ++ samples))
            (and_true (not failed && true) ∙ and_true (not failed))
    go false h = ap (λ (b : Bool). (b, samples)) (and_true (not failed))
