-- ===== src/Tools/Receive/Capture/Playable.antt =====
-- The finished file of a capture (crates/airspy-tools/src/bin/airspy_rx.rs): its header describes its samples.
use libairspy_rs.Base.{
  ℕ, ◌+◌, ◌≤◌, ◌≡◌, refl, sym, subst, ap, ◌∙◌, Bool, true, false, not, ◌&&◌, List, [], ◌++◌, length,
  All, Bool-cases, inl, inr,
}
use libairspy_rs.Base.Bytes.{from_le}
use libairspy_rs.Tools.Wav.Header.{field}
use libairspy_rs.Tools.Receive.{RateOps}
use libairspy_rs.Tools.Receive.Config.{Config}
use libairspy_rs.Tools.Receive.Capture.{
  in_full, is_ok, taken, RxShared, Delivery, deliver, initial_remaining, Storage, finish_file,
  finish_writer, finalize_output, Streamed, not_started, not_tuned, streamed, deliveries,
  is_started_and_tuned, fresh, abort_stream, stream_and_finish, run_capture,
}
use libairspy_rs.Tools.Receive.Capture.Budget.{within}
use libairspy_rs.Tools.Receive.Capture.Written.{stream_bytes, Wrote, deliver-Wrote, deliver-in_full}
use libairspy_rs.Tools.Receive.Capture.Finishing.{
  Reliable, header_of, asked-small, file-sizes, placeholder_of, small-samples, finish-value,
}

-- The finished file of a capture whose budget let the bytes `asked` through.
pub record Captured (c : Config) (rate : ℕ) (asked : List ℕ) (result : Bool × List ℕ) : Type 0 where
  pub samples : List ℕ
  pub rest : List ℕ
  pub file : result.1 ≡ header_of c rate (length samples) ++ samples
  pub front : samples ++ rest ≡ asked
  pub complete : result.0 ≡ true → rest ≡ []
  pub sizes :
      c.receive_wav ≡ true
      → (from_le (field 40 4 result.1) ≡ length samples)
        × (from_le (field 4 4 result.1) + 8 ≡ length result.1)

module _ {F D : Type 0} (o : RateOps F D) (f32_bytes : F → List ℕ) where
  -- What the end of a stream makes of the file.
  finalize-value :
      (c : Config) (rate : ℕ) (st : Storage) (s : RxShared F D) (asked : List ℕ)
      → Reliable st
      → (w : Wrote (placeholder_of c) asked s) → (c.receive_wav ≡ true → length asked ≤ 4294967251)
      → finalize_output c rate st s
        ≡ (not s.write_failed, header_of c rate (length w.output) ++ w.output)
  unfolding finalize_output
  finalize-value c rate st s asked r w small =
      ap (finish_writer c rate st s.write_failed) w.writer
      ∙ (ap
            (λ a.
              finish_file c rate st (not s.write_failed && is_ok a)
                (taken a (placeholder_of c ++ w.output)))
            r.flushed
          ∙ finish-value c rate st s.write_failed w.output r
              (small-samples c.receive_wav asked w.output w.rest small w.front))

  not-true : (b : Bool) → not b ≡ true → b ≡ false
  not-true true h = cc
  not-true false h = refl

  finalize-Captured :
      (c : Config) (rate : ℕ) (st : Storage) (s : RxShared F D) (asked : List ℕ)
      → Reliable st
      → Wrote (placeholder_of c) asked s
      → (c.receive_wav ≡ true → length asked ≤ 4294967251)
      → Captured c rate asked (finalize_output c rate st s)
  finalize-Captured c rate st s asked r w small =
      subst (Captured c rate asked) (sym (finalize-value c rate st s asked r w small)) (record {
        samples = w.output;
        rest = w.rest;
        file = refl;
        front = w.front;
        complete = λ h. w.all (not-true s.write_failed h);
        sizes = λ wav.
            file-sizes c rate w.output wav
              (small-samples c.receive_wav asked w.output w.rest small w.front wav);
      })

  -- A finished file that an abort reports as a failure.
  abort-Captured :
      (c : Config) (rate : ℕ) (asked : List ℕ) {result : Bool × List ℕ}
      → Captured c rate asked result
      → Captured c rate asked (false, result.1)
  abort-Captured c rate asked w = record {
    samples = w.samples;
    rest = w.rest;
    file = w.file;
    front = w.front;
    complete = λ h. absurd (let e : false ≡ true = h in cc);
    sizes = w.sizes;
  }

  -- What a stream from a fresh state leaves, however it goes.
  unfoldable Ends :
      (c : Config) (rate : ℕ) (stream : Streamed F D) (result : Bool × List ℕ) → Type 0
  Ends c rate stream result =
      Captured c rate (within (initial_remaining c) (stream_bytes o f32_bytes (deliveries stream)))
        result
      × (result.0 ≡ true → is_started_and_tuned stream ≡ true)
      × (All (λ d. d.answer ≡ in_full) (deliveries stream) → result.0 ≡ is_started_and_tuned stream)

  module _ (c : Config) (rate : ℕ) (nominal_rate : F) (st : Storage) where
    abbrev start : RxShared F D
    start = fresh o f32_bytes c nominal_rate (placeholder_of c)

    abbrev last : List (Delivery F D) → RxShared F D
    last ds = deliver o f32_bytes c.sample_type c.packing ds start

    abbrev asked_of : List (Delivery F D) → List ℕ
    asked_of ds = within (initial_remaining c) (stream_bytes o f32_bytes ds)

    last-Wrote : (ds : List (Delivery F D)) → Wrote (placeholder_of c) (asked_of ds) (last ds)
    last-Wrote ds =
        deliver-Wrote o f32_bytes c.sample_type c.packing ds start (placeholder_of c) refl refl

    last-Captured :
        (ds : List (Delivery F D))
        → Reliable st
        → Captured c rate (asked_of ds) (finalize_output c rate st (last ds))
    last-Captured ds r =
        finalize-Captured c rate st (last ds) (asked_of ds) r (last-Wrote ds)
          (asked-small c (stream_bytes o f32_bytes ds))

    last-true :
        (ds : List (Delivery F D))
        → Reliable st
        → All (λ d. d.answer ≡ in_full) ds
        → (finalize_output c rate st (last ds)).0 ≡ true
    last-true ds r all =
        ap (λ (x : Bool × List ℕ). x.0)
          (finalize-value c rate st (last ds) (asked_of ds) r (last-Wrote ds)
            (asked-small c (stream_bytes o f32_bytes ds)))
        ∙ ap not (deliver-in_full o f32_bytes c.sample_type c.packing ds start all refl)

    stream-Ends :
        (stream : Streamed F D)
        → Reliable st
        → Ends c rate stream (stream_and_finish o f32_bytes c rate st stream start)
    unfolding stream_and_finish abort_stream Ends deliver
    stream-Ends not_started r =
        (abort-Captured c rate (asked_of []) (last-Captured [] r), λ h. h, λ all. refl)
    stream-Ends (not_tuned ds) r =
        (abort-Captured c rate (asked_of ds) (last-Captured ds r), λ h. h, λ all. refl)
    stream-Ends (streamed ds) r = (last-Captured ds r, λ h. refl, λ all. last-true ds r all)

    run-value :
        (stream : Streamed F D)
        → Reliable st
        → run_capture o f32_bytes c rate nominal_rate st stream
          ≡ stream_and_finish o f32_bytes c rate st stream start
    unfolding run_capture
    run-value stream r = elim (Bool-cases c.receive_wav) [
      | inl wav ↦ rw (wav, r.placed) refl
      | inr plain ↦ rw plain refl
    ]

  -- With a file system that does what it is asked for around the stream, and whatever happens to the writes
  -- during it, to the start of the stream and to the tuning: the finished file of a run with an open device
  -- and output holds a front part of the delivered bytes that the budget lets through, behind no header, or
  -- for a WAV file behind the final one, whose size fields then state exactly the bytes of samples and of the
  -- file. If the run reports success none of these bytes is missing, and the stream was started and tuned; if
  -- every write was done in full, it reports success exactly when the stream was started and tuned.
  pub run_capture-Captured :
      (c : Config) (rate : ℕ) (nominal_rate : F) (st : Storage) (stream : Streamed F D)
      → Reliable st
      → Captured c rate
          (within (initial_remaining c) (stream_bytes o f32_bytes (deliveries stream)))
          (run_capture o f32_bytes c rate nominal_rate st stream)
        × ((run_capture o f32_bytes c rate nominal_rate st stream).0 ≡ true
            → is_started_and_tuned stream ≡ true)
        × (All (λ d. d.answer ≡ in_full) (deliveries stream)
            → (run_capture o f32_bytes c rate nominal_rate st stream).0
              ≡ is_started_and_tuned stream)
  unfolding Ends
  run_capture-Captured c rate nominal_rate st stream r =
      subst (Ends c rate stream) (sym (run-value c rate nominal_rate st stream r))
        (stream-Ends c rate nominal_rate st stream r)
