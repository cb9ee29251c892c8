-- ===== src/Tools/Receive/Capture.antt =====
-- crates/airspy-tools/src/bin/airspy_rx.rs: the callback that writes the samples, and the output file from its
-- placeholder header to its final one. The bytes that the operating system takes are answers of the
-- outside: a write or a flush is done in full, or fails and leaves a front part of its bytes.
pub mod Budget
pub mod Written
pub mod Finishing
pub mod Playable
use libairspy_rs.Base.{
  ℕ, zero, suc, ◌+◌, ◌%◌, ◌^◌, ◌==◌, Bool, true, false, not, ◌&&◌, Option, none, some, List, [],
  ◌∷◌, ◌++◌, length, take, drop, min, ltb, if◌then◌else◌,
}
use libairspy_rs.Commands.{SampleType}
use libairspy_rs.Conversion.Dispatch.{Samples}
use libairspy_rs.Tools.Wav.{wav_max_data_bytes, wav_header_placeholder, wav_header_finalized}
use libairspy_rs.Tools.Receive.{
  RateOps, RateTracker, on_block, new_tracker, frame_count, extend_sample_bytes, apply_byte_budget,
}
use libairspy_rs.Tools.Receive.Config.{Config}

pub data WriteAnswer : Type 0 where
  in_full : WriteAnswer
  fails_after : ℕ → WriteAnswer

abbrev pub is_ok : WriteAnswer → Bool
is_ok in_full = true
is_ok (fails_after n) = false

-- What `write_all` adds to the output.
abbrev pub taken : WriteAnswer → List ℕ → List ℕ
taken in_full bytes = bytes
taken (fails_after n) bytes = take n bytes

-- `writer` holds what the open output has taken so far.
pub record RxShared (F D : Type 0) : Type 0 where
  pub writer : Option (List ℕ)
  pub tracker : RateTracker F D
  pub remaining : Option ℕ
  pub buf : List ℕ
  pub write_failed : Bool

-- A block as the consumer thread delivers it, the time, and the answer to its write.
pub record Delivery (F D : Type 0) : Type 0 where
  pub samples : Samples F
  pub now : D
  pub answer : WriteAnswer

-- `Some(0)`
abbrev pub is_spent : Option ℕ → Bool
is_spent none = false
is_spent (some n) = n == 0

module _ {F D : Type 0} (o : RateOps F D) (f32_bytes : F → List ℕ) where
  abbrev pub write_block : RxShared F D → Option (List ℕ) → WriteAnswer → ℕ → Bool × RxShared F D
  write_block s none answer n = (false, s)
  write_block s (some output) answer n =
      let s' = record s { writer = some (output ++ taken answer (take n s.buf)) } in
      if is_ok answer
      then (not (is_spent s.remaining), s')
      else (false, record s' { write_failed = true })

  unfoldable pub on_transfer : SampleType → Bool → Delivery F D → RxShared F D → Bool × RxShared F D
  on_transfer sample_type packing d s =
      let tracker = on_block o s.tracker (frame_count d.samples sample_type packing) d.now in
      let buf = extend_sample_bytes f32_bytes [] d.samples in
      let budget = apply_byte_budget s.remaining (length buf) in
      write_block (record s { tracker = tracker; remaining = budget.1; buf = buf }) s.writer
        d.answer budget.0

  -- The consumer thread calls back until the callback asks it to stop.
  unfoldable pub deliver : SampleType → Bool → List (Delivery F D) → RxShared F D → RxShared F D
  deliver sample_type packing [] s = s
  deliver sample_type packing (d ∷ ds) s =
      let called = on_transfer sample_type packing d s in
      let rest = deliver sample_type packing ds called.1 in if called.0 then rest else called.1

-- The `-n` budget, for a WAV file at most what its size fields can hold.
abbrev pub limit : Config → Option ℕ
limit c = if c.limit_num_samples then some c.bytes_to_xfer else none

abbrev pub capped : Option ℕ → Option ℕ
capped none = some wav_max_data_bytes
capped (some b) = some (min b wav_max_data_bytes)

unfoldable pub initial_remaining : Config → Option ℕ
initial_remaining c = if c.receive_wav then capped (limit c) else limit c

-- The answers of the file system around a capture: the placeholder's write, the final flush, and whether
-- the file can be opened again and measured, and the header's write.
pub record Storage : Type 0 where
  pub placeholder : WriteAnswer
  pub flush : WriteAnswer
  pub reopens : Bool
  pub rewrite : WriteAnswer

-- `u32::try_from(len)`
abbrev pub u32_try_from : ℕ → Option ℕ
u32_try_from n = if ltb n (2 ^ 32) then some n else none

unfoldable pub rewrite_wav_header : Config → ℕ → Storage → List ℕ → Bool × List ℕ
rewrite_wav_header c rate st file =
    if not st.reopens then (false, file) else elim (u32_try_from (length file)) [
      | none ↦ (false, file)
      | some file_pos ↦
          let header = taken st.rewrite (wav_header_finalized file_pos c.wav_params rate) in
          (is_ok st.rewrite, header ++ drop (length header) file)
    ]

-- The finished file, and whether all went well.
abbrev pub finish_file : Config → ℕ → Storage → Bool → List ℕ → Bool × List ℕ
finish_file c rate st ok file =
    if c.receive_wav
    then (let rewritten = rewrite_wav_header c rate st file in (ok && rewritten.0, rewritten.1))
    else (ok, file)

abbrev pub finish_writer : Config → ℕ → Storage → Bool → Option (List ℕ) → Bool × List ℕ
finish_writer c rate st failed none = finish_file c rate st (not failed) []
finish_writer c rate st failed (some output) =
    finish_file c rate st (not failed && is_ok st.flush) (taken st.flush output)

unfoldable pub finalize_output :
    {F D : Type 0} → Config → ℕ → Storage → RxShared F D → Bool × List ℕ
finalize_output c rate st s = finish_writer c rate st s.write_failed s.writer

-- How the device's part of a run goes: `start_rx` fails, `set_freq` fails on the running stream, or neither
-- does; with the deliveries up to the stream's end.
pub data Streamed (F D : Type 0) : Type 0 where
  not_started : Streamed F D
  not_tuned : List (Delivery F D) → Streamed F D
  streamed : List (Delivery F D) → Streamed F D

abbrev pub deliveries : {F D : Type 0} → Streamed F D → List (Delivery F D)
deliveries not_started = []
deliveries (not_tuned ds) = ds
deliveries (streamed ds) = ds

-- Neither `start_rx` nor `set_freq` failed.
abbrev pub is_started_and_tuned : {F D : Type 0} → Streamed F D → Bool
is_started_and_tuned not_started = false
is_started_and_tuned (not_tuned ds) = false
is_started_and_tuned (streamed ds) = true

module _ {F D : Type 0} (o : RateOps F D) (f32_bytes : F → List ℕ) where
  abbrev pub fresh : Config → F → List ℕ → RxShared F D
  fresh c nominal_rate header = record {
    writer = some header;
    tracker = new_tracker o nominal_rate;
    remaining = initial_remaining c;
    buf = [];
    write_failed = false;
  }

  -- `abort_stream`: the file is finished as it is, and the exit code is 1.
  unfoldable pub abort_stream : Config → ℕ → Storage → RxShared F D → Bool × List ℕ
  abort_stream c rate st s = (false, (finalize_output c rate st s).1)

  unfoldable pub stream_and_finish :
      Config → ℕ → Storage → Streamed F D → RxShared F D → Bool × List ℕ
  stream_and_finish c rate st not_started s = abort_stream c rate st s
  stream_and_finish c rate st (not_tuned ds) s =
      abort_stream c rate st (deliver o f32_bytes c.sample_type c.packing ds s)
  stream_and_finish c rate st (streamed ds) s =
      finalize_output c rate st (deliver o f32_bytes c.sample_type c.packing ds s)

  -- From the open device and output on: whether the exit code is 0, and the file. A placeholder that
  -- cannot be written ends the run.
  unfoldable pub run_capture : Config → ℕ → F → Storage → Streamed F D → Bool × List ℕ
  run_capture c rate nominal_rate st stream =
      if not c.receive_wav
      then stream_and_finish c rate st stream (fresh c nominal_rate [])
      else if is_ok st.placeholder
      then stream_and_finish c rate st stream (fresh c nominal_rate wav_header_placeholder)
      else (false, taken st.placeholder wav_header_placeholder)
