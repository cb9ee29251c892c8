-- ===== src/Stream/Consumer.antt =====
-- crates/libairspy/src/stream.rs, `run_consumer` with the conversion that System leaves out: one turn of its
-- loop after the other, over what the queue, the flags and the callback answer.
pub mod Accounts
use libairspy_rs.Base.{ℕ, ◌*◌, ◌%◌, ◌^◌, Bool, true, false, List, [], ◌∷◌, if◌then◌else◌}
use libairspy_rs.Commands.{SampleType}
use libairspy_rs.Conversion.Dispatch.{Samples, Scratch, convert_block}
use libairspy_rs.Iq.Float.{FloatOps}
use libairspy_rs.Stream.{Buf}

pub record Transfer (F : Type 0) : Type 0 where
  pub samples : Samples F
  pub sample_type : SampleType
  pub dropped_samples : ℕ

-- How a turn goes: `running` fails at its start; the queue is shut; a stop wins after the pop; or the block is
-- handed to the callback, with its answer.
pub data Turn : Type 0 where
  stopped closed : Turn
  raced : Buf → ℕ → Turn
  block : Buf → ℕ → Bool → Turn

-- The transfers that the callback got, and the buffers recycled.
pub record Consumed (F : Type 0) : Type 0 where
  pub delivered : List (Transfer F)
  pub recycled : List Buf

module _ {F : Type 0} (f : FloatOps F) (sample_type : SampleType) (packing_enabled : Bool) where
  -- After a false answer `running` fails at the next turn.
  unfoldable pub run_consumer : List Turn → Scratch F → Consumed F
  run_consumer [] scratch = record { delivered = []; recycled = [] }
  run_consumer (stopped ∷ turns) scratch = record { delivered = []; recycled = [] }
  run_consumer (closed ∷ turns) scratch = record { delivered = []; recycled = [] }
  run_consumer (raced buf dropped ∷ turns) scratch = record { delivered = []; recycled = buf ∷ [] }
  run_consumer (block buf dropped keep_going ∷ turns) scratch =
      let converted = convert_block f sample_type packing_enabled buf scratch in
      let transfer : Transfer F = record {
        samples = converted.0.0;
        sample_type = sample_type;
        dropped_samples = dropped * converted.0.1 % 2 ^ 64;
      } in
      let rest = run_consumer turns converted.1 in
      if keep_going
      then record { delivered = transfer ∷ rest.delivered; recycled = buf ∷ rest.recycled }
      else record { delivered = transfer ∷ []; recycled = buf ∷ [] }
