-- ===== src/Tests/Bridges.antt =====
-- The blocking iterator, and the consumer with its conversion.
use libairspy_rs.Base.{
  ℕ, ◌+◌, ◌*◌, ◌≤◌, ◌<◌, ◌≡◌, ◌⊎◌, refl, false, true, List, [], ◌∷◌, replicate, arith,
}
use libairspy_rs.Commands.{int16_iq}
use libairspy_rs.Conversion.Dispatch.{fresh_scratch}
use libairspy_rs.Iq.Float.{FloatOps}
use libairspy_rs.Stream.Queue.{SampleQueue, shutdown}
use libairspy_rs.Stream.System.{
  reader_ended, consumer_ended, joining, requested, cleared, started, owner_requests, owner_clears,
  owner_shuts,
}
use libairspy_rs.Stream.System.Joining.{steps_left}
use libairspy_rs.Stream.Bridge.{
  Bridge, WorkerMove, disconnects, stops, opened, Runs, begins, iter_moves,
}
use libairspy_rs.Stream.Bridge.Delivery.{Delivered, Runs-Delivered}
use libairspy_rs.Stream.Bridge.Dropping.{CanMove, drop_ends}
use libairspy_rs.Stream.Consumer.{Turn, stopped, raced, run_consumer}
use libairspy_rs.Stream.Consumer.Accounts.{Accounts, run_consumer-Accounts}

abbrev queue : SampleQueue
queue = record { filled = []; free = (0 ∷ 0 ∷ []) ∷ []; capacity = 1; dropped = 0; is_shut = false }

-- An iterator that is dropped at once.
abbrev gone : Bridge
gone = record (opened queue) { receiver = false; channel = [] }

abbrev asked : Bridge
asked = record gone { system = record (started queue) { owner = requested; stop_requested = true } }

abbrev flags_cleared : Bridge
flags_cleared = record gone { system = record asked.system { owner = cleared; streaming = false } }

abbrev shutting : Bridge
shutting = record gone {
  system = record flags_cleared.system { owner = joining; queue = shutdown queue };
}

Runs-shutting : Runs 2 queue shutting
Runs-shutting =
    iter_moves
      (iter_moves
        (iter_moves (iter_moves begins (disconnects (opened queue) refl refl))
          (stops gone asked.system refl (owner_requests (started queue) refl)))
        (stops asked flags_cleared.system refl (owner_clears asked.system refl)))
      (stops flags_cleared shutting.system refl (owner_shuts flags_cleared.system refl))

Runs-Delivered_example : Delivered shutting
Runs-Delivered_example = Runs-Delivered Runs-shutting

drop_ends_example :
    (steps_left shutting.system ≤ 6)
    × (((shutting.system.reader ≡ reader_ended) × (shutting.system.consumer ≡ consumer_ended))
        ⊎ CanMove 2 shutting)
    × ((c : Bridge) → WorkerMove 2 shutting c → steps_left c.system < steps_left shutting.system)
drop_ends_example = drop_ends Runs-shutting refl

abbrev numbers : FloatOps ℕ
numbers = record {
  zero_f = 0;
  add = λ a b. a + b;
  sub = λ a b. a;
  mul = λ a b. a * b;
  neg = λ a. a;
  of_int = λ z. 0;
  sample_scale = 1;
  dc_scale = 1;
}

-- A packed block of 24 bytes after three lost ones, and one that a stop overtakes.
abbrev turns : List Turn
turns = Turn.block (replicate 24 7) 3 true ∷ raced (replicate 24 0) 0 ∷ stopped ∷ []

run_consumer-Accounts_example :
    Accounts numbers int16_iq true 24 turns
      (fresh_scratch numbers (1 ∷ 2 ∷ 3 ∷ []))
      (run_consumer numbers int16_iq true turns (fresh_scratch numbers (1 ∷ 2 ∷ 3 ∷ [])))
run_consumer-Accounts_example =
    run_consumer-Accounts numbers int16_iq true 24 turns (fresh_scratch numbers (1 ∷ 2 ∷ 3 ∷ []))
      (omega arith) ((refl, omega arith), (tt, (tt, tt)))
