-- ===== src/Tests/Streams.antt =====
-- The ring, the threads and the bulk reader.
use libairspy_rs.Base.{
  ◌<◌, ◌+◌, ◌≤◌, ◌≡◌, refl, true, false, some, none, List, [], ◌∷◌, ◌++◌, length, arith, ◌⊎◌,
}
use libairspy_rs.Error.{fault, stall}
use libairspy_rs.Stream.{Buf, buffer_size_for, raw_buffer_count}
use libairspy_rs.Stream.Queue.{
  SampleQueue, Op, acquires, pushes, pops, recycles, shuts, run, for_streaming, step,
}
use libairspy_rs.Stream.Queue.Fifo.{contents, stored_in, taken_in, run-order}
use libairspy_rs.Stream.Queue.Losses.{losses, pending_drops, reported, run-drops}
use libairspy_rs.Stream.System.{
  WorkerStep, System, started, running, Reach, here, next, by_owner, owner_requests, owner_clears,
  owner_shuts, requested, cleared, joining, closing, reader_ended, consumer_ended,
}
use libairspy_rs.Stream.System.Pool.{Inv, started-Inv}
use libairspy_rs.Stream.System.Stopping.{stop_final, in_callback}
use libairspy_rs.Stream.System.Joining.{steps_left, CanStep, joins_progress}
use libairspy_rs.Transport.Reader.{
  Reader, Completion, Poll, run_bulk_stream, run_loop, handle_bulk_completion,
}
use libairspy_rs.Transport.Reader.Safety.{SafeOutcome, bulk_stream_safe}
use libairspy_rs.Transport.Reader.Errors.{Verdict, kind, completion-Verdict, StormEnds, storm_ends}

-- Two free buffers of two bytes, and one slot.
abbrev small : SampleQueue
small = record {
  filled = [];
  free = (0 ∷ 0 ∷ []) ∷ (0 ∷ 0 ∷ []) ∷ [];
  capacity = 1;
  dropped = 0;
  is_shut = false;
}

-- A transfer stored, one lost for want of a slot, and one taken.
abbrev calls : List Op
calls =
    acquires
    ∷ pushes (1 ∷ 2 ∷ [])
    ∷ acquires
    ∷ pushes (3 ∷ 4 ∷ [])
    ∷ pops
    ∷ recycles (1 ∷ 2 ∷ [])
    ∷ []

run-order_example :
    contents small ++ stored_in (run small calls).0
    ≡ taken_in (run small calls).0 ++ contents (run small calls).1
run-order_example = run-order small calls

run-drops_example :
    pending_drops small + losses (run small calls).0
    ≡ reported (run small calls).0 + pending_drops (run small calls).1
unfolding run step
run-drops_example = run-drops small calls (omega arith)

-- A shut queue that still holds a buffer.
abbrev shut_queue : SampleQueue
shut_queue = record {
  filled = ((1 ∷ 2 ∷ []), 0) ∷ [];
  free = (0 ∷ 0 ∷ []) ∷ [];
  capacity = 1;
  dropped = 0;
  is_shut = true;
}

-- A stream that its owner asks to stop, before either thread has moved.
abbrev asked : System
asked = record (started small) { owner = requested; stop_requested = true }

abbrev flags_cleared : System
flags_cleared = record asked { owner = cleared; streaming = false }

abbrev shutting : System
shutting = record flags_cleared {
  owner = joining;
  queue = libairspy_rs.Stream.Queue.shutdown small;
}

abbrev reader_leaves : System
reader_leaves = record shutting { reader = closing; streaming = false }

Reach-asked : Reach 2 (started small) asked
Reach-asked = next here (by_owner (owner_requests (started small) refl))

Reach-shutting : Reach 2 (started small) shutting
Reach-shutting =
    next (next Reach-asked (by_owner (owner_clears asked refl)))
      (by_owner (owner_shuts flags_cleared refl))

stop_final_example :
    (running flags_cleared ≡ false)
    × (length flags_cleared.calls ≤ length asked.calls + in_callback asked.consumer)
stop_final_example =
    stop_final small Reach-asked refl (next here (by_owner (owner_clears asked refl)))

joins_progress_example :
    (steps_left shutting ≤ 6)
    × (((shutting.reader ≡ reader_ended) × (shutting.consumer ≡ consumer_ended))
        ⊎ CanStep 2 shutting)
    × ((s : System) → WorkerStep 2 shutting s → steps_left s < steps_left shutting)
joins_progress_example = joins_progress small Reach-shutting refl

-- A packed stream, asked to stop.
abbrev packed_asked : System
packed_asked = record (started (for_streaming true)) { owner = requested; stop_requested = true }

started-Inv_example : Inv (buffer_size_for true) packed_asked
started-Inv_example =
    started-Inv true (next here (by_owner (owner_requests (started (for_streaming true)) refl)))

-- A short transfer while the stream runs, and a stalled endpoint.
abbrev short_poll : Poll
short_poll = record {
  others = acquires ∷ pops ∷ [];
  is_running = true;
  completion = some (record { status = none; buffer = 7 ∷ [] });
}

abbrev stall_poll : Poll
stall_poll = record {
  others = [];
  is_running = true;
  completion = some (record { status = some stall; buffer = [] });
}

bulk_stream_safe_example : SafeOutcome (buffer_size_for true) (true ∷ true ∷ false ∷ []) (
    run_bulk_stream
      (buffer_size_for true)
      (for_streaming true)
      true
      (short_poll ∷ stall_poll ∷ [])
      (true ∷ true ∷ false ∷ []))
bulk_stream_safe_example =
    bulk_stream_safe true true (short_poll ∷ stall_poll ∷ []) (true ∷ true ∷ false ∷ [])
      ((tt, (tt, tt)), (tt, tt))

abbrev small_reader : Reader
small_reader = record {
  queue = small;
  errors = record { total = 5; consecutive = 63 };
  pending = 15;
  streaming = true;
}

abbrev faulty : Completion
faulty = record { status = some fault; buffer = [] }

completion-Verdict_example :
    Verdict
      (kind 2 faulty)
      true
      small_reader
      (record small_reader { errors = record { total = 6; consecutive = 64 }; pending = 16 })
unfolding handle_bulk_completion
completion-Verdict_example =
    completion-Verdict 2 small_reader faulty true
      (record small_reader { errors = record { total = 6; consecutive = 64 }; pending = 16 })
      (omega arith) refl

abbrev fault_poll : Poll
fault_poll = record { others = []; is_running = true; completion = some faulty }

storm_ends_example :
    StormEnds
      (small_reader.errors.consecutive + 2)
      (run_loop 2 small_reader (fault_poll ∷ fault_poll ∷ []))
storm_ends_example =
    storm_ends 2 (fault_poll ∷ fault_poll ∷ []) small_reader (omega arith)
      ((refl, faulty, refl, refl), ((refl, faulty, refl, refl), tt))
