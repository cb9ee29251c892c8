-- ===== src/Stream/System.antt =====
-- crates/libairspy/src/stream.rs, the two worker threads of a stream and their owner as interleaved
-- steps on the shared state: `StreamShared`, `run_consumer`, the reader's side of
-- `run_bulk_stream_impl` (transport.rs), and the owner's `stop_rx`. A step is one atomic access of
-- the shared state (a flag, or a queue method under its lock). What a thread does between two of its
-- accesses is not seen by the others, so the conversion and the callback are one step.
pub mod Pool
pub mod Stopping
pub mod Joining
use libairspy_rs.Base.{
  ℕ, ◌≡◌, Bool, true, false, not, ◌&&◌, Option, none, some, List, [], ◌∷◌, length,
}
use libairspy_rs.Stream.{Buf}
use libairspy_rs.Stream.Queue.{
  SampleQueue, Popped, shut, entry, waits, try_acquire_free, push_filled, pop_filled, recycle,
  shutdown,
}

-- Where the reader thread stands: before its `running` test, waiting for a completion, holding a free
-- buffer filled with a completed transfer, between its two final stores, and at its end.
pub data ReaderPc : Type 0 where
  polling awaiting closing reader_ended : ReaderPc
  filling : Buf → ReaderPc

-- Where the consumer thread stands: before its `running` test, blocked in `pop_filled`, before its
-- second test, in the callback, and at its end.
pub data ConsumerPc : Type 0 where
  testing popping consumer_ended : ConsumerPc
  checking calling : Buf → ConsumerPc

-- Where the owner stands in `stop_rx`.
pub data OwnerPc : Type 0 where
  idle requested cleared joining joined : OwnerPc

-- `calls` records the buffers whose callback has returned, the latest first.
pub record System : Type 0 where
  pub queue : SampleQueue
  pub streaming : Bool
  pub stop_requested : Bool
  pub reader : ReaderPc
  pub consumer : ConsumerPc
  pub owner : OwnerPc
  pub calls : List Buf

-- `StreamShared::running`
abbrev pub running : System → Bool
running s = s.streaming && not s.stop_requested

-- The reader after `try_acquire_free`: a missing buffer drops the transfer.
abbrev pub after_acquire : Buf → Option Buf → ReaderPc
after_acquire completed none = polling
after_acquire completed (some buf) = filling completed

-- `start_rx`: a fresh queue, `streaming` set, both threads at their first test.
abbrev pub started : SampleQueue → System
started q = record {
  queue = q;
  streaming = true;
  stop_requested = false;
  reader = polling;
  consumer = testing;
  owner = idle;
  calls = [];
}

-- A step of one of the workers; n is the size of a complete transfer.
pub data WorkerStep (n : ℕ) : System → System → Type 0 where
  reader_goes_on :
      (s : System)
      → s.reader ≡ polling
      → running s ≡ true
      → WorkerStep n s (record s { reader = awaiting })
  reader_sees_stop :
      (s : System)
      → s.reader ≡ polling
      → running s ≡ false
      → WorkerStep n s (record s { reader = closing; streaming = false })
  -- a timeout, or a transient error within the cap
  reader_passes :
      (s : System) → s.reader ≡ awaiting → WorkerStep n s (record s { reader = polling })
  -- a fatal error, or one transient error too many
  reader_gives_up :
      (s : System)
      → s.reader ≡ awaiting
      → WorkerStep n s (record s { reader = closing; streaming = false })
  reader_acquires :
      (s : System) (completed : Buf)
      → s.reader ≡ awaiting
      → length completed ≡ n
      → WorkerStep n s (record s {
        reader = after_acquire completed (try_acquire_free s.queue).0;
        queue = (try_acquire_free s.queue).1;
      })
  reader_pushes :
      (s : System) (completed : Buf)
      → s.reader ≡ filling completed
      → WorkerStep n s (record s { reader = polling; queue = push_filled s.queue completed })
  reader_shuts :
      (s : System)
      → s.reader ≡ closing
      → WorkerStep n s (record s { reader = reader_ended; queue = shutdown s.queue })
  consumer_goes_on :
      (s : System)
      → s.consumer ≡ testing
      → running s ≡ true
      → WorkerStep n s (record s { consumer = popping })
  consumer_sees_stop :
      (s : System)
      → s.consumer ≡ testing
      → running s ≡ false
      → WorkerStep n s (record s { consumer = consumer_ended; streaming = false })
  consumer_finds_shut :
      (s : System)
      → s.consumer ≡ popping
      → (pop_filled s.queue).0 ≡ shut
      → WorkerStep n s (record s { consumer = consumer_ended; streaming = false })
  consumer_pops :
      (s : System) (buf : Buf) (dropped : ℕ)
      → s.consumer ≡ popping
      → (pop_filled s.queue).0 ≡ entry buf dropped
      → WorkerStep n s (record s { consumer = checking buf; queue = (pop_filled s.queue).1 })
  consumer_delivers :
      (s : System) (buf : Buf)
      → s.consumer ≡ checking buf
      → running s ≡ true
      → WorkerStep n s (record s { consumer = calling buf })
  consumer_discards :
      (s : System) (buf : Buf)
      → s.consumer ≡ checking buf
      → running s ≡ false
      → WorkerStep n s
          (record s { consumer = consumer_ended; queue = recycle s.queue buf; streaming = false })
  callback_returns_true :
      (s : System) (buf : Buf)
      → s.consumer ≡ calling buf
      → WorkerStep n s
          (record s { consumer = testing; queue = recycle s.queue buf; calls = buf ∷ s.calls })
  callback_returns_false :
      (s : System) (buf : Buf)
      → s.consumer ≡ calling buf
      → WorkerStep n s (record s {
        consumer = testing;
        queue = recycle s.queue buf;
        calls = buf ∷ s.calls;
        streaming = false;
      })

-- A step of the owner: the stores of `stop_rx` in their order, the last behind both joins.
pub data OwnerStep : System → System → Type 0 where
  owner_requests :
      (s : System)
      → s.owner ≡ idle
      → OwnerStep s (record s { owner = requested; stop_requested = true })
  owner_clears :
      (s : System)
      → s.owner ≡ requested
      → OwnerStep s (record s { owner = cleared; streaming = false })
  owner_shuts :
      (s : System)
      → s.owner ≡ cleared
      → OwnerStep s (record s { owner = joining; queue = shutdown s.queue })
  owner_joins :
      (s : System)
      → s.owner ≡ joining
      → s.reader ≡ reader_ended
      → s.consumer ≡ consumer_ended
      → OwnerStep s (record s { owner = joined; stop_requested = false })

pub data Step (n : ℕ) : System → System → Type 0 where
  by_worker : {s t : System} → WorkerStep n s t → Step n s t
  by_owner : {s t : System} → OwnerStep s t → Step n s t

pub data Reach (n : ℕ) (s : System) : System → Type 0 where
  here : Reach n s s
  next : {t u : System} → Reach n s t → Step n t u → Reach n s u
