-- ===== src/Stream/Bridge.antt =====
-- crates/libairspy/src/reader.rs: the blocking iterator over a stream, as the two workers with a bounded
-- channel between the callback and the iterator. stream_tokio.rs and stream_smol.rs have the same bridge
-- over their runtimes' channels. The channel is the library's: a send waits while it is full, fails once the
-- receiver is gone, and otherwise appends; dropping the receiver drops what it holds. Blocks stand for
-- their buffers.
pub mod Delivery
pub mod Dropping
use libairspy_rs.Base.{ℕ, ◌≡◌, Bool, true, false, List, [], ◌∷◌, ◌++◌, length, ltb, if◌then◌else◌}
use libairspy_rs.Stream.{Buf, raw_buffer_count}
use libairspy_rs.Stream.Queue.{SampleQueue, recycle}
use libairspy_rs.Stream.System.{
  System, ConsumerPc, testing, calling, OwnerPc, idle, WorkerStep, OwnerStep, started,
}

-- `channel` and `received` hold the oldest block first.
pub record Bridge : Type 0 where
  pub system : System
  pub channel : List Buf
  pub receiver : Bool
  pub received : List Buf

-- The answer of the bounded send.
pub data Sent : Type 0 where
  queued : List Buf → Sent
  disconnected blocks : Sent

-- `forward_transfer`: true if queued, false if disconnected; while it blocks the callback does not return.
unfoldable pub forward_transfer : Bool → List Buf → Buf → Sent
forward_transfer receiver channel buf =
    if receiver
    then (if ltb (length channel) raw_buffer_count then queued (channel ++ (buf ∷ [])) else blocks)
    else disconnected

-- The system once the callback of `buf` has returned.
abbrev pub returned : Bool → Buf → System → System
returned true buf s = record s {
  consumer = testing;
  queue = recycle s.queue buf;
  calls = buf ∷ s.calls;
}
returned false buf s = record s {
  consumer = testing;
  queue = recycle s.queue buf;
  calls = buf ∷ s.calls;
  streaming = false;
}

-- A step of a worker. Every one but the return of the callback is that of the plain stream.
pub data WorkerMove (n : ℕ) : Bridge → Bridge → Type 0 where
  works :
      (b : Bridge) (t : System)
      → WorkerStep n b.system t
      → t.calls ≡ b.system.calls
      → WorkerMove n b (record b { system = t })
  sends :
      (b : Bridge) (buf : Buf) (channel : List Buf)
      → b.system.consumer ≡ calling buf
      → forward_transfer b.receiver b.channel buf ≡ queued channel
      → WorkerMove n b (record b { system = returned true buf b.system; channel = channel })
  fails :
      (b : Bridge) (buf : Buf)
      → b.system.consumer ≡ calling buf
      → forward_transfer b.receiver b.channel buf ≡ disconnected
      → WorkerMove n b (record b { system = returned false buf b.system })

-- A step of the iterator: `next`, and `drop` with its order: the receiver goes first, and `stop_rx`
-- follows.
pub data IterMove : Bridge → Bridge → Type 0 where
  receives :
      (b : Bridge) (buf : Buf) (rest : List Buf)
      → b.system.owner ≡ idle
      → b.receiver ≡ true
      → b.channel ≡ buf ∷ rest
      → IterMove b (record b { channel = rest; received = b.received ++ (buf ∷ []) })
  disconnects :
      (b : Bridge)
      → b.system.owner ≡ idle
      → b.receiver ≡ true
      → IterMove b (record b { receiver = false; channel = [] })
  stops :
      (b : Bridge) (t : System)
      → b.receiver ≡ false
      → OwnerStep b.system t
      → IterMove b (record b { system = t })

-- `rx_blocks`
abbrev pub opened : SampleQueue → Bridge
opened q = record { system = started q; channel = []; receiver = true; received = [] }

pub data Runs (n : ℕ) (q : SampleQueue) : Bridge → Type 0 where
  begins : Runs n q (opened q)
  worker_moves : {b c : Bridge} → Runs n q b → WorkerMove n b c → Runs n q c
  iter_moves : {b c : Bridge} → Runs n q b → IterMove b c → Runs n q c
