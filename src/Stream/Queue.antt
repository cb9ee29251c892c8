-- ===== src/Stream/Queue.antt =====
-- crates/libairspy/src/stream.rs, `SampleQueue`: the ring of filled buffers and the pool of free ones.
-- Each method runs under the queue's lock, so it is one function on the state. A poisoned lock (a
-- panic of the other thread) and the condition variable's wake-ups are not modelled: a method that
-- waits returns `waits` and leaves the state alone.
pub mod Bounds
pub mod Fifo
pub mod Losses
use libairspy_rs.Base.{
  ℕ, ◌+◌, ◌-◌, ◌^◌, Bool, true, false, Option, none, some, List, [], ◌∷◌, ◌++◌, ltb, leb, length,
  replicate, if◌then◌else◌,
}
use libairspy_rs.Stream.{Buf, raw_buffer_count, buffer_size_for}

-- `u32::MAX` and `saturating_add(1)` on a u32.
abbrev pub u32_max : ℕ
u32_max = 4294967295

abbrev pub saturating_inc : ℕ → ℕ
saturating_inc n = if ltb n u32_max then n + 1 else u32_max

-- The head of `filled` is the front of the deque, the head of `free` the end of the vector.
pub record SampleQueue : Type 0 where
  pub filled : List (Buf × ℕ)
  pub free : List Buf
  pub dropped : ℕ
  pub is_shut : Bool
  pub capacity : ℕ

unfoldable pub with_pool : ℕ → ℕ → ℕ → SampleQueue
with_pool slots pool buffer_size = record {
  filled = [];
  free = replicate pool (replicate buffer_size 0);
  dropped = 0;
  is_shut = false;
  capacity = slots;
}

unfoldable pub for_streaming : Bool → SampleQueue
unfolding with_pool
for_streaming packing_enabled =
    with_pool raw_buffer_count (raw_buffer_count + 1) (buffer_size_for packing_enabled)

-- A missing free buffer counts as a dropped one.
unfoldable pub try_acquire_free : SampleQueue → Option Buf × SampleQueue
try_acquire_free q = elim q.free [
  | [] ↦ (none, record q { dropped = saturating_inc q.dropped })
  | buf ∷ rest ↦ (some buf, record q { free = rest })
]

-- On a full ring the buffer is recycled and counted, else it carries the count so far.
unfoldable pub push_filled : SampleQueue → Buf → SampleQueue
push_filled q buf =
    if leb q.capacity (length q.filled)
    then record q { dropped = saturating_inc q.dropped; free = buf ∷ q.free }
    else record q { filled = q.filled ++ ((buf, q.dropped) ∷ []); dropped = 0 }

pub data Popped : Type 0 where
  shut : Popped
  entry : Buf → ℕ → Popped
  waits : Popped

-- One pass of the loop: shutdown wins over queued data.
unfoldable pub pop_filled : SampleQueue → Popped × SampleQueue
pop_filled q = if q.is_shut then (shut, q) else elim q.filled [
  | [] ↦ (waits, q)
  | (buf, dropped) ∷ rest ↦ (entry buf dropped, record q { filled = rest })
]

unfoldable pub recycle : SampleQueue → Buf → SampleQueue
recycle q buf = record q { free = buf ∷ q.free }

unfoldable pub shutdown : SampleQueue → SampleQueue
shutdown q = record q { is_shut = true }

-- The calls that the two threads and the owner make of a queue, in any order.
pub data Op : Type 0 where
  acquires : Op
  pushes : Buf → Op
  pops : Op
  recycles : Buf → Op
  shuts : Op

-- What a call did: `lost` is a transfer's data discarded, `took` a buffer handed to the consumer.
pub data Event : Type 0 where
  quiet lost : Event
  stored : Buf → Event
  took : Buf → ℕ → Event

abbrev pub acquire_event : Option Buf → Event
acquire_event none = lost
acquire_event (some buf) = quiet

abbrev pub pop_event : Popped → Event
pop_event shut = quiet
pop_event waits = quiet
pop_event (entry buf dropped) = took buf dropped

unfoldable pub step : SampleQueue → Op → Event × SampleQueue
unfolding try_acquire_free push_filled pop_filled recycle shutdown
step q acquires = let (r, q') = try_acquire_free q in (acquire_event r, q')
step q (pushes buf) =
    (if leb q.capacity (length q.filled) then lost else stored buf, push_filled q buf)
step q pops = let (r, q') = pop_filled q in (pop_event r, q')
step q (recycles buf) = (quiet, recycle q buf)
step q shuts = (quiet, shutdown q)

unfoldable pub run : SampleQueue → List Op → List Event × SampleQueue
run q [] = ([], q)
run q (op ∷ ops) = let (e, q') = step q op in let (es, q'') = run q' ops in (e ∷ es, q'')
