-- ===== src/Stream/System/Pool.antt =====
-- The buffers of a stream: nine in all, each owned by the free pool, the ring or one of the threads.
use libairspy_rs.Base.{
  ℕ, ◌+◌, ◌≡◌, refl, Bool, [], ◌∷◌, arith, length, length-append, All-append, Bool-cases, inl, inr,
  leb,
}
use libairspy_rs.Stream.{Buf, buffer_size_for, raw_buffer_count}
use libairspy_rs.Stream.Queue.{
  SampleQueue, for_streaming, try_acquire_free, push_filled, pop_filled, recycle, shutdown, entry,
}
use libairspy_rs.Stream.Queue.Bounds.{IsSized, for_streaming-IsSized}
use libairspy_rs.Stream.System.{
  System, ReaderPc, filling, ConsumerPc, checking, calling, after_acquire, started, WorkerStep,
  reader_goes_on, reader_sees_stop, reader_passes, reader_gives_up, reader_acquires, reader_pushes,
  reader_shuts, consumer_goes_on, consumer_sees_stop, consumer_finds_shut, consumer_pops,
  consumer_delivers, consumer_discards, callback_returns_true, callback_returns_false, OwnerStep,
  owner_requests, owner_clears, owner_shuts, owner_joins, Step, by_worker, by_owner, Reach, here,
  next,
}

abbrev pub reader_held : ReaderPc → ℕ
reader_held (filling buf) = 1
reader_held _ = 0

abbrev pub consumer_held : ConsumerPc → ℕ
consumer_held (checking buf) = 1
consumer_held (calling buf) = 1
consumer_held _ = 0

abbrev pub ReaderSized : ℕ → ReaderPc → Type 0
ReaderSized n (filling buf) = length buf ≡ n
ReaderSized n _ = Unit {0}

abbrev pub ConsumerSized : ℕ → ConsumerPc → Type 0
ConsumerSized n (checking buf) = length buf ≡ n
ConsumerSized n (calling buf) = length buf ≡ n
ConsumerSized n _ = Unit {0}

abbrev pub stored : SampleQueue → ℕ
stored q = length q.free + length q.filled

-- Nine buffers of n bytes, at most eight of them in the ring.
pub record Inv (n : ℕ) (s : System) : Type 0 where
  pub sized : IsSized n s.queue
  pub slots : s.queue.capacity ≡ raw_buffer_count
  pub total :
      stored s.queue + reader_held s.reader + consumer_held s.consumer ≡ raw_buffer_count + 1
  pub reader_sized : ReaderSized n s.reader
  pub consumer_sized : ConsumerSized n s.consumer

-- The effect of each queue method on the buffers.
record Kept (n k : ℕ) (q q' : SampleQueue) : Type 0 where
  kept_sized : IsSized n q'
  kept_slots : q'.capacity ≡ q.capacity
  kept_total : stored q' + k ≡ stored q

acquire-Kept :
    (n : ℕ) (q : SampleQueue) (c : Buf)
    → length c ≡ n
    → IsSized n q
    → Kept n (reader_held (after_acquire c (try_acquire_free q).0)) q (try_acquire_free q).1
      × ReaderSized n (after_acquire c (try_acquire_free q).0)
unfolding try_acquire_free
acquire-Kept n q c h v = ground arith

record Gained (n : ℕ) (q q' : SampleQueue) : Type 0 where
  gained_sized : IsSized n q'
  gained_slots : q'.capacity ≡ q.capacity
  gained_total : stored q' ≡ stored q + 1

push-Gained :
    (n : ℕ) (q : SampleQueue) (buf : Buf)
    → length buf ≡ n
    → IsSized n q
    → Gained n q (push_filled q buf)
unfolding push_filled
push-Gained n q buf h v = elim (Bool-cases (leb q.capacity (length q.filled))) [
  | inl full ↦ rw full (record {
    gained_sized = record {
      filled_sized = v.filled_sized;
      free_sized = (h, v.free_sized);
      bounded = v.bounded;
    };
    gained_slots = refl;
    gained_total = omega arith;
  })
  | inr room ↦ rw room (record {
    gained_sized = record {
      filled_sized =
          All-append (λ e. length e.0 ≡ n) q.filled ((buf, q.dropped) ∷ []) v.filled_sized (h, tt);
      free_sized = v.free_sized;
      bounded = ground (arith, length-append q.filled ((buf, q.dropped) ∷ []));
    };
    gained_slots = refl;
    gained_total = omega (arith, length-append q.filled ((buf, q.dropped) ∷ []));
  })
]

recycle-Gained :
    (n : ℕ) (q : SampleQueue) (buf : Buf)
    → length buf ≡ n
    → IsSized n q
    → Gained n q (recycle q buf)
unfolding recycle
recycle-Gained n q buf h v = record {
  gained_sized = record {
    filled_sized = v.filled_sized;
    free_sized = (h, v.free_sized);
    bounded = v.bounded;
  };
  gained_slots = refl;
  gained_total = omega arith;
}

pop-Kept :
    (n : ℕ) (q : SampleQueue) (buf : Buf) (d : ℕ)
    → (pop_filled q).0 ≡ entry buf d
    → IsSized n q
    → Kept n 1 q (pop_filled q).1 × (length buf ≡ n)
unfolding pop_filled
pop-Kept n q buf d e v = ground arith

shutdown-Kept : (n : ℕ) (q : SampleQueue) → IsSized n q → Kept n 0 q (shutdown q)
unfolding shutdown
shutdown-Kept n q v = record {
  kept_sized = record {
    filled_sized = v.filled_sized;
    free_sized = v.free_sized;
    bounded = v.bounded;
  };
  kept_slots = refl;
  kept_total = omega arith;
}

worker-Inv : {n : ℕ} {s t : System} → WorkerStep n s t → Inv n s → Inv n t
worker-Inv (reader_goes_on s e r) v = ground arith
worker-Inv (reader_sees_stop s e r) v = ground arith
worker-Inv (reader_passes s e) v = ground arith
worker-Inv (reader_gives_up s e) v = ground arith
worker-Inv {n} (reader_acquires s c e h) v = ground (arith, acquire-Kept n s.queue c h v.sized)
worker-Inv {n} (reader_pushes s c e) v =
    ground (arith, push-Gained n s.queue c (ground arith) v.sized)
worker-Inv {n} (reader_shuts s e) v = ground (arith, shutdown-Kept n s.queue v.sized)
worker-Inv (consumer_goes_on s e r) v = ground arith
worker-Inv (consumer_sees_stop s e r) v = ground arith
worker-Inv (consumer_finds_shut s e r) v = ground arith
worker-Inv {n} (consumer_pops s buf d e r) v = ground (arith, pop-Kept n s.queue buf d r v.sized)
worker-Inv (consumer_delivers s buf e r) v = ground arith
worker-Inv {n} (consumer_discards s buf e r) v =
    ground (arith, recycle-Gained n s.queue buf (ground arith) v.sized)
worker-Inv {n} (callback_returns_true s buf e) v =
    ground (arith, recycle-Gained n s.queue buf (ground arith) v.sized)
worker-Inv {n} (callback_returns_false s buf e) v =
    ground (arith, recycle-Gained n s.queue buf (ground arith) v.sized)

owner-Inv : {n : ℕ} {s t : System} → OwnerStep s t → Inv n s → Inv n t
owner-Inv (owner_requests s e) v = ground arith
owner-Inv (owner_clears s e) v = ground arith
owner-Inv {n} (owner_shuts s e) v = ground (arith, shutdown-Kept n s.queue v.sized)
owner-Inv (owner_joins s e r c) v = ground arith

pub Step-Inv : {n : ℕ} {s t : System} → Step n s t → Inv n s → Inv n t
Step-Inv (by_worker w) v = worker-Inv w v
Step-Inv (by_owner o) v = owner-Inv o v

Reach-Inv : {n : ℕ} {s t : System} → Reach n s t → Inv n s → Inv n t
Reach-Inv here v = v
Reach-Inv (next r st) v = Step-Inv st (Reach-Inv r v)

-- In every state that the threads of a fresh stream reach, the free pool, the ring and the two threads
-- together own nine buffers, all of the packing mode's size, and the ring holds at most eight.
pub started-Inv :
    (packing : Bool) {t : System}
    → Reach (buffer_size_for packing) (started (for_streaming packing)) t
    → Inv (buffer_size_for packing) t
unfolding for_streaming
started-Inv packing r = Reach-Inv r (record {
  sized = (for_streaming-IsSized packing).0;
  slots = refl;
  total = refl;
  reader_sized = tt;
  consumer_sized = tt;
})
