-- ===== src/Stream/Queue/Losses.antt =====
-- `Transfer::dropped_samples` accounts for every buffer that was discarded.
use libairspy_rs.Base.{ℕ, ◌+◌, ◌≤◌, ◌≡◌, List, [], ◌∷◌, ◌++◌, arith}
use libairspy_rs.Stream.{Buf}
use libairspy_rs.Stream.Queue.{
  SampleQueue, Op, acquires, pushes, pops, recycles, shuts, Event, lost, took, step, run, u32_max,
}

-- The dropped counts that wait in the ring.
abbrev pub queued_drops : List (Buf × ℕ) → ℕ
queued_drops [] = 0
queued_drops ((buf, d) ∷ es) = d + queued_drops es

queued_drops-append :
    (xs ys : List (Buf × ℕ)) → queued_drops (xs ++ ys) ≡ queued_drops xs + queued_drops ys
queued_drops-append [] ys = omega arith
queued_drops-append ((buf, d) ∷ xs) ys = omega (arith, queued_drops-append xs ys)

-- Drops that the consumer has not been told of yet.
abbrev pub pending_drops : SampleQueue → ℕ
pending_drops q = q.dropped + queued_drops q.filled

abbrev pub lost_by : Event → ℕ
lost_by lost = 1
lost_by _ = 0

abbrev pub reported_by : Event → ℕ
reported_by (took buf d) = d
reported_by _ = 0

abbrev pub losses : List Event → ℕ
losses [] = 0
losses (e ∷ es) = lost_by e + losses es

abbrev pub reported : List Event → ℕ
reported [] = 0
reported (e ∷ es) = reported_by e + reported es

step-drops :
    (q : SampleQueue) (op : Op)
    → q.dropped + lost_by (step q op).0 ≤ u32_max
    → pending_drops q + lost_by (step q op).0
      ≡ reported_by (step q op).0 + pending_drops (step q op).1
unfolding step
step-drops q acquires h = ground arith
step-drops q (pushes buf) h = ground (arith, queued_drops-append q.filled ((buf, q.dropped) ∷ []))
step-drops q pops h = ground arith
step-drops q (recycles buf) h = omega arith
step-drops q shuts h = omega arith

step-dropped-le :
    (q : SampleQueue) (op : Op) → (step q op).1.dropped ≤ q.dropped + lost_by (step q op).0
unfolding step
step-dropped-le q acquires = ground arith
step-dropped-le q (pushes buf) = ground arith
step-dropped-le q pops = ground arith
step-dropped-le q (recycles buf) = omega arith
step-dropped-le q shuts = omega arith

-- Over any sequence of calls of the queue, the drops that waited at the start and those that happened
-- since are exactly the drops reported with delivered buffers and those that still wait, as long as
-- their number fits the 32-bit counter.
pub run-drops :
    (q : SampleQueue) (ops : List Op)
    → q.dropped + losses (run q ops).0 ≤ u32_max
    → pending_drops q + losses (run q ops).0 ≡ reported (run q ops).0 + pending_drops (run q ops).1
unfolding run
run-drops q [] h = omega arith
run-drops q (op ∷ ops) h = omega (
  arith,
  step-drops q op (omega arith),
  run-drops (step q op).1 ops (omega (arith, step-dropped-le q op)),
)
