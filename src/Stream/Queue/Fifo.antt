-- ===== src/Stream/Queue/Fifo.antt =====
-- Buffers reach the consumer in the order in which they were stored, none twice and none lost.
use mathlib.Core.List.{append-nil, append_assoc, map-append}
use libairspy_rs.Base.{◌≡◌, refl, sym, ap, ◌∙◌, List, [], ◌∷◌, ◌++◌, map, arith, true}
use libairspy_rs.Stream.{Buf}
use libairspy_rs.Stream.Queue.{
  SampleQueue, Op, acquires, pushes, pops, recycles, shuts, Event, stored, took, step, run,
}

abbrev pub contents : SampleQueue → List Buf
contents q = map (λ e. e.0) q.filled

abbrev pub stored_by : Event → List Buf
stored_by (stored buf) = buf ∷ []
stored_by _ = []

abbrev pub taken_by : Event → List Buf
taken_by (took buf d) = buf ∷ []
taken_by _ = []

abbrev pub stored_in : List Event → List Buf
stored_in [] = []
stored_in (e ∷ es) = stored_by e ++ stored_in es

abbrev pub taken_in : List Event → List Buf
taken_in [] = []
taken_in (e ∷ es) = taken_by e ++ taken_in es

step-order :
    (q : SampleQueue) (op : Op)
    → contents q ++ stored_by (step q op).0 ≡ taken_by (step q op).0 ++ contents (step q op).1
unfolding step
step-order q acquires = ground (arith, append-nil (contents q))
step-order q (pushes buf) =
    ground (arith, append-nil (contents q), map-append (λ e. e.0) q.filled ((buf, q.dropped) ∷ []))
step-order q pops = ground (arith, append-nil (contents q))
step-order q (recycles buf) = append-nil (contents q)
step-order q shuts = append-nil (contents q)

-- Over any sequence of calls, the buffers in the ring at the start followed by those stored since
-- are, in this order, the buffers taken followed by those still in the ring.
pub run-order :
    (q : SampleQueue) (ops : List Op)
    → contents q ++ stored_in (run q ops).0 ≡ taken_in (run q ops).0 ++ contents (run q ops).1
unfolding run
run-order q [] = append-nil (contents q)
run-order q (op ∷ ops) =
    sym (append_assoc (contents q) (stored_by e) (stored_in es))
    ∙ ap (λ l. l ++ stored_in es) (step-order q op)
    ∙ append_assoc (taken_by e) (contents q') (stored_in es)
    ∙ ap (◌++◌ (taken_by e)) (run-order q' ops)
    ∙ sym (append_assoc (taken_by e) (taken_in es) (contents (run q' ops).1))
  where
    e : Event
    e = (step q op).0

    q' : SampleQueue
    q' = (step q op).1

    es : List Event
    es = (run q' ops).0

step-shut :
    (q : SampleQueue) (op : Op)
    → q.is_shut ≡ true
    → (taken_by (step q op).0 ≡ []) × ((step q op).1.is_shut ≡ true)
unfolding step
step-shut q acquires h = ground arith
step-shut q (pushes buf) h = ground arith
step-shut q pops h = ground arith
step-shut q (recycles buf) h = (refl, h)
step-shut q shuts h = (refl, refl)

-- From a shut queue nothing more is taken, whatever is still in the ring, and it stays shut.
pub run-shut :
    (q : SampleQueue) (ops : List Op)
    → q.is_shut ≡ true
    → (taken_in (run q ops).0 ≡ []) × ((run q ops).1.is_shut ≡ true)
unfolding run
run-shut q [] h = (refl, h)
run-shut q (op ∷ ops) h =
    ground (arith, step-shut q op h, run-shut (step q op).1 ops (step-shut q op h).1)
