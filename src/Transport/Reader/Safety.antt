-- ===== src/Transport/Reader/Safety.antt =====
-- The reader never panics in its copy, and keeps its transfers in flight.
use libairspy_rs.Base.{
  ℕ, zero, suc, ◌+◌, ◌-◌, ◌<◌, ◌≤◌, ◌≡◌, refl, sym, ◌∙◌, ltb, Bool, true, false, Option, none, some,
  List, [], ◌∷◌, arith, length, All, ◌==◌, Bool-cases, inl, inr, ==_iff,
}
use libairspy_rs.Error.{
  TransferError, disconnected, stall, invalid_argument, cancelled, fault, unknown,
}
use libairspy_rs.Stream.{Buf, buffer_size_for}
use libairspy_rs.Stream.Queue.{
  SampleQueue, acquires, pushes, shuts, run, step, try_acquire_free, push_filled, shutdown,
  for_streaming,
}
use libairspy_rs.Stream.Queue.Bounds.{
  IsSized, Hands, step-IsSized, run-IsSized, for_streaming-IsSized,
}
use libairspy_rs.Transport.Reader.{
  Reader, Completion, Poll, Outcome, streams, stopped, panicked, handle_bulk_completion, hand_over,
  delivered, resubmit_or_stop, run_loop, run_bulk_stream, turn, turn_after, Turn, goes_on, breaks,
  crashes, transfer_count, saturating_inc, torn_down, drain, max_consecutive_transfer_errors,
}

abbrev SizedResult : ℕ → Option SampleQueue → Type 0
SizedResult n none = ⊥
SizedResult n (some q) = IsSized n q

acquire-IsSized : (n : ℕ) (q : SampleQueue) → IsSized n q → IsSized n (try_acquire_free q).1
unfolding step
acquire-IsSized n q v = step-IsSized n q acquires tt v

push-IsSized :
    (n : ℕ) (q : SampleQueue) (b : Buf) → length b ≡ n → IsSized n q → IsSized n (push_filled q b)
unfolding step
push-IsSized n q b h v = step-IsSized n q (pushes b) h v

shutdown-IsSized : (n : ℕ) (q : SampleQueue) → IsSized n q → IsSized n (shutdown q)
unfolding step
shutdown-IsSized n q v = step-IsSized n q shuts tt v

acquired-length :
    (n : ℕ) (q : SampleQueue) (b : Buf)
    → IsSized n q
    → (try_acquire_free q).0 ≡ some b
    → length b ≡ n
unfolding try_acquire_free
acquired-length n q b v e = ground arith

hand_over-sized :
    (n : ℕ) (q : SampleQueue) (c : Buf) → length c ≡ n → IsSized n q → SizedResult n (hand_over q c)
unfolding hand_over
hand_over-sized n q c h v = go (try_acquire_free q).0 refl
  where
    go : (o : Option Buf) → (try_acquire_free q).0 ≡ o → SizedResult n (hand_over q c)
    go none e = rw (e, hand_over) (acquire-IsSized n q v)
    go (some b) e =
        rw (e, hand_over, (==_iff (length b) (length c)).1 (acquired-length n q b v e ∙ sym h))
          (push-IsSized n _ c h (acquire-IsSized n q v))

-- A turn that goes on keeps k transfers in flight.
abbrev SafeTurn : ℕ → ℕ → Turn → Type 0
SafeTurn n k (goes_on r) = IsSized n r.queue × (r.pending ≡ k)
SafeTurn n k (breaks r) = IsSized n r.queue × (r.pending ≤ k)
SafeTurn n k crashes = ⊥

resubmit-Safe :
    (n k : ℕ) (r : Reader)
    → r.pending + 1 ≡ k
    → IsSized n r.queue
    → SafeTurn n k (turn_after (some (resubmit_or_stop r)))
unfolding resubmit_or_stop
resubmit-Safe n k r h v =
    elim (Bool-cases (ltb max_consecutive_transfer_errors (saturating_inc r.errors.consecutive))) [
      | inl e ↦ rw e (v, omega (arith, h))
      | inr e ↦ rw e (v, h)
    ]

delivered-Safe :
    (n k : ℕ) (r : Reader) (o : Option SampleQueue)
    → r.pending + 1 ≡ k
    → SizedResult n o
    → SafeTurn n k (turn_after (delivered r o))
delivered-Safe n k r none h v = absurd v
delivered-Safe n k r (some q) h v = (v, h)

completion-Safe :
    (n k : ℕ) (r : Reader) (o : Option TransferError) (b : Buf)
    → r.pending + 1 ≡ k
    → IsSized n r.queue
    → SafeTurn n k (turn_after (handle_bulk_completion n r (record { status = o; buffer = b })))
unfolding handle_bulk_completion
completion-Safe n k r none b h v = elim (Bool-cases (length b == n)) [
  | inl e ↦ rw e (
      delivered-Safe n k r (hand_over r.queue b) h
        (hand_over-sized n r.queue b ((==_iff (length b) n).0 e) v))
  | inr e ↦ rw e (resubmit-Safe n k r h v)
]
completion-Safe n k r (some disconnected) b h v = (v, omega (arith, h))
completion-Safe n k r (some stall) b h v = (v, omega (arith, h))
completion-Safe n k r (some invalid_argument) b h v = (v, omega (arith, h))
completion-Safe n k r (some cancelled) b h v = resubmit-Safe n k r h v
completion-Safe n k r (some fault) b h v = resubmit-Safe n k r h v
completion-Safe n k r (some (unknown e)) b h v = resubmit-Safe n k r h v

turn-Safe :
    (n k : ℕ) (r : Reader) (p : Poll)
    → 0 < k
    → All (Hands n) p.others
    → IsSized n r.queue
    → r.pending ≡ k
    → SafeTurn n k (turn n r p)
unfolding turn
turn-Safe n k r p pos h v e = go p.is_running p.completion refl refl
  where
    v' : IsSized n (run r.queue p.others).1
    v' = (run-IsSized n p.others r.queue h v).0

    go :
        (b : Bool) (o : Option Completion)
        → p.is_running ≡ b
        → p.completion ≡ o
        → SafeTurn n k (turn n r p)
    go false o er eo = rw (er, turn) (v', omega (arith, e))
    go true none er eo = rw (er, eo, turn) (v', e)
    go true (some c) er eo =
        rw (er, eo, turn) (completion-Safe n k _ c.status c.buffer (omega arith) v')

-- The loop's end, before the transfers are drained.
LoopSafe : ℕ → Outcome → Type 0
LoopSafe n (streams r) = IsSized n r.queue × (r.pending ≡ transfer_count)
LoopSafe n (stopped r) = IsSized n r.queue × (r.pending ≤ transfer_count)
LoopSafe n panicked = ⊥

loop-Safe :
    (n : ℕ) (ps : List Poll) (r : Reader)
    → All (λ p. All (Hands n) p.others) ps
    → IsSized n r.queue
    → r.pending ≡ transfer_count
    → LoopSafe n (run_loop n r ps)
unfolding run_loop LoopSafe
loop-Safe n [] r h v e = (v, e)
loop-Safe n (p ∷ ps) r h v e =
    next (turn n r p) (turn-Safe n transfer_count r p (omega arith) h.0 v e)
      (λ r' v' e'. loop-Safe n ps r' h.1 v' e')
  where
    next :
        (t : Turn)
        → SafeTurn n transfer_count t
        → ((r' : Reader)
            → IsSized n r'.queue
            → r'.pending ≡ transfer_count
            → LoopSafe n (run_loop n r' ps))
        → LoopSafe n
            (elim t [ goes_on r' ↦ run_loop n r' ps | breaks r' ↦ stopped r' | crashes ↦ panicked ])
    next (goes_on r') (v', e') ih = ih r' v' e'
    next (breaks r') v' ih = v'
    next crashes b ih = absurd b

-- The waits of the drain that bring a completion before one times out.
abbrev pub prompt : List Bool → ℕ
prompt [] = 0
prompt (false ∷ waits) = 0
prompt (true ∷ waits) = suc (prompt waits)

drain-bound : (pending : ℕ) (waits : List Bool) → drain pending waits ≡ pending - prompt waits
unfolding drain
drain-bound zero waits = omega arith
drain-bound (suc pending) [] = omega arith
drain-bound (suc pending) (false ∷ waits) = omega arith
drain-bound (suc pending) (true ∷ waits) = omega (arith, drain-bound pending waits)

abbrev pub SafeOutcome : ℕ → List Bool → Outcome → Type 0
SafeOutcome n waits (streams r) = IsSized n r.queue × (r.pending ≡ transfer_count)
SafeOutcome n waits (stopped r) =
    IsSized n r.queue
    × (r.queue.is_shut ≡ true)
    × (r.streaming ≡ false)
    × (r.pending ≤ transfer_count - prompt waits)
SafeOutcome n waits panicked = ⊥

is_shut-shutdown : (q : SampleQueue) → (shutdown q).is_shut ≡ true
unfolding shutdown
is_shut-shutdown q = refl

torn_down-Safe :
    (n : ℕ) (waits : List Bool) (o : Outcome)
    → LoopSafe n o
    → SafeOutcome n waits (torn_down waits o)
unfolding LoopSafe
torn_down-Safe n waits (streams r) h = h
torn_down-Safe n waits (stopped r) h = (
  shutdown-IsSized n r.queue h.0,
  is_shut-shutdown r.queue,
  refl,
  omega (arith, drain-bound r.pending waits, h.1),
)
torn_down-Safe n waits panicked h = absurd h

-- Whatever completions arrive and whatever calls the other threads make of the queue with buffers of
-- the stream's size, the reader of a fresh stream never panics, whether or not its endpoint opens. It still
-- streams with sixteen transfers in flight; or it has stopped with the queue shut and the streaming flag
-- cleared, and with no transfer in flight if as many waits of the drain are answered in time as there are
-- transfers: at most sixteen less the waits that are answered before one times out.
pub bulk_stream_safe :
    (packing opens : Bool) (ps : List Poll) (waits : List Bool)
    → All (λ p. All (Hands (buffer_size_for packing)) p.others) ps
    → SafeOutcome
        (buffer_size_for packing)
        waits
        (run_bulk_stream (buffer_size_for packing) (for_streaming packing) opens ps waits)
unfolding run_bulk_stream
bulk_stream_safe packing true ps waits h =
    torn_down-Safe (buffer_size_for packing) waits _
      (loop-Safe (buffer_size_for packing) ps _ h (for_streaming-IsSized packing).0 refl)
bulk_stream_safe packing false ps waits h = (
  shutdown-IsSized (buffer_size_for packing) (for_streaming packing)
      (for_streaming-IsSized packing).0,
  is_shut-shutdown (for_streaming packing),
  refl,
  omega arith,
)
