-- ===== src/Stream/Bridge/Dropping.antt =====
-- Dropping the iterator of reader.rs: the joins of `stop_rx` come to their end although the callback may be
-- blocked in a full channel.
use libairspy_rs.Base.{ℕ, ◌≤◌, ◌<◌, ◌≡◌, refl, true, false, length, ◌⊎◌, inl, inr, arith, ltb-false}
use libairspy_rs.Stream.{Buf}
use libairspy_rs.Stream.Queue.{SampleQueue}
use libairspy_rs.Stream.System.{
  System, reader_ended, consumer_ended, calling, idle, joining, started, WorkerStep, reader_goes_on,
  reader_sees_stop, reader_passes, reader_gives_up, reader_acquires, reader_pushes, reader_shuts,
  consumer_goes_on, consumer_sees_stop, consumer_finds_shut, consumer_pops, consumer_delivers,
  consumer_discards, callback_returns_true, callback_returns_false, by_worker, by_owner, Reach,
  here, next,
}
use libairspy_rs.Stream.System.Joining.{steps_left, CanStep, joins_shrink, joins_progress}
use libairspy_rs.Stream.Bridge.{
  Bridge, blocks, forward_transfer, WorkerMove, works, sends, fails, receives, disconnects, stops,
  Runs, begins, worker_moves, iter_moves,
}

-- Every worker's move is one of the plain stream.
move-step : {n : ℕ} {b c : Bridge} → WorkerMove n b c → WorkerStep n b.system c.system
move-step (works b t w e) = w
move-step (sends b buf channel e f) = callback_returns_true b.system buf e
move-step (fails b buf e f) = callback_returns_false b.system buf e

Runs-Reach : {n : ℕ} {q : SampleQueue} {b : Bridge} → Runs n q b → Reach n (started q) b.system
Runs-Reach begins = here
Runs-Reach (worker_moves r m) = next (Runs-Reach r) (by_worker (move-step m))
Runs-Reach (iter_moves r (receives b buf rest o e f)) = Runs-Reach r
Runs-Reach (iter_moves r (disconnects b o e)) = Runs-Reach r
Runs-Reach (iter_moves r (stops b t e w)) = next (Runs-Reach r) (by_owner w)

worker-owner : {n : ℕ} {s t : System} → WorkerStep n s t → t.owner ≡ s.owner
worker-owner (reader_goes_on s e r) = refl
worker-owner (reader_sees_stop s e r) = refl
worker-owner (reader_passes s e) = refl
worker-owner (reader_gives_up s e) = refl
worker-owner (reader_acquires s c e z) = refl
worker-owner (reader_pushes s c e) = refl
worker-owner (reader_shuts s e) = refl
worker-owner (consumer_goes_on s e r) = refl
worker-owner (consumer_sees_stop s e r) = refl
worker-owner (consumer_finds_shut s e r) = refl
worker-owner (consumer_pops s buf d e r) = refl
worker-owner (consumer_delivers s buf e r) = refl
worker-owner (consumer_discards s buf e r) = refl
worker-owner (callback_returns_true s buf e) = refl
worker-owner (callback_returns_false s buf e) = refl

move-receiver : {n : ℕ} {b c : Bridge} → WorkerMove n b c → c.receiver ≡ b.receiver
move-receiver (works b t w e) = refl
move-receiver (sends b buf channel e f) = refl
move-receiver (fails b buf e f) = refl

-- The order of the drop: `stop_rx` has not begun, or the receiver is gone.
Ordered : Bridge → Type 0
Ordered b = (b.system.owner ≡ idle) ⊎ (b.receiver ≡ false)

Runs-Ordered : {n : ℕ} {q : SampleQueue} {b : Bridge} → Runs n q b → Ordered b
unfolding Ordered
Runs-Ordered begins = inl refl
Runs-Ordered (worker_moves r m) =
    ground (arith, Runs-Ordered r, worker-owner (move-step m), move-receiver m)
Runs-Ordered (iter_moves r (receives b buf rest o e f)) = inl o
Runs-Ordered (iter_moves r (disconnects b o e)) = inr refl
Runs-Ordered (iter_moves r (stops b t e w)) = inr e

-- A step either leaves the calls alone or returns from the callback.
callback_or_not :
    {n : ℕ} {s t : System}
    → WorkerStep n s t
    → (t.calls ≡ s.calls) ⊎ ((buf : Buf) × (s.consumer ≡ calling buf))
callback_or_not (reader_goes_on s e r) = inl refl
callback_or_not (reader_sees_stop s e r) = inl refl
callback_or_not (reader_passes s e) = inl refl
callback_or_not (reader_gives_up s e) = inl refl
callback_or_not (reader_acquires s c e z) = inl refl
callback_or_not (reader_pushes s c e) = inl refl
callback_or_not (reader_shuts s e) = inl refl
callback_or_not (consumer_goes_on s e r) = inl refl
callback_or_not (consumer_sees_stop s e r) = inl refl
callback_or_not (consumer_finds_shut s e r) = inl refl
callback_or_not (consumer_pops s buf d e r) = inl refl
callback_or_not (consumer_delivers s buf e r) = inl refl
callback_or_not (consumer_discards s buf e r) = inl refl
callback_or_not (callback_returns_true s buf e) = inr (buf, e)
callback_or_not (callback_returns_false s buf e) = inr (buf, e)

abbrev pub CanMove : ℕ → Bridge → Type 0
CanMove n b = (c : Bridge) × WorkerMove n b c

-- Without a receiver the callback returns, so whatever step the plain stream has, the bridge has one too.
lift : {n : ℕ} {b : Bridge} → b.receiver ≡ false → CanStep n b.system → CanMove n b
unfolding forward_transfer
lift {n} {b} gone (t, w) = go (callback_or_not w)
  where
    go :
        (t.calls ≡ b.system.calls) ⊎ ((buf : Buf) × (b.system.consumer ≡ calling buf)) → CanMove n b
    go (inl e) = (record b { system = t }, works b t w e)
    go (inr (buf, e)) = (_, fails b buf e (rw gone refl))

-- While `stop_rx` joins the threads of a dropped iterator there is no deadlock, also if the callback was
-- blocked in a full channel: both workers have ended, or one of them has a step to take; each step lowers the
-- number of steps that they have left, and that is at most six.
pub drop_ends :
    {n : ℕ} {q : SampleQueue} {b : Bridge}
    → Runs n q b
    → b.system.owner ≡ joining
    → (steps_left b.system ≤ 6)
      × (((b.system.reader ≡ reader_ended) × (b.system.consumer ≡ consumer_ended)) ⊎ CanMove n b)
      × ((c : Bridge) → WorkerMove n b c → steps_left c.system < steps_left b.system)
unfolding Ordered
drop_ends {n} {q} {b} r e =
    let plain = joins_progress q (Runs-Reach r) e in
    (plain.0, ended_or plain.1, λ c m. joins_shrink q (Runs-Reach r) e (move-step m))
  where
    gone : Ordered b → b.receiver ≡ false
    gone (inl o) = absurd (cc (o, e))
    gone (inr g) = g

    ended_or :
        ((b.system.reader ≡ reader_ended) × (b.system.consumer ≡ consumer_ended))
          ⊎ CanStep n b.system
        → ((b.system.reader ≡ reader_ended) × (b.system.consumer ≡ consumer_ended)) ⊎ CanMove n b
    ended_or (inl h) = inl h
    ended_or (inr c) = inr (lift (gone (Runs-Ordered r)) c)

-- In the other order it could: with the receiver alive and the channel full, a consumer that is in the callback
-- has no step.
pub full_channel-blocks :
    (b : Bridge) (buf : Buf)
    → b.receiver ≡ true
    → 8 ≤ length b.channel
    → forward_transfer b.receiver b.channel buf ≡ blocks
unfolding forward_transfer
full_channel-blocks b buf alive full = rw (alive, ltb-false (length b.channel) 8 full) refl
