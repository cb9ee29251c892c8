-- ===== src/Stream/System/Stopping.antt =====
-- What a stop does: it is final, at most one callback is still to return, and the joins end.
use libairspy_rs.Base.{ℕ, ◌+◌, ◌≤◌, ◌≡◌, refl, sym, subst, true, false, arith, length}
use libairspy_rs.Stream.{Buf}
use libairspy_rs.Stream.Queue.{
  SampleQueue, try_acquire_free, push_filled, pop_filled, recycle, shutdown,
}
use libairspy_rs.Stream.System.{
  System, running, ConsumerPc, calling, OwnerPc, idle, requested, cleared, joining, joined, started,
  WorkerStep, reader_goes_on, reader_sees_stop, reader_passes, reader_gives_up, reader_acquires,
  reader_pushes, reader_shuts, consumer_goes_on, consumer_sees_stop, consumer_finds_shut,
  consumer_pops, consumer_delivers, consumer_discards, callback_returns_true,
  callback_returns_false, OwnerStep, owner_requests, owner_clears, owner_shuts, owner_joins, Step,
  by_worker, by_owner, Reach, here, next,
}

-- What the owner's stores have established at each stage of `stop_rx`.
abbrev pub Stage : OwnerPc → System → Type 0
Stage idle s = s.stop_requested ≡ false
Stage requested s = s.stop_requested ≡ true
Stage cleared s = (s.stop_requested ≡ true) × (s.streaming ≡ false)
Stage joining s = (s.stop_requested ≡ true) × (s.streaming ≡ false) × (s.queue.is_shut ≡ true)
Stage joined s = s.streaming ≡ false

is_shut-acquire : (q : SampleQueue) → (try_acquire_free q).1.is_shut ≡ q.is_shut
unfolding try_acquire_free
is_shut-acquire q = ground arith

is_shut-push : (q : SampleQueue) (buf : Buf) → (push_filled q buf).is_shut ≡ q.is_shut
unfolding push_filled
is_shut-push q buf = ground arith

is_shut-pop : (q : SampleQueue) → (pop_filled q).1.is_shut ≡ q.is_shut
unfolding pop_filled
is_shut-pop q = ground arith

-- A worker never sets a flag that a stop has cleared, and never reopens the queue.
record Calmer (s t : System) : Type 0 where
  same_owner : t.owner ≡ s.owner
  same_request : t.stop_requested ≡ s.stop_requested
  no_restart : s.streaming ≡ false → t.streaming ≡ false
  stays_shut : s.queue.is_shut ≡ true → t.queue.is_shut ≡ true

worker-Calmer : {n : ℕ} {s t : System} → WorkerStep n s t → Calmer s t
unfolding recycle shutdown
worker-Calmer (reader_goes_on s e r) = ground arith
worker-Calmer (reader_sees_stop s e r) = ground arith
worker-Calmer (reader_passes s e) = ground arith
worker-Calmer (reader_gives_up s e) = ground arith
worker-Calmer (reader_acquires s c e h) = ground (arith, is_shut-acquire s.queue)
worker-Calmer (reader_pushes s c e) = ground (arith, is_shut-push s.queue c)
worker-Calmer (reader_shuts s e) = ground arith
worker-Calmer (consumer_goes_on s e r) = ground arith
worker-Calmer (consumer_sees_stop s e r) = ground arith
worker-Calmer (consumer_finds_shut s e r) = ground arith
worker-Calmer (consumer_pops s buf d e r) = ground (arith, is_shut-pop s.queue)
worker-Calmer (consumer_delivers s buf e r) = ground arith
worker-Calmer (consumer_discards s buf e r) = ground arith
worker-Calmer (callback_returns_true s buf e) = ground arith
worker-Calmer (callback_returns_false s buf e) = ground arith

Stage-Calmer : (o : OwnerPc) {s t : System} → Calmer s t → s.owner ≡ o → Stage o s → Stage o t
Stage-Calmer idle c e h = ground arith
Stage-Calmer requested c e h = ground arith
Stage-Calmer cleared c e h = ground arith
Stage-Calmer joining c e h = ground arith
Stage-Calmer joined c e h = ground arith

Step-Stage : {n : ℕ} {s t : System} → Step n s t → Stage s.owner s → Stage t.owner t
unfolding shutdown
Step-Stage {s = s} {t = t} (by_worker w) h =
    subst (λ o. Stage o t) (sym (worker-Calmer w).same_owner)
      (Stage-Calmer s.owner (worker-Calmer w) refl h)
Step-Stage (by_owner (owner_requests s e)) h = refl
Step-Stage (by_owner (owner_clears s e)) h = (subst (λ o. Stage o s) e h, refl)
Step-Stage (by_owner (owner_shuts s e)) h =
    ((subst (λ o. Stage o s) e h).0, (subst (λ o. Stage o s) e h).1, refl)
Step-Stage (by_owner (owner_joins s e r c)) h = (subst (λ o. Stage o s) e h).1

pub Reach-Stage : {n : ℕ} {q : SampleQueue} {t : System} → Reach n (started q) t → Stage t.owner t
Reach-Stage here = refl
Reach-Stage (next r st) = Step-Stage st (Reach-Stage r)

owner-stopped :
    {s t : System} → OwnerStep s t → Stage s.owner s → running s ≡ false → running t ≡ false
owner-stopped (owner_requests s e) h r = ground arith
owner-stopped (owner_clears s e) h r = ground arith
owner-stopped (owner_shuts s e) h r = r
owner-stopped (owner_joins s e re c) h r =
    let j : Stage joining s = subst (λ o. Stage o s) e h in ground arith

worker-stopped : {n : ℕ} {s t : System} → WorkerStep n s t → running s ≡ false → running t ≡ false
worker-stopped {s = s} {t = t} w r = ground (arith, worker-Calmer w)

-- Callbacks that have begun and not returned.
abbrev pub in_callback : ConsumerPc → ℕ
in_callback (calling buf) = 1
in_callback _ = 0

abbrev pub callbacks : System → ℕ
callbacks s = length s.calls + in_callback s.consumer

worker-callbacks :
    {n : ℕ} {s t : System} → WorkerStep n s t → running s ≡ false → callbacks t ≤ callbacks s
worker-callbacks (reader_goes_on s e r) h = ground arith
worker-callbacks (reader_sees_stop s e r) h = ground arith
worker-callbacks (reader_passes s e) h = ground arith
worker-callbacks (reader_gives_up s e) h = ground arith
worker-callbacks (reader_acquires s c e z) h = ground arith
worker-callbacks (reader_pushes s c e) h = ground arith
worker-callbacks (reader_shuts s e) h = ground arith
worker-callbacks (consumer_goes_on s e r) h = cc
worker-callbacks (consumer_sees_stop s e r) h = ground arith
worker-callbacks (consumer_finds_shut s e r) h = ground arith
worker-callbacks (consumer_pops s buf d e r) h = ground arith
worker-callbacks (consumer_delivers s buf e r) h = cc
worker-callbacks (consumer_discards s buf e r) h = ground arith
worker-callbacks (callback_returns_true s buf e) h = ground arith
worker-callbacks (callback_returns_false s buf e) h = ground arith

owner-callbacks : {s t : System} → OwnerStep s t → callbacks t ≤ callbacks s
owner-callbacks (owner_requests s e) = omega arith
owner-callbacks (owner_clears s e) = omega arith
owner-callbacks (owner_shuts s e) = omega arith
owner-callbacks (owner_joins s e r c) = omega arith

record After (s t : System) : Type 0 where
  stage : Stage t.owner t
  stopped : running t ≡ false
  bound : callbacks t ≤ callbacks s

Step-After : {n : ℕ} {s t u : System} → After s t → Step n t u → After s u
Step-After a (by_worker w) = record {
  stage = Step-Stage (by_worker w) a.stage;
  stopped = worker-stopped w a.stopped;
  bound = omega (arith, worker-callbacks w a.stopped, a.bound);
}
Step-After a (by_owner o) = record {
  stage = Step-Stage {n = 0} (by_owner o) a.stage;
  stopped = owner-stopped o a.stage a.stopped;
  bound = omega (arith, owner-callbacks o, a.bound);
}

Reach-After : {n : ℕ} {s t : System} → After s s → Reach n s t → After s t
Reach-After a here = a
Reach-After a (next r st) = Step-After (Reach-After a r) st

-- Once a stream is not running it never runs again, whatever the threads and the owner do, and from
-- then on at most the callback that has already begun, if there is one, still returns.
pub stop_final :
    {n : ℕ} (q : SampleQueue) {s t : System}
    → Reach n (started q) s
    → running s ≡ false
    → Reach n s t
    → (running t ≡ false) × (length t.calls ≤ length s.calls + in_callback s.consumer)
stop_final q {s} {t} before stop after = (a.stopped, omega (arith, a.bound))
  where
    a : After s t
    a =
        Reach-After (record { stage = Reach-Stage before; stopped = stop; bound = omega arith })
          after
