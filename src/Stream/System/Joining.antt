-- ===== src/Stream/System/Joining.antt =====
-- The joins of `stop_rx`: both threads come to their end.
use libairspy_rs.Base.{
  ℕ, ◌+◌, ◌≤◌, ◌<◌, ◌≡◌, refl, subst, true, arith, inl, inr, ◌⊎◌, Option, none, some,
}
use libairspy_rs.Stream.{Buf}
use libairspy_rs.Stream.Queue.{SampleQueue, try_acquire_free, pop_filled, shut}
use libairspy_rs.Stream.System.{
  System, ReaderPc, polling, awaiting, closing, reader_ended, filling, ConsumerPc, testing, popping,
  consumer_ended, checking, calling, joining, after_acquire, started, WorkerStep, reader_goes_on,
  reader_sees_stop, reader_passes, reader_gives_up, reader_acquires, reader_pushes, reader_shuts,
  consumer_goes_on, consumer_sees_stop, consumer_finds_shut, consumer_pops, consumer_delivers,
  consumer_discards, callback_returns_true, callback_returns_false, Reach,
}
use libairspy_rs.Stream.System.Stopping.{Stage, Reach-Stage}

-- How many steps a worker can still take once the owner joins it.
abbrev pub reader_left : ReaderPc → ℕ
reader_left awaiting = 4
reader_left (filling buf) = 3
reader_left polling = 2
reader_left closing = 1
reader_left reader_ended = 0

abbrev pub consumer_left : ConsumerPc → ℕ
consumer_left (calling buf) = 2
consumer_left testing = 1
consumer_left popping = 1
consumer_left (checking buf) = 1
consumer_left consumer_ended = 0

abbrev pub steps_left : System → ℕ
steps_left s = reader_left s.reader + consumer_left s.consumer

reader_left-acquire : (c : Buf) (o : Option Buf) → reader_left (after_acquire c o) ≤ 3
reader_left-acquire c none = omega arith
reader_left-acquire c (some buf) = omega arith

pop-shut : (q : SampleQueue) → q.is_shut ≡ true → (pop_filled q).0 ≡ shut
unfolding pop_filled
pop-shut q h = ground arith

joining-decreases :
    {n : ℕ} {s t : System} → WorkerStep n s t → Stage joining s → steps_left t < steps_left s
joining-decreases (reader_goes_on s e r) h = ground arith
joining-decreases (reader_sees_stop s e r) h = ground arith
joining-decreases (reader_passes s e) h = ground arith
joining-decreases (reader_gives_up s e) h = ground arith
joining-decreases (reader_acquires s c e z) h =
    ground (arith, reader_left-acquire c (try_acquire_free s.queue).0)
joining-decreases (reader_pushes s c e) h = ground arith
joining-decreases (reader_shuts s e) h = ground arith
joining-decreases (consumer_goes_on s e r) h = ground arith
joining-decreases (consumer_sees_stop s e r) h = ground arith
joining-decreases (consumer_finds_shut s e r) h = ground arith
joining-decreases (consumer_pops s buf d e r) h = cc (pop-shut s.queue h.2)
joining-decreases (consumer_delivers s buf e r) h = ground arith
joining-decreases (consumer_discards s buf e r) h = ground arith
joining-decreases (callback_returns_true s buf e) h = ground arith
joining-decreases (callback_returns_false s buf e) h = ground arith

abbrev pub CanStep : ℕ → System → Type 0
CanStep n s = (t : System) × WorkerStep n s t

reader-progress :
    (n : ℕ) (s : System) (pc : ReaderPc)
    → s.reader ≡ pc
    → Stage joining s
    → (pc ≡ reader_ended) ⊎ CanStep n s
reader-progress n s reader_ended e h = inl refl
reader-progress n s polling e h = inr (_, reader_sees_stop s e (ground arith))
reader-progress n s awaiting e h = inr (_, reader_passes s e)
reader-progress n s (filling buf) e h = inr (_, reader_pushes s buf e)
reader-progress n s closing e h = inr (_, reader_shuts s e)

consumer-progress :
    (n : ℕ) (s : System) (pc : ConsumerPc)
    → s.consumer ≡ pc
    → Stage joining s
    → (pc ≡ consumer_ended) ⊎ CanStep n s
consumer-progress n s consumer_ended e h = inl refl
consumer-progress n s testing e h = inr (_, consumer_sees_stop s e (ground arith))
consumer-progress n s popping e h = inr (_, consumer_finds_shut s e (pop-shut s.queue h.2))
consumer-progress n s (checking buf) e h = inr (_, consumer_discards s buf e (ground arith))
consumer-progress n s (calling buf) e h = inr (_, callback_returns_true s buf e)

-- While `stop_rx` joins the threads, each step of a worker lowers the number of steps that the workers
-- have left.
pub joins_shrink :
    {n : ℕ} (q : SampleQueue) {s t : System}
    → Reach n (started q) s
    → s.owner ≡ joining
    → WorkerStep n s t
    → steps_left t < steps_left s
joins_shrink q {s} r e w = joining-decreases w (subst (λ o. Stage o s) e (Reach-Stage r))

-- While `stop_rx` joins the threads it cannot wait forever: both workers have ended, or one of them has a
-- step to take; every step that a worker takes, whichever it is, lowers the number of steps that they have
-- left, and that is at most six. (A wait for a completion is taken to time out, and the callback to return.)
pub joins_progress :
    {n : ℕ} (q : SampleQueue) {s : System}
    → Reach n (started q) s
    → s.owner ≡ joining
    → (steps_left s ≤ 6)
      × (((s.reader ≡ reader_ended) × (s.consumer ≡ consumer_ended)) ⊎ CanStep n s)
      × ((t : System) → WorkerStep n s t → steps_left t < steps_left s)
joins_progress {n} q {s} r e = (bounded s.reader s.consumer, both, λ t w. joins_shrink q r e w)
  where
    j : Stage joining s
    j = subst (λ o. Stage o s) e (Reach-Stage r)

    bounded : (a : ReaderPc) (b : ConsumerPc) → reader_left a + consumer_left b ≤ 6
    bounded a b = ground arith

    both : ((s.reader ≡ reader_ended) × (s.consumer ≡ consumer_ended)) ⊎ CanStep n s
    both =
        ground (arith, reader-progress n s s.reader refl j, consumer-progress n s s.consumer refl j)
