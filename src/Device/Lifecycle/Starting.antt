-- ===== src/Device/Lifecycle/Starting.antt =====
-- Starting a stream (crates/libairspy/src/stream.rs, `impl Device`), and the workers of an ended one.
use libairspy_rs.Base.{
  ◌≡◌, refl, sym, ap, ◌∙◌, subst, Bool, true, false, Bool-cases, inl, inr, ◌⊎◌, some, none,
  Option-cases, List, [], ◌∷◌, arith, if◌then◌else◌, ◌&&◌,
}
use libairspy_rs.Commands.{mode_value, off, rx}
use libairspy_rs.Error.{Error, Result, ok, err}
use libairspy_rs.Transport.{
  UsbTransport, Bus, Call, Worker, reader, consumer, clear_halt, spawn, join,
}
use libairspy_rs.Device.{
  Device, StreamFlags, running, is_streaming, vendor_out, perform, bulk_endpoint,
}
use libairspy_rs.Device.Requests.{
  Result-cases, Tried, all_sent, sent, Tries, then-Tries, last-Tries,
}
use libairspy_rs.Device.Lifecycle.{
  set_receiver_mode, reap_finished_workers, start_rx, after_reaping, prepare_receiver,
  spawn_workers, joined, without_workers, ignoring,
}
use libairspy_rs.Device.Lifecycle.Streaming.{
  set_receiver_mode-Makes, set_receiver_mode-Answers, last_mode, mode_call,
}

pub flags_running : (d : Device) (w : StreamFlags) → d.workers ≡ some w → is_streaming d ≡ running w
unfolding is_streaming
flags_running d w e = rw (e) refl

pub reap-live :
    (d : Device) (bus : Bus) (w : StreamFlags)
    → d.workers ≡ some w
    → running w ≡ true
    → reap_finished_workers d bus ≡ ((err Error.busy, d), bus)
unfolding reap_finished_workers
reap-live d bus w e r = rw (e, r) refl

pub reap-ended :
    (d : Device) (bus : Bus) (w : StreamFlags)
    → d.workers ≡ some w
    → running w ≡ false
    → reap_finished_workers d bus ≡ ((ok tt, without_workers d), join consumer ∷ join reader ∷ bus)
unfolding reap_finished_workers
reap-ended d bus w e r = rw (e, r) refl

pub reap-none :
    (d : Device) (bus : Bus) → d.workers ≡ none → reap_finished_workers d bus ≡ ((ok tt, d), bus)
unfolding reap_finished_workers
reap-none d bus e = rw (e) refl

pub not_streaming : (d : Device) → d.workers ≡ none → is_streaming d ≡ false
unfolding is_streaming
not_streaming d e = rw (e) refl

pub reap-streaming :
    (d : Device) (bus : Bus)
    → is_streaming d ≡ true
    → reap_finished_workers d bus ≡ ((err Error.busy, d), bus)
reap-streaming d bus h = elim (Option-cases d.workers) [
  | inl e ↦ absurd (ground (arith, sym (not_streaming d e) ∙ h))
  | inr p ↦ reap-live d bus p.0 p.1 (sym (flags_running d p.0 p.1) ∙ h)
]

-- The requests of a start, before its threads.
abbrev pub start_calls : List Call
start_calls = mode_call off ∷ clear_halt 0x81 ∷ mode_call rx ∷ []

-- How a start that is not refused ends: streaming, with the receiver on; for want of a thread, without workers
-- and with the receiver switched off behind the threads that were started; or with the error of a request,
-- before any thread is started. `before` is the wire at its first request, `ready` that behind its last.
module _ (t : UsbTransport) (spawns : Bus → Worker → Bool) where
  abbrev pub both_start : Bus → Bool
  both_start ready = spawns ready consumer && spawns (spawn consumer ∷ ready) reader

  -- What the threads leave on the wire.
  abbrev pub thread_calls : Bus → Bus
  thread_calls ready =
      if spawns ready consumer
      then (if spawns (spawn consumer ∷ ready) reader
          then spawn reader ∷ spawn consumer ∷ ready
          else mode_call off ∷ join consumer ∷ spawn reader ∷ spawn consumer ∷ ready)
      else mode_call off ∷ spawn consumer ∷ ready

  pub record Started (before : Bus) (out : (Result (Unit {0}) × Device) × Bus) : Type 0 where
    pub ready : Bus
    pub tried : Tried t start_calls before (ok tt) ready
    pub threads : both_start ready ≡ true
    pub succeeds : out.0.0 ≡ ok tt
    pub live : is_streaming out.0.1 ≡ true
    pub wire : out.1 ≡ thread_calls ready
    pub receiver_on : last_mode out.1 ≡ some 1

  pub record NoThread (before : Bus) (out : (Result (Unit {0}) × Device) × Bus) : Type 0 where
    pub ready : Bus
    pub tried : Tried t start_calls before (ok tt) ready
    pub threads : both_start ready ≡ false
    pub fails : out.0.0 ≡ err Error.thread
    pub no_workers : out.0.1.workers ≡ none
    pub wire : out.1 ≡ thread_calls ready
    pub receiver_off : last_mode out.1 ≡ some 0

  pub record NoReceiver (before : Bus) (out : (Result (Unit {0}) × Device) × Bus) : Type 0 where
    pub error : Error
    pub tried : Tried t start_calls before (err error) out.1
    pub fails : out.0.0 ≡ err error
    pub no_workers : out.0.1.workers ≡ none

  abbrev pub StartEnds : Bus → (Result (Unit {0}) × Device) × Bus → Type 0
  StartEnds before out = Started before out ⊎ NoThread before out ⊎ NoReceiver before out

  ignored_off : (b : Bus) → ignoring (set_receiver_mode t off) b ≡ mode_call off ∷ b
  ignored_off b = set_receiver_mode-Makes t off b

  Tried-mode :
      {before ready : Bus} → Tried t start_calls before (ok tt) ready → last_mode ready ≡ some 1
  unfolding mode_value
  Tried-mode (sent a (sent b (sent c all_sent))) = refl

  spawn-StartEnds :
      (d : Device) (before ready : Bus)
      → d.workers ≡ none
      → Tried t start_calls before (ok tt) ready
      → StartEnds before (spawn_workers t spawns d ready)
  unfolding spawn_workers is_streaming running mode_value
  spawn-StartEnds d before b hd tried = elim (Bool-cases (spawns b consumer)) [
    | inl c ↦ elim (Bool-cases (spawns (spawn consumer ∷ b) reader)) [
      | inl r ↦ inl (record {
        ready = b;
        tried = tried;
        threads = rw (c, r) refl;
        succeeds = rw (c, r) refl;
        live = rw (c, r) refl;
        wire = rw (c, r) refl;
        receiver_on = rw (c, r) (Tried-mode tried);
      })
      | inr r ↦ inr (
          inl (record {
            ready = b;
            tried = tried;
            threads = rw (c, r) refl;
            fails = rw (c, r) refl;
            no_workers = rw (c, r) hd;
            wire = rw (c, r) (ignored_off (join consumer ∷ spawn reader ∷ spawn consumer ∷ b));
            receiver_off =
                rw (c, r)
                  (ap last_mode (ignored_off (join consumer ∷ spawn reader ∷ spawn consumer ∷ b)));
          }))
    ]
    | inr c ↦ inr (
        inl (record {
          ready = b;
          tried = tried;
          threads = rw (c) refl;
          fails = rw (c) refl;
          no_workers = rw (c) hd;
          wire = rw (c) (ignored_off (spawn consumer ∷ b));
          receiver_off = rw (c) (ap last_mode (ignored_off (spawn consumer ∷ b)));
        }))
  ]

  prepare_receiver-Tries : Tries t start_calls (prepare_receiver t spawns)
  unfolding prepare_receiver
  prepare_receiver-Tries =
      then-Tries t (mode_call off) _ (set_receiver_mode t off) _ (set_receiver_mode-Makes t off)
        (set_receiver_mode-Answers t off)
        (then-Tries t (clear_halt bulk_endpoint) _ (perform (clear_halt bulk_endpoint))
          (set_receiver_mode t rx) (λ b. refl) (λ b. refl)
          (last-Tries t (mode_call rx) (set_receiver_mode t rx) (set_receiver_mode-Makes t rx)
            (set_receiver_mode-Answers t rx)))

  start-StartEnds :
      (d : Device) (b : Bus)
      → d.workers ≡ none
      → StartEnds b (after_reaping t spawns ((ok tt, d), b))
  unfolding after_reaping prepare_receiver set_receiver_mode vendor_out
  start-StartEnds d b hd = elim (Result-cases (prepare_receiver t spawns b).0) [
    | inr p ↦
        let tried : Tried t start_calls b (err p.0) (prepare_receiver t spawns b).1 =
          subst (λ r. Tried t start_calls b r (prepare_receiver t spawns b).1) p.1
            (prepare_receiver-Tries b) in
        rw (p.1) (inr (inr (record { error = p.0; tried = tried; fails = refl; no_workers = hd })))
    | inl p ↦
        let tried : Tried t start_calls b (ok tt) (prepare_receiver t spawns b).1 =
          subst (λ r. Tried t start_calls b r (prepare_receiver t spawns b).1) p.1
            (prepare_receiver-Tries b) in
        rw (p.1) (spawn-StartEnds d b (prepare_receiver t spawns b).1 hd tried)
  ]

-- Every call of `start_rx` on a device that does not stream joins the workers of an ended stream, sends OFF,
-- clears the endpoint's halt and sends RX, and ends in one of three ways. A request fails: the result is its
-- error, nothing more is sent and there are no workers. Or both threads start: the result is `Ok`, the stream
-- is live and the last mode request is RX. Or a thread does not start: the result is `Error::Thread`, a
-- consumer that runs is joined, OFF is sent behind it, and there are no workers.
pub start_rx-StartEnds :
    (t : UsbTransport) (spawns : Bus → Worker → Bool) (d : Device) (bus : Bus)
    → is_streaming d ≡ false
    → StartEnds t spawns (joined d.workers bus) (start_rx t spawns d bus)
unfolding start_rx
start_rx-StartEnds t spawns d bus h = elim (Option-cases d.workers) [
  | inl e ↦
      subst (λ w. StartEnds t spawns (joined w bus) (start_rx t spawns d bus)) (sym e)
        (subst (λ r. StartEnds t spawns bus (after_reaping t spawns r)) (sym (reap-none d bus e))
          (start-StartEnds t spawns d bus e))
  | inr p ↦
      subst (λ w. StartEnds t spawns (joined w bus) (start_rx t spawns d bus)) (sym p.1)
        (subst
          (λ r. StartEnds t spawns (join consumer ∷ join reader ∷ bus) (after_reaping t spawns r))
          (sym (reap-ended d bus p.0 p.1 (sym (flags_running d p.0 p.1) ∙ h)))
          (start-StartEnds t spawns (without_workers d) (join consumer ∷ join reader ∷ bus) refl))
]
