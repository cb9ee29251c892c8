-- ===== src/Transport/Reader/Errors.antt =====
-- Which completions stop a stream.
use libairspy_rs.Base.{
  ℕ, suc, ◌+◌, ◌≤◌, ◌<◌, ◌≡◌, refl, subst, ap, leb, Bool, true, false, Option, none, some, List, [],
  ◌∷◌, arith, length, All, ◌==◌, if◌then◌else◌,
}
use libairspy_rs.Error.{
  TransferError, disconnected, stall, invalid_argument, cancelled, fault, unknown,
}
use libairspy_rs.Stream.{Buf}
use libairspy_rs.Stream.Queue.{SampleQueue}
use libairspy_rs.Transport.Reader.{
  Reader, Completion, Poll, Outcome, streams, stopped, panicked, handle_bulk_completion, hand_over,
  delivered, resubmit_or_stop, run_loop, turn, turn_after, Turn, goes_on, breaks, crashes,
  max_consecutive_transfer_errors,
}

abbrev or_else {ℓ} : {A : Type ℓ} → Option A → A → A
or_else none d = d
or_else (some a) d = a

-- The kinds of completion that the reader tells apart, from the status and the length alone.
pub data Kind : Type 0 where
  full fatal transient : Kind

abbrev pub kind : ℕ → Completion → Kind
kind n c = elim c.status [
  | none ↦ if length c.buffer == n then full else transient
  | some disconnected ↦ fatal
  | some stall ↦ fatal
  | some invalid_argument ↦ fatal
  | some cancelled ↦ transient
  | some fault ↦ transient
  | some (unknown e) ↦ transient
]

-- What the reader does with a completion of each kind: `keep` says that the stream goes on.
abbrev pub Verdict : Kind → Bool → Reader → Reader → Type 0
Verdict full keep r r' = (keep ≡ true) × (r'.errors.consecutive ≡ 0) × (r'.pending ≡ r.pending + 1)
Verdict fatal keep r r' = (keep ≡ false) × (r' ≡ r)
Verdict transient keep r r' =
    (r'.errors.consecutive ≡ r.errors.consecutive + 1)
    × (keep ≡ leb (r.errors.consecutive + 1) max_consecutive_transfer_errors)
    × (r'.queue ≡ r.queue)
    × (r'.pending ≡ r.pending + (if keep then 1 else 0))

transient-Verdict :
    (r : Reader)
    → r.errors.consecutive ≤ max_consecutive_transfer_errors
    → Verdict transient (resubmit_or_stop r).0 r (resubmit_or_stop r).1
unfolding resubmit_or_stop
transient-Verdict r h = ground arith

delivered-Verdict :
    (r : Reader) (o : Option SampleQueue) (keep : Bool) (r' : Reader)
    → delivered r o ≡ some (keep, r')
    → Verdict full keep r r'
delivered-Verdict r none keep r' e = cc
delivered-Verdict r (some q) keep r' e = ground arith

-- `some (keep, r')` is the reader's answer, so a fact of the one is a fact of the other.
same-Verdict :
    (k : Kind) (r : Reader) (a : Bool × Reader) (keep : Bool) (r' : Reader)
    → some a ≡ some (keep, r')
    → Verdict k a.0 r a.1
    → Verdict k keep r r'
same-Verdict k r a keep r' e v = subst (λ b. Verdict k b.0 r b.1) (ap (λ o. or_else o a) e) v

-- The two branches of the test on the length.
length-Verdict :
    (is_full : Bool) (r : Reader) (o : Option SampleQueue) (keep : Bool) (r' : Reader)
    → r.errors.consecutive ≤ max_consecutive_transfer_errors
    → (if is_full then delivered r o else some (resubmit_or_stop r)) ≡ some (keep, r')
    → Verdict (if is_full then full else transient) keep r r'
length-Verdict true r o keep r' h e = delivered-Verdict r o keep r' e
length-Verdict false r o keep r' h e =
    same-Verdict transient r (resubmit_or_stop r) keep r' e (transient-Verdict r h)

status-Verdict :
    (n : ℕ) (r : Reader) (o : Option TransferError) (b : Buf) (keep : Bool) (r' : Reader)
    → r.errors.consecutive ≤ max_consecutive_transfer_errors
    → handle_bulk_completion n r (record { status = o; buffer = b }) ≡ some (keep, r')
    → Verdict (kind n (record { status = o; buffer = b })) keep r r'
unfolding handle_bulk_completion
status-Verdict n r none b keep r' h e =
    length-Verdict (length b == n) r (hand_over r.queue b) keep r' h e
status-Verdict n r (some disconnected) b keep r' h e =
    same-Verdict fatal r (false, r) keep r' e (refl, refl)
status-Verdict n r (some stall) b keep r' h e =
    same-Verdict fatal r (false, r) keep r' e (refl, refl)
status-Verdict n r (some invalid_argument) b keep r' h e =
    same-Verdict fatal r (false, r) keep r' e (refl, refl)
status-Verdict n r (some cancelled) b keep r' h e =
    same-Verdict transient r (resubmit_or_stop r) keep r' e (transient-Verdict r h)
status-Verdict n r (some fault) b keep r' h e =
    same-Verdict transient r (resubmit_or_stop r) keep r' e (transient-Verdict r h)
status-Verdict n r (some (unknown x)) b keep r' h e =
    same-Verdict transient r (resubmit_or_stop r) keep r' e (transient-Verdict r h)

-- A full transfer, whatever the queue does with it, goes on and clears the run of errors. A fatal
-- error stops the stream and changes nothing. A transient error or a short transfer leaves the queue
-- alone, lengthens the run by one and goes on exactly while the run is at most 64 long. A completion
-- is resubmitted exactly when the stream goes on.
pub completion-Verdict :
    (n : ℕ) (r : Reader) (c : Completion) (keep : Bool) (r' : Reader)
    → r.errors.consecutive ≤ max_consecutive_transfer_errors
    → handle_bulk_completion n r c ≡ some (keep, r')
    → Verdict (kind n c) keep r r'
completion-Verdict n r c keep r' h e = status-Verdict n r c.status c.buffer keep r' h e

-- A turn of the loop that runs and meets a transient completion.
abbrev pub MeetsTransient : ℕ → Poll → Type 0
MeetsTransient n p =
    (p.is_running ≡ true) × (c : Completion) × (p.completion ≡ some c) × (kind n c ≡ transient)

-- The answer to a transient completion.
transient_answer :
    (n : ℕ) (r : Reader) (c : Completion)
    → kind n c ≡ transient
    → handle_bulk_completion n r c ≡ some (resubmit_or_stop r)
unfolding handle_bulk_completion
transient_answer n r c h = ground arith

abbrev AfterTransient : ℕ → Turn → Type 0
AfterTransient k (goes_on r') = (r'.errors.consecutive ≡ k) × (k ≤ max_consecutive_transfer_errors)
AfterTransient k (breaks r') = (r'.errors.consecutive ≡ k) × (max_consecutive_transfer_errors < k)
AfterTransient k crashes = ⊥

resubmit-AfterTransient :
    (r : Reader)
    → r.errors.consecutive ≤ max_consecutive_transfer_errors
    → AfterTransient (r.errors.consecutive + 1) (turn_after (some (resubmit_or_stop r)))
unfolding resubmit_or_stop
resubmit-AfterTransient r h = ground arith

transient_turn :
    (n : ℕ) (r : Reader) (p : Poll)
    → r.errors.consecutive ≤ max_consecutive_transfer_errors
    → MeetsTransient n p
    → AfterTransient (r.errors.consecutive + 1) (turn n r p)
unfolding turn
transient_turn n r p h (running, c, e, t) =
    rw (running, e, transient_answer n _ c t) (resubmit-AfterTransient _ h)

-- How a storm of transient errors ends, by the length of the run of errors behind it.
abbrev pub StormEnds : ℕ → Outcome → Type 0
StormEnds k (streams r) = (r.errors.consecutive ≡ k) × (k ≤ max_consecutive_transfer_errors)
StormEnds k (stopped r) =
    (r.errors.consecutive ≡ max_consecutive_transfer_errors + 1)
    × (max_consecutive_transfer_errors < k)
StormEnds k panicked = ⊥

-- A storm of transient errors, whatever the other threads do meanwhile, stops the stream at its 65th
-- error in a row and not before.
pub storm_ends :
    (n : ℕ) (ps : List Poll) (r : Reader)
    → r.errors.consecutive ≤ max_consecutive_transfer_errors
    → All (MeetsTransient n) ps
    → StormEnds (r.errors.consecutive + length ps) (run_loop n r ps)
unfolding run_loop
storm_ends n [] r h a = (omega arith, omega arith)
storm_ends n (p ∷ ps) r h a =
    next (turn n r p) (transient_turn n r p h a.0) (λ r' h'. storm_ends n ps r' h' a.1)
  where
    next :
        (t : Turn)
        → AfterTransient (r.errors.consecutive + 1) t
        → ((r' : Reader)
            → r'.errors.consecutive ≤ max_consecutive_transfer_errors
            → StormEnds (r'.errors.consecutive + length ps) (run_loop n r' ps))
        → StormEnds
            (r.errors.consecutive + suc (length ps))
            (elim t [ goes_on r' ↦ run_loop n r' ps | breaks r' ↦ stopped r' | crashes ↦ panicked ])
    next (goes_on r') (e, k) ih =
        subst (λ m. StormEnds m (run_loop n r' ps)) (omega arith) (ih r' (omega arith))
    next (breaks r') (e, k) ih = (omega arith, omega arith)
    next crashes b ih = absurd b
