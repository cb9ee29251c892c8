-- ===== src/Transport/Reader.antt =====
-- crates/libairspy/src/transport.rs, the bulk reader: `ErrorRun`, `record_transient`,
-- `resubmit_or_stop`, `handle_bulk_completion` and `run_bulk_stream_impl`. The logs are left out. `pending`
-- counts the transfers submitted and not completed, `streaming` is what the reader last stored in that flag. What happens to the shared state between two polls is part of the poll.
pub mod Safety
pub mod Errors
use libairspy_rs.Base.{
  ℕ, zero, suc, ◌+◌, ◌-◌, Bool, true, false, Option, none, some, List, [], ◌∷◌, ◌==◌, ltb, length,
  if◌then◌else◌,
}
use libairspy_rs.Error.{
  TransferError, disconnected, stall, invalid_argument, cancelled, fault, unknown,
}
use libairspy_rs.Stream.{Buf}
use libairspy_rs.Stream.Queue.{SampleQueue, Op, try_acquire_free, push_filled, shutdown, run}

abbrev pub max_consecutive_transfer_errors : ℕ
max_consecutive_transfer_errors = 64

abbrev pub transfer_count : ℕ
transfer_count = 16

-- `saturating_add(1)` on a u64
abbrev pub saturating_inc : ℕ → ℕ
saturating_inc n = if ltb n 18446744073709551615 then n + 1 else 18446744073709551615

pub record ErrorRun : Type 0 where
  pub total : ℕ
  pub consecutive : ℕ

unfoldable pub record_transient : ErrorRun → Bool × ErrorRun
record_transient r =
    let consecutive = saturating_inc r.consecutive in
    let r' : ErrorRun = record { total = saturating_inc r.total; consecutive = consecutive } in
    if ltb max_consecutive_transfer_errors consecutive then (false, r') else (true, r')

pub record Reader : Type 0 where
  pub queue : SampleQueue
  pub errors : ErrorRun
  pub pending : ℕ
  pub streaming : Bool

unfoldable pub resubmit_or_stop : Reader → Bool × Reader
unfolding record_transient
resubmit_or_stop r =
    let (keep, errors) = record_transient r.errors in
    if keep
    then (true, record r { errors = errors; pending = r.pending + 1 })
    else (false, record r { errors = errors })

-- `status` is `none` for `Ok(())`.
pub record Completion : Type 0 where
  pub status : Option TransferError
  pub buffer : Buf

-- `dst.copy_from_slice(src)`, which panics on another length (`none`).
unfoldable pub copy_from_slice : Buf → Buf → Option Buf
copy_from_slice dst src = if length dst == length src then some src else none

-- The handoff of a complete transfer; `none` is the panic of the copy.
unfoldable pub hand_over : SampleQueue → Buf → Option SampleQueue
unfolding copy_from_slice
hand_over q completed =
    let (free, q') = try_acquire_free q in
    elim free [
      | none ↦ some q'
      | some qbuf ↦ elim (copy_from_slice qbuf completed) [
        | none ↦ none
        | some filled ↦ some (push_filled q' filled)
      ]
    ]

abbrev pub delivered : Reader → Option SampleQueue → Option (Bool × Reader)
delivered r none = none
delivered r (some q) = some (
  true,
  record r {
    queue = q;
    errors = record { total = r.errors.total; consecutive = 0 };
    pending = r.pending + 1;
  },
)

unfoldable pub handle_bulk_completion : ℕ → Reader → Completion → Option (Bool × Reader)
unfolding hand_over resubmit_or_stop
handle_bulk_completion buffer_size r c = elim c.status [
  | none ↦
      if length c.buffer == buffer_size
      then delivered r (hand_over r.queue c.buffer)
      else some (resubmit_or_stop r)
  | some disconnected ↦ some (false, r)
  | some stall ↦ some (false, r)
  | some invalid_argument ↦ some (false, r)
  | some cancelled ↦ some (resubmit_or_stop r)
  | some fault ↦ some (resubmit_or_stop r)
  | some (unknown e) ↦ some (resubmit_or_stop r)
]

-- One turn of the reader's loop: the calls that the other threads made of the queue since the last
-- one, what `running` read, and the completion, if one came before the timeout.
pub record Poll : Type 0 where
  pub others : List Op
  pub is_running : Bool
  pub completion : Option Completion

-- How a turn ends: the loop goes on, it breaks, or the copy panics.
pub data Turn : Type 0 where
  goes_on breaks : Reader → Turn
  crashes : Turn

abbrev pub turn_after : Option (Bool × Reader) → Turn
turn_after none = crashes
turn_after (some (false, r)) = breaks r
turn_after (some (true, r)) = goes_on r

unfoldable pub turn : ℕ → Reader → Poll → Turn
unfolding handle_bulk_completion
turn n r p =
    let r' : Reader = record r { queue = (run r.queue p.others).1 } in
    if p.is_running
    then elim p.completion [
      | none ↦ goes_on r'
      | some c ↦ turn_after (handle_bulk_completion n (record r' { pending = r.pending - 1 }) c)
    ]
    else breaks r'

pub data Outcome : Type 0 where
  streams stopped : Reader → Outcome
  panicked : Outcome

-- The loop over the turns so far: it still streams when they are used up, or has been left.
unfoldable pub run_loop : ℕ → Reader → List Poll → Outcome
run_loop n r [] = streams r
run_loop n r (p ∷ ps) = elim (turn n r p) [
  | goes_on r' ↦ run_loop n r' ps
  | breaks r' ↦ stopped r'
  | crashes ↦ panicked
]

-- The drain of the cancelled transfers: a wait that brings a completion is true, and the first that times
-- out ends the drain. Waits that are not listed time out.
unfoldable pub drain : ℕ → List Bool → ℕ
drain zero waits = zero
drain (suc pending) [] = suc pending
drain (suc pending) (false ∷ waits) = suc pending
drain (suc pending) (true ∷ waits) = drain pending waits

-- The stores behind the loop.
abbrev pub closed : Reader → ℕ → Outcome
closed r left = stopped (record r { queue = shutdown r.queue; pending = left; streaming = false })

abbrev pub torn_down : List Bool → Outcome → Outcome
torn_down waits (stopped r) = closed r (drain r.pending waits)
torn_down waits (streams r) = streams r
torn_down waits panicked = panicked

abbrev pub fresh : ℕ → SampleQueue → Reader
fresh in_flight q = record {
  queue = q;
  errors = record { total = 0; consecutive = 0 };
  pending = in_flight;
  streaming = true;
}

-- `opens` says whether the endpoint opens; if not, nothing is submitted.
unfoldable pub run_bulk_stream : ℕ → SampleQueue → Bool → List Poll → List Bool → Outcome
unfolding run_loop drain
run_bulk_stream n q opens ps waits =
    if opens then torn_down waits (run_loop n (fresh transfer_count q) ps) else closed (fresh 0 q) 0
