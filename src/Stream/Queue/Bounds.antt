-- ===== src/Stream/Queue/Bounds.antt =====
-- The ring stays within its slots, and every buffer in it keeps the stream's size, which
-- `copy_from_slice` relies on (it panics on another length).
use libairspy_rs.Base.{
  ℕ, zero, suc, ◌+◌, ◌≤◌, ◌≡◌, refl, Bool, List, [], ◌∷◌, arith, length, All, length-append,
  length-replicate, All-append, replicate, Bool-cases, inl, inr, leb,
}
use libairspy_rs.Stream.{Buf, buffer_size_for, raw_buffer_count}
use libairspy_rs.Stream.Queue.{
  SampleQueue, Op, acquires, pushes, pops, recycles, shuts, step, run, for_streaming,
}

-- Every buffer that the queue holds has n bytes, and the ring fits its slots.
pub record IsSized (n : ℕ) (q : SampleQueue) : Type 0 where
  pub filled_sized : All (λ e. length e.0 ≡ n) q.filled
  pub free_sized : All (λ buf. length buf ≡ n) q.free
  pub bounded : length q.filled ≤ q.capacity

-- A caller hands in only buffers of n bytes.
abbrev pub Hands : ℕ → Op → Type 0
Hands n (pushes buf) = length buf ≡ n
Hands n (recycles buf) = length buf ≡ n
Hands n _ = Unit {0}

pool-sized : (k n : ℕ) → All (λ (buf : Buf). length buf ≡ n) (replicate k (replicate n 0))
pool-sized zero n = tt
pool-sized (suc k) n = (length-replicate {A = ℕ} n 0, pool-sized k n)

-- A fresh queue for a stream holds nine free buffers of the packing mode's size and no filled one.
pub for_streaming-IsSized :
    (packing : Bool)
    → IsSized (buffer_size_for packing) (for_streaming packing)
      × (length (for_streaming packing).free ≡ raw_buffer_count + 1)
      × ((for_streaming packing).filled ≡ [])
unfolding for_streaming
for_streaming-IsSized packing = (
  record {
    filled_sized = tt;
    free_sized = pool-sized 9 (buffer_size_for packing);
    bounded = omega arith;
  },
  refl,
  refl,
)

step-capacity : (q : SampleQueue) (op : Op) → (step q op).1.capacity ≡ q.capacity
unfolding step
step-capacity q acquires = ground arith
step-capacity q (pushes buf) = ground arith
step-capacity q pops = ground arith
step-capacity q (recycles buf) = refl
step-capacity q shuts = refl

pub step-IsSized :
    (n : ℕ) (q : SampleQueue) (op : Op) → Hands n op → IsSized n q → IsSized n (step q op).1
unfolding step
step-IsSized n q acquires h v = ground arith
step-IsSized n q (pushes buf) h v = elim (Bool-cases (leb q.capacity (length q.filled))) [
  | inl full ↦ rw full (record {
    filled_sized = v.filled_sized;
    free_sized = (h, v.free_sized);
    bounded = v.bounded;
  })
  | inr room ↦ rw room (record {
    filled_sized =
        All-append (λ e. length e.0 ≡ n) q.filled ((buf, q.dropped) ∷ []) v.filled_sized (h, tt);
    free_sized = v.free_sized;
    bounded = ground (arith, length-append q.filled ((buf, q.dropped) ∷ []));
  })
]
step-IsSized n q pops h v = ground arith
step-IsSized n q (recycles buf) h v = record {
  filled_sized = v.filled_sized;
  free_sized = (h, v.free_sized);
  bounded = v.bounded;
}
step-IsSized n q shuts h v = record {
  filled_sized = v.filled_sized;
  free_sized = v.free_sized;
  bounded = v.bounded;
}

-- Any sequence of calls that hands in buffers of n bytes keeps every buffer of the queue at n bytes
-- and the ring within its slots.
pub run-IsSized :
    (n : ℕ) (ops : List Op) (q : SampleQueue)
    → All (Hands n) ops
    → IsSized n q
    → IsSized n (run q ops).1 × ((run q ops).1.capacity ≡ q.capacity)
unfolding run
run-IsSized n [] q h v = (v, refl)
run-IsSized n (op ∷ ops) q h v =
    ground
      (arith, step-capacity q op, run-IsSized n ops (step q op).1 h.1 (step-IsSized n q op h.0 v))
