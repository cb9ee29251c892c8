-- ===== src/Iq/Fixed/Pipeline.antt =====
-- What `IqConverterInt16::process` computes: a filter over the whole stream on the I branch, a delay of
-- half the filter's length on the Q branch.
use libairspy_rs.Base.{
  ℕ, zero, suc, ◌+◌, ◌*◌, ◌/◌, ◌≤◌, ◌≡◌, refl, ap, subst, ◌∙◌, List, [], ◌∷◌, ◌++◌, arith, length,
  replicate, length-replicate,
}
use libairspy_rs.Base.Int.{ℤ, pos}
use libairspy_rs.Iq.Queue.{Slide, Holds, fresh-Holds}
use libairspy_rs.Iq.Fir.{fir_pass, fir_pass-Filters, filtered, seen}
use libairspy_rs.Iq.Delay.{delay_pass-Delays, Delays, InRing, odds, evens, pending}
use libairspy_rs.Iq.Fixed.{
  IqConverterInt16, block_all, remove_dc, apply_fs_4_phases, fir_interleaved, delay_interleaved,
  translate_fs_4, process, blocker, fir_sum, new, reset, every_other,
}

-- A converter of a half-band kernel with n + 1 taps that are not zero, at any point of a stream: its
-- buffers have their sizes, and its queue stands for the even samples so far.
pub record IsReady (n : ℕ) (hist : List ℤ) (c : IqConverterInt16) : Type 0 where
  pub taps : length c.fir_kernel ≡ n + 1
  pub queue : Holds 16 n hist c.fir
  pub ring : InRing c.delay ((n + 1) / 2)

-- The stream after DC removal and translation.
unfoldable pub translated : IqConverterInt16 → List ℤ → List ℤ
translated c samples = apply_fs_4_phases (block_all (blocker c) samples).0

pub record Converts (n : ℕ) (hist : List ℤ) (c : IqConverterInt16) (samples : List ℤ) : Type 0 where
  pub in_phase :
      evens (process c samples).0
      ≡ evens (filtered n (fir_sum c.fir_kernel) hist (translated c samples))
  pub quadrature :
      odds (process c samples).0 ++ pending (process c samples).1.delay
      ≡ pending c.delay ++ odds (translated c samples)
  pub stays_ready : IsReady n (seen hist (translated c samples)) (process c samples).1

odds-filtered :
    (n : ℕ) (sum : List ℤ → ℤ) (hist samples : List ℤ)
    → odds (filtered n sum hist samples) ≡ odds samples
unfolding filtered
odds-filtered n sum hist [] = refl
odds-filtered n sum hist (x ∷ []) = refl
odds-filtered n sum hist (x ∷ y ∷ rest) = ap (◌∷◌ y) (odds-filtered n sum (x ∷ hist) rest)

fir_as_Filters :
    (n m : ℕ) (sum : List ℤ → ℤ) (hist samples : List ℤ) (s : Slide ℤ)
    → m ≡ n + 1
    → Holds 16 n hist s
    → ((fir_pass 16 m sum s samples).0 ≡ filtered n sum hist samples)
      × Holds 16 n (seen hist samples) (fir_pass 16 m sum s samples).1
fir_as_Filters n m sum hist samples s e h =
    subst
      (λ k.
        ((fir_pass 16 k sum s samples).0 ≡ filtered n sum hist samples)
        × Holds 16 n (seen hist samples) (fir_pass 16 k sum s samples).1)
      {x = suc n} (omega arith)
      (
        (fir_pass-Filters 16 sum n hist samples s h).output,
        (fir_pass-Filters 16 sum n hist samples s h).keeps,
      )

-- On a converter whose queue stands for a history, the I samples that come out are the filter over
-- the DC-free, translated stream and that history, and the Q samples leave in the order in which they
-- came in, the ones still pending before them. The converter that is left stands for the longer history.
pub process-Converts :
    (n : ℕ) (hist samples : List ℤ) (c : IqConverterInt16)
    → IsReady n hist c
    → Converts n hist c samples
unfolding process translate_fs_4 remove_dc fir_interleaved delay_interleaved translated
process-Converts n hist samples c h = record {
  in_phase = delayed.evens_stay ∙ ap evens filter.0;
  quadrature =
      delayed.in_order
      ∙ ap (λ l. pending c.delay ++ l)
          (ap odds filter.0 ∙ odds-filtered n (fir_sum c.fir_kernel) hist (translated c samples));
  stays_ready = record { taps = h.taps; queue = filter.1; ring = delayed.stays };
}
  where
    filter :
        ((fir_pass 16 (length c.fir_kernel) (fir_sum c.fir_kernel) c.fir (translated c samples)).0
          ≡ filtered n (fir_sum c.fir_kernel) hist (translated c samples))
        × Holds 16 n
            (seen hist (translated c samples))
            (fir_pass 16
              (length c.fir_kernel)
              (fir_sum c.fir_kernel)
              c.fir
              (translated c samples)).1
    filter =
        fir_as_Filters n (length c.fir_kernel) (fir_sum c.fir_kernel) hist (translated c samples)
          c.fir h.taps h.queue

    delayed :
        Delays c.delay
          ((n + 1) / 2)
          (fir_pass 16 (length c.fir_kernel) (fir_sum c.fir_kernel) c.fir (translated c samples)).0
    delayed =
        delay_pass-Delays ((n + 1) / 2)
          (fir_pass 16 (length c.fir_kernel) (fir_sum c.fir_kernel) c.fir (translated c samples)).0
          c.delay h.ring

length-every_other : (n : ℕ) (xs : List ℤ) → length xs ≡ n * 2 + 1 → length (every_other xs) ≡ n + 1
length-every_other n [] h = absurd (omega arith)
length-every_other n (x ∷ []) h = omega arith
length-every_other zero (x ∷ y ∷ rest) h = absurd (omega arith)
length-every_other (suc n) (x ∷ y ∷ rest) h = omega (arith, length-every_other n rest (omega arith))

-- A fresh converter of a kernel of 2n + 1 taps is ready, with a history of silence.
pub new-IsReady :
    (n : ℕ) (hb_kernel : List ℤ)
    → length hb_kernel ≡ n * 2 + 1
    → 1 ≤ n
    → IsReady n (replicate n (pos 0)) (new hb_kernel)
unfolding new
new-IsReady n hb_kernel size h = record {
  taps = length-every_other n hb_kernel size;
  queue = fresh-Holds 16 n ((length hb_kernel / 2 + 1) * 16) (pos 0) (omega (arith, size));
  ring = record {
    size = omega (arith, length-replicate ((length hb_kernel / 2 + 1) / 2) (pos 0), size);
    inside = omega arith;
  };
}

-- Several blocks, one call of `process` each.
unfoldable pub process_all : IqConverterInt16 → List (List ℤ) → IqConverterInt16
process_all c [] = c
process_all c (block ∷ blocks) = process_all (process c block).1 blocks

record CanReset (n : ℕ) (kernel : List ℤ) (c : IqConverterInt16) : Type 0 where
  same : c.fir_kernel ≡ kernel
  hist : List ℤ
  ready : IsReady n hist c

process_all-CanReset :
    (n : ℕ) (kernel : List ℤ) (blocks : List (List ℤ)) (c : IqConverterInt16)
    → CanReset n kernel c
    → CanReset n kernel (process_all c blocks)
unfolding process_all process translate_fs_4 remove_dc fir_interleaved delay_interleaved
process_all-CanReset n kernel [] c h = h
process_all-CanReset n kernel (block ∷ blocks) c h =
    process_all-CanReset n kernel blocks (process c block).1 (record {
      same = kept ∙ h.same;
      hist = seen h.hist (translated c block);
      ready = (process-Converts n h.hist block c h.ready).stays_ready;
    })
  where
    kept : (process c block).1.fir_kernel ≡ c.fir_kernel
    kept = refl

-- After any blocks, `reset` gives the converter that was created: the whole queue and the whole delay
-- line are cleared, not a part of them.
pub reset-new :
    (n : ℕ) (hb_kernel : List ℤ) (blocks : List (List ℤ))
    → length hb_kernel ≡ n * 2 + 1
    → 1 ≤ n
    → reset (process_all (new hb_kernel) blocks) ≡ new hb_kernel
unfolding new reset
reset-new n hb_kernel blocks size h = rw (used.same, queue_size, line_size) refl
  where
    used : CanReset n (new hb_kernel).fir_kernel (process_all (new hb_kernel) blocks)
    used =
        process_all-CanReset n (new hb_kernel).fir_kernel blocks (new hb_kernel) (record {
          same = refl;
          hist = replicate n (pos 0);
          ready = new-IsReady n hb_kernel size h;
        })

    queue_size :
        length (process_all (new hb_kernel) blocks).fir.queue ≡ (length hb_kernel / 2 + 1) * 16
    queue_size = omega (arith, used.ready.queue.room, size)

    line_size :
        length (process_all (new hb_kernel) blocks).delay.line ≡ (length hb_kernel / 2 + 1) / 2
    line_size = omega (arith, used.ready.ring.size, size)
