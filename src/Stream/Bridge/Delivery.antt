-- ===== src/Stream/Bridge/Delivery.antt =====
-- What the iterator of reader.rs yields: the delivered blocks, in order and without a gap.
use libairspy_rs.Base.{
  ℕ, ◌≤◌, ◌≡◌, refl, sym, ap, ◌∙◌, Bool, true, false, List, [], ◌∷◌, ◌++◌, length, ltb, arith,
  append_assoc, length-append, ltb→lt, Bool-cases, inl, inr,
}
use libairspy_rs.Stream.{Buf}
use libairspy_rs.Stream.Queue.{SampleQueue}
use libairspy_rs.Stream.System.{
  System, OwnerStep, owner_requests, owner_clears, owner_shuts, owner_joins,
}
use libairspy_rs.Stream.Bridge.{
  Bridge, queued, disconnected, forward_transfer, WorkerMove, works, sends, fails, IterMove,
  receives, disconnects, stops, Runs, begins, worker_moves, iter_moves,
}

-- The blocks whose callback has returned, the first one first.
abbrev pub in_order : List Buf → List Buf
in_order [] = []
in_order (buf ∷ calls) = in_order calls ++ (buf ∷ [])

-- The blocks yielded, those in the channel, and those that were called back to no receiver.
pub record Delivered (b : Bridge) : Type 0 where
  pub rest : List Buf
  pub order : b.received ++ (b.channel ++ rest) ≡ in_order b.system.calls
  pub gapless : b.receiver ≡ true → rest ≡ []
  pub bounded : length b.channel ≤ 8
  pub emptied : b.receiver ≡ false → b.channel ≡ []

queued-inv :
    (receiver : Bool) (channel new : List Buf) (buf : Buf)
    → forward_transfer receiver channel buf ≡ queued new
    → (receiver ≡ true) × (new ≡ channel ++ (buf ∷ [])) × (length new ≤ 8)
unfolding forward_transfer
queued-inv false channel new buf h = absurd (cc)
queued-inv true channel new buf h = elim (Bool-cases (ltb (length channel) 8)) [
  | inr e ↦ absurd (let k = rw e at h in cc k)
  | inl e ↦
      let k = rw e at h in
      let same : new ≡ channel ++ (buf ∷ []) = cc k in
      (
        refl,
        same,
        omega (
          arith,
          ltb→lt (length channel) 8 e,
          ap (λ (x : List Buf). length x) same,
          length-append {0} channel (buf ∷ []),
        ),
      )
]

disconnected-inv :
    (receiver : Bool) (channel : List Buf) (buf : Buf)
    → forward_transfer receiver channel buf ≡ disconnected
    → receiver ≡ false
unfolding forward_transfer
disconnected-inv false channel buf h = refl
disconnected-inv true channel buf h = elim (Bool-cases (ltb (length channel) 8)) [
  | inl e ↦ absurd (let k = rw e at h in cc k)
  | inr e ↦ absurd (let k = rw e at h in cc k)
]

owner-calls : {s t : System} → OwnerStep s t → t.calls ≡ s.calls
owner-calls (owner_requests s e) = refl
owner-calls (owner_clears s e) = refl
owner-calls (owner_shuts s e) = refl
owner-calls (owner_joins s e r c) = refl

snoc_rest :
    (a b c : List Buf) (buf : Buf) (calls : List Buf)
    → a ++ (b ++ c) ≡ in_order calls
    → a ++ (b ++ (c ++ (buf ∷ []))) ≡ in_order (buf ∷ calls)
snoc_rest a b c buf calls h =
    ap (◌++◌ a) (sym (append_assoc b c (buf ∷ [])))
    ∙ (sym (append_assoc a (b ++ c) (buf ∷ [])) ∙ ap (λ (x : List Buf). x ++ (buf ∷ [])) h)

worker-Delivered : {n : ℕ} {b c : Bridge} → WorkerMove n b c → Delivered b → Delivered c
worker-Delivered (works b t w e) d = record {
  rest = d.rest;
  order = d.order ∙ ap in_order (sym e);
  gapless = d.gapless;
  bounded = d.bounded;
  emptied = d.emptied;
}
worker-Delivered (sends b buf channel e f) d =
    let k = queued-inv b.receiver b.channel channel buf f in
    record {
      rest = [];
      order =
          ap (λ (x : List Buf). b.received ++ (x ++ [])) k.1
          ∙ (ap (◌++◌ b.received) (append_assoc b.channel (buf ∷ []) [])
              ∙ snoc_rest b.received b.channel [] buf b.system.calls (
                  ap (λ (x : List Buf). b.received ++ (b.channel ++ x)) (sym (d.gapless k.0))
                  ∙ d.order));
      gapless = λ h. refl;
      bounded = k.2;
      emptied = λ h. absurd (cc (k.0));
    }
worker-Delivered (fails b buf e f) d =
    let gone = disconnected-inv b.receiver b.channel buf f in
    record {
      rest = d.rest ++ (buf ∷ []);
      order = snoc_rest b.received b.channel d.rest buf b.system.calls d.order;
      gapless = λ h. absurd (cc (gone));
      bounded = d.bounded;
      emptied = d.emptied;
    }

iter-Delivered : {b c : Bridge} → IterMove b c → Delivered b → Delivered c
iter-Delivered (receives b buf rest o e f) d = record {
  rest = d.rest;
  order =
      append_assoc b.received (buf ∷ []) (rest ++ d.rest)
      ∙ (ap (λ (x : List Buf). b.received ++ (x ++ d.rest)) (sym f) ∙ d.order);
  gapless = d.gapless;
  bounded = omega (arith, d.bounded, ap (λ (x : List Buf). length x) f);
  emptied = λ h. absurd (cc (e));
}
iter-Delivered (disconnects b o e) d = record {
  rest = b.channel ++ d.rest;
  order = d.order;
  gapless = λ h. absurd (cc);
  bounded = omega arith;
  emptied = λ h. refl;
}
iter-Delivered (stops b t r w) d = record {
  rest = d.rest;
  order = d.order ∙ ap in_order (sym (owner-calls w));
  gapless = d.gapless;
  bounded = d.bounded;
  emptied = d.emptied;
}

-- At any time the blocks that the iterator has yielded, those in the channel, and those called back to no
-- receiver are, in this order, all the blocks that the stream has called back with. While the iterator lives
-- there are none of the last kind: nothing is lost or reordered between the callback and the iterator. The
-- channel holds at most eight blocks, and none after the drop.
pub Runs-Delivered : {n : ℕ} {q : SampleQueue} {b : Bridge} → Runs n q b → Delivered b
Runs-Delivered begins = record {
  rest = [];
  order = refl;
  gapless = λ h. refl;
  bounded = omega arith;
  emptied = λ h. refl;
}
Runs-Delivered (worker_moves r m) = worker-Delivered m (Runs-Delivered r)
Runs-Delivered (iter_moves r m) = iter-Delivered m (Runs-Delivered r)
