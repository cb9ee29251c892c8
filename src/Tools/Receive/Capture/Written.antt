-- ===== src/Tools/Receive/Capture/Written.antt =====
-- What the callback of airspy_rx.rs writes over a whole stream of blocks.
use libairspy_rs.Base.{
  ℕ, zero, suc, ◌≡◌, refl, sym, subst, ap, ap₂, ◌∙◌, Bool, true, false, Option, none, some, List,
  [], ◌∷◌, ◌++◌, length, take, drop, All, if◌then◌else◌, arith, Bool-cases, inl, inr, append_assoc,
  append_nil, take-append-drop,
}
use libairspy_rs.Commands.{SampleType}
use libairspy_rs.Tools.Receive.{
  RateOps, on_block, frame_count, extend_sample_bytes, apply_byte_budget,
}
use libairspy_rs.Tools.Receive.Capture.{
  WriteAnswer, in_full, fails_after, RxShared, Delivery, is_spent, write_block, on_transfer,
  deliver,
}
use libairspy_rs.Tools.Receive.Capture.Budget.{within, within-append, within-spent}

module _ {F D : Type 0} (o : RateOps F D) (f32_bytes : F → List ℕ) where
  -- The bytes of all delivered blocks.
  abbrev pub stream_bytes : List (Delivery F D) → List ℕ
  stream_bytes [] = []
  stream_bytes (d ∷ ds) = extend_sample_bytes f32_bytes [] d.samples ++ stream_bytes ds

-- What the output gains from the bytes `asked`: all of them, or a front part if a write failed.
pub record Wrote {F D : Type 0} (before asked : List ℕ) (s : RxShared F D) : Type 0 where
  pub output : List ℕ
  pub rest : List ℕ
  pub writer : s.writer ≡ some (before ++ output)
  pub front : output ++ rest ≡ asked
  pub all : s.write_failed ≡ false → rest ≡ []

module _ {F D : Type 0} (o : RateOps F D) (f32_bytes : F → List ℕ) where
  -- One callback: of the bytes `asked` it writes all, or a front part and fails; r is the budget left.
  record Called (before asked : List ℕ) (r : Option ℕ) (c : Bool × RxShared F D) : Type 0 where
    output : List ℕ
    rest : List ℕ
    writer : c.1.writer ≡ some (before ++ output)
    front : output ++ rest ≡ asked
    budget : c.1.remaining ≡ r
    goes_on : c.0 ≡ true → (rest ≡ []) × (c.1.write_failed ≡ false)
    stops : c.0 ≡ false → c.1.write_failed ≡ false → (rest ≡ []) × (is_spent r ≡ true)

  write-Called :
      (s : RxShared F D) (before : List ℕ) (a : WriteAnswer) (n : ℕ)
      → s.write_failed ≡ false
      → Called before (take n s.buf) s.remaining (write_block o f32_bytes s (some before) a n)
  write-Called s before in_full n f = record {
    output = take n s.buf;
    rest = [];
    writer = refl;
    front = append_nil (take n s.buf);
    budget = refl;
    goes_on = λ h. (refl, f);
    stops = λ h g. (refl, ground arith);
  }
  write-Called s before (fails_after k) n f = record {
    output = take k (take n s.buf);
    rest = drop k (take n s.buf);
    writer = refl;
    front = take-append-drop k (take n s.buf);
    budget = refl;
    goes_on = λ h. absurd (cc);
    stops = λ h g. absurd (cc);
  }

  abbrev block_of : Delivery F D → List ℕ
  block_of d = extend_sample_bytes f32_bytes [] d.samples

  abbrev budget_for : RxShared F D → Delivery F D → ℕ × Option ℕ
  budget_for s d = apply_byte_budget s.remaining (length (block_of d))

  call-Called :
      (t : SampleType) (packing : Bool) (d : Delivery F D) (s : RxShared F D) (before : List ℕ)
      → s.writer ≡ some before
      → s.write_failed ≡ false
      → Called before
          (take (budget_for s d).0 (block_of d))
          (budget_for s d).1
          (on_transfer o f32_bytes t packing d s)
  unfolding on_transfer
  call-Called t packing d s before w f =
      let u : RxShared F D = record s {
        tracker = on_block o s.tracker (frame_count d.samples t packing) d.now;
        remaining = (budget_for s d).1;
        buf = block_of d;
      } in
      subst
        (λ (out : Option (List ℕ)).
          Called before (take (budget_for s d).0 (block_of d)) (budget_for s d).1
            (write_block o f32_bytes u out d.answer (budget_for s d).0))
        (sym w) (write-Called u before d.answer (budget_for s d).0 f)

  goes-Wrote :
      (before asked more : List ℕ) (r : Option ℕ) (c : Bool × RxShared F D) {last : RxShared F D}
      → (k : Called before asked r c) → c.0 ≡ true
      → Wrote (before ++ k.output) (within r more) last
      → Wrote before (asked ++ within r more) last
  goes-Wrote before asked more r c k g ih = record {
    output = k.output ++ ih.output;
    rest = ih.rest;
    writer = ih.writer ∙ ap some (append_assoc before k.output ih.output);
    front =
        append_assoc k.output ih.output ih.rest
        ∙ ap₂ ◌++◌
            (sym (append_nil k.output) ∙ (ap (◌++◌ k.output) (sym (k.goes_on g).0) ∙ k.front))
            ih.front;
    all = ih.all;
  }

  stops-Wrote :
      (before asked more : List ℕ) (r : Option ℕ) (c : Bool × RxShared F D)
      → Called before asked r c
      → c.0 ≡ false
      → Wrote before (asked ++ within r more) c.1
  stops-Wrote before asked more r c k g = record {
    output = k.output;
    rest = k.rest ++ within r more;
    writer = k.writer;
    front =
        sym (append_assoc k.output k.rest (within r more)) ∙ ap (λ x. x ++ within r more) k.front;
    all = λ h. ap₂ ◌++◌ (k.stops g h).0 (within-spent r more (k.stops g h).1);
  }

  -- What a stream of blocks leaves in the output.
  pub deliver-Wrote :
      (t : SampleType) (packing : Bool) (ds : List (Delivery F D)) (s : RxShared F D)
      (before : List ℕ)
      → s.writer ≡ some before
      → s.write_failed ≡ false
      → Wrote before
          (within s.remaining (stream_bytes o f32_bytes ds))
          (deliver o f32_bytes t packing ds s)
  unfolding deliver
  deliver-Wrote t packing [] s before w f = record {
    output = [];
    rest = [];
    writer = w ∙ ap some (sym (append_nil before));
    front = nothing s.remaining;
    all = λ h. refl;
  }
    where
      nothing : (r : Option ℕ) → [] ≡ within r []
      nothing none = refl
      nothing (some zero) = refl
      nothing (some (suc b)) = refl
  deliver-Wrote t packing (d ∷ ds) s before w f =
      let call = on_transfer o f32_bytes t packing d s in
      let k = call-Called t packing d s before w f in
      let more = stream_bytes o f32_bytes ds in
      let asked = take (budget_for s d).0 (block_of d) in
      subst
        (λ (bytes : List ℕ).
          Wrote before bytes (if call.0 then deliver o f32_bytes t packing ds call.1 else call.1))
        (sym (within-append s.remaining (block_of d) more))
        (elim (Bool-cases call.0) [
          | inl e ↦ rw e (
              goes-Wrote before asked more (budget_for s d).1 call k e (
                subst
                  (λ (r : Option ℕ).
                    Wrote (before ++ k.output) (within r more)
                      (deliver o f32_bytes t packing ds call.1))
                  k.budget
                  (deliver-Wrote t packing ds call.1 (before ++ k.output) k.writer
                    (k.goes_on e).1)))
          | inr e ↦ rw e (stops-Wrote before asked more (budget_for s d).1 call k e)
        ])

  write-in_full :
      (s : RxShared F D) (out : Option (List ℕ)) (n : ℕ)
      → (write_block o f32_bytes s out in_full n).1.write_failed ≡ s.write_failed
  write-in_full s none n = refl
  write-in_full s (some before) n = refl

  call-in_full :
      (t : SampleType) (packing : Bool) (d : Delivery F D) (s : RxShared F D)
      → d.answer ≡ in_full
      → s.write_failed ≡ false
      → (on_transfer o f32_bytes t packing d s).1.write_failed ≡ false
  unfolding on_transfer
  call-in_full t packing d s h f = rw (h) (write-in_full _ s.writer _ ∙ f)

  -- If every write is done in full, none has failed.
  pub deliver-in_full :
      (t : SampleType) (packing : Bool) (ds : List (Delivery F D)) (s : RxShared F D)
      → All (λ d. d.answer ≡ in_full) ds
      → s.write_failed ≡ false
      → (deliver o f32_bytes t packing ds s).write_failed ≡ false
  unfolding deliver
  deliver-in_full t packing [] s h f = f
  deliver-in_full t packing (d ∷ ds) s h f =
      let kept = call-in_full t packing d s h.0 f in
      elim (Bool-cases (on_transfer o f32_bytes t packing d s).0) [
        | inl e ↦ rw e (deliver-in_full t packing ds _ h.1 kept)
        | inr e ↦ rw e kept
      ]
