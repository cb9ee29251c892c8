-- ===== src/Tools/Registers/Order.antt =====
-- `replay_reg_ops` (crates/airspy-tools/src/reg_cli.rs) against a description without a latch: the register
-- that an option acts on is looked up among the options before it.
use libairspy_rs.Base.{
  ℕ, ◌≡◌, refl, sym, ap, ◌∙◌, subst, Bool, true, false, Option, none, some, List, [], ◌∷◌,
  if◌then◌else◌, Bool-cases, inl, inr,
}
use libairspy_rs.Error.{Result, ok, err}
use libairspy_rs.Transport.{Bus, Wire}
use libairspy_rs.Tools.Replay.{
  parse_u8, ReplayOutcome, no_ops, completed, failed, Progress, Line, range_error, write_flag,
  register_flag,
}
use libairspy_rs.Tools.Gpio.Order.{newer, is_some, answered}
use libairspy_rs.Tools.Registers.{
  RegToolSpec, RegOp, register, read, write, config, RegReadScope, in_range, scope_of, Replayed,
  set_register, after_operation, run_operation, write_with, replay_op, replay_loop, replay_reg_ops,
  start, print_if,
}

-- The last valid `-n` among the earlier options, which stand the latest first.
abbrev pub last_register : ℕ → List RegOp → Option ℕ
last_register max [] = none
last_register max (register raw ∷ es) = newer (in_range max (parse_u8 raw)) (last_register max es)
last_register max (read ∷ es) = last_register max es
last_register max (write raw ∷ es) = last_register max es
last_register max (config ∷ es) = last_register max es

-- How a successful replay ends: with or without an option.
abbrev pub ends : List RegOp → ReplayOutcome
ends [] = no_ops
ends (op ∷ ops) = completed

abbrev pub outcome_of : List RegOp → List RegOp → Bool → ReplayOutcome
outcome_of es ops false = failed
outcome_of (e ∷ es) ops true = completed
outcome_of [] ops true = ends ops

module _ (spec : RegToolSpec) (on_read : RegReadScope → Wire (Unit {0}))
    (on_write : ℕ → ℕ → Wire (Unit {0})) (on_config : Wire (Unit {0})) where
  abbrev write_meaning : Option ℕ → Option ℕ → Bus → Bool × Bus
  write_meaning (some value) (some r) bus = answered (on_write r value bus)
  write_meaning (some value) none bus = (false, bus)
  write_meaning none r bus = (false, bus)

  -- One option after the earlier ones: whether it succeeds, and what it does on the wire.
  abbrev pub meaning : List RegOp → RegOp → Bus → Bool × Bus
  meaning es (register raw) bus = (is_some (in_range spec.register_max (parse_u8 raw)), bus)
  meaning es read bus = answered (on_read (scope_of (last_register spec.register_max es)) bus)
  meaning es (write raw) bus = write_meaning (parse_u8 raw) (last_register spec.register_max es) bus
  meaning es config bus = answered (on_config bus)

  -- The options in turn, up to the first that fails.
  unfoldable pub described : List RegOp → List RegOp → Bus → Bool × Bus
  described es [] bus = (true, bus)
  described es (op ∷ ops) bus =
      let m = meaning es op bus in
      let rest = described (op ∷ es) ops m.1 in if m.0 then rest else (false, m.1)

  record Follows (es : List RegOp) (s : Replayed) : Type 0 where
    at_register : s.slot ≡ last_register spec.register_max es
    ended : s.progress.outcome ≡ ends es

  -- One step of the loop, against the meaning of its option.
  record Agrees (es : List RegOp) (op : RegOp) (m : Bool × Bus) (s : Replayed) : Type 0 where
    verdict : s.accepted ≡ m.0
    wire : s.progress.bus ≡ m.1
    follows : m.0 ≡ true → Follows (op ∷ es) s

  after-Agrees :
      (es : List RegOp) (op : RegOp) (s : Replayed) (x : Result (Unit {0}) × Bus)
      → last_register spec.register_max (op ∷ es) ≡ last_register spec.register_max es
      → Follows es s
      → Agrees es op (answered x) (after_operation x s)
  after-Agrees es op s (ok u, bus) k f = record {
    verdict = refl;
    wire = refl;
    follows = λ h. record { at_register = f.at_register ∙ sym k; ended = refl };
  }
  after-Agrees es op s (err e, bus) k f = record {
    verdict = refl;
    wire = refl;
    follows = λ h. absurd (cc);
  }

  refused-Agrees :
      (es : List RegOp) (op : RegOp) (s : Replayed) {bus : Bus}
      → s.accepted ≡ false
      → s.progress.bus ≡ bus
      → Agrees es op (false, bus) s
  refused-Agrees es op s h e = record { verdict = h; wire = e; follows = λ g. absurd (cc) }

  quiet_or_not : (b : Bool) (l : Line) (p : Progress) → (print_if b l p).bus ≡ p.bus
  quiet_or_not true l p = refl
  quiet_or_not false l p = refl

  write-Agrees :
      (es : List RegOp) (raw : List ℕ) (s : Replayed)
      → Follows es s
      → (v r : Option ℕ)
      → Agrees es
          (write raw)
          (write_meaning v r s.progress.bus)
          (write_with spec on_read on_write on_config v r s)
  unfolding run_operation
  write-Agrees es raw s f (some v) (some r) =
      after-Agrees es (write raw) s (on_write r v s.progress.bus) refl f
  write-Agrees es raw s f (some v) none = refused-Agrees es (write raw) _ refl refl
  write-Agrees es raw s f none r =
      refused-Agrees es (write raw) _ refl
        (quiet_or_not spec.print_messages (range_error write_flag 255) s.progress)

  set_register-Agrees :
      (es : List RegOp) (raw : List ℕ) (s : Replayed)
      → Follows es s
      → (o : Option ℕ) → o ≡ in_range spec.register_max (parse_u8 raw)
      → Agrees es (register raw) (is_some o, s.progress.bus) (set_register spec o s)
  set_register-Agrees es raw s f none e =
      refused-Agrees es (register raw) (set_register spec none s) refl
        (quiet_or_not spec.print_messages (range_error register_flag spec.register_max) s.progress)
  set_register-Agrees es raw s f (some v) e = record {
    verdict = refl;
    wire = refl;
    follows = λ h. record {
      at_register = ap (λ o. newer o (last_register spec.register_max es)) e;
      ended = refl;
    };
  }

  replay_op-Agrees :
      (es : List RegOp) (op : RegOp) (s : Replayed)
      → Follows es s
      → Agrees es op (meaning es op s.progress.bus) (replay_op spec on_read on_write on_config op s)
  unfolding replay_op
  replay_op-Agrees es (register raw) s f = set_register-Agrees es raw s f _ refl
  replay_op-Agrees es read s f =
      subst
        (λ (scope : RegReadScope).
          Agrees es read (answered (on_read scope s.progress.bus))
            (after_operation (on_read (scope_of s.slot) s.progress.bus) s))
        (ap scope_of f.at_register)
        (after-Agrees es read s (on_read (scope_of s.slot) s.progress.bus) refl f)
  replay_op-Agrees es (write raw) s f =
      subst
        (λ (m : Bool × Bus).
          Agrees es (write raw) m
            (write_with spec on_read on_write on_config (parse_u8 raw) s.slot s))
        (ap (λ r. write_meaning (parse_u8 raw) r s.progress.bus) f.at_register)
        (write-Agrees es raw s f (parse_u8 raw) s.slot)
  replay_op-Agrees es config s f = after-Agrees es config s (on_config s.progress.bus) refl f

  replay_loop-described :
      (ops es : List RegOp) (s : Replayed)
      → Follows es s
      → let d = described es ops s.progress.bus in
        let found = replay_loop spec on_read on_write on_config ops s in
        (found.0 ≡ outcome_of es ops d.0) × (found.1.bus ≡ d.1)
  unfolding replay_loop described
  replay_loop-described [] es s f = (f.ended ∙ empty es, refl)
    where
      empty : (es : List RegOp) → ends es ≡ outcome_of es [] true
      empty [] = refl
      empty (e ∷ es) = refl
  replay_loop-described (op ∷ ops) es s f =
      let m = meaning es op s.progress.bus in
      let step = replay_op-Agrees es op s f in
      let s' = replay_op spec on_read on_write on_config op s in
      let goal = λ (b c : Bool).
        let found =
          if b then replay_loop spec on_read on_write on_config ops s' else (failed, s'.progress) in
        let said = if c then described (op ∷ es) ops m.1 else (false, m.1) in
        (found.0 ≡ outcome_of es (op ∷ ops) said.0) × (found.1.bus ≡ said.1) in
      elim (Bool-cases m.0) [
        | inl e ↦
            let rest = replay_loop-described ops (op ∷ es) s' (step.follows e) in
            let moved =
              subst
                (λ (bus : Bus).
                  let d = described (op ∷ es) ops bus in
                  ((replay_loop spec on_read on_write on_config ops s').0
                    ≡ outcome_of (op ∷ es) ops d.0)
                  × ((replay_loop spec on_read on_write on_config ops s').1.bus ≡ d.1))
                step.wire rest in
            subst (λ (b : Bool). goal b m.0) (sym step.verdict)
              (subst (λ (b : Bool). goal b b) (sym e)
                (moved.0 ∙ outcomes (described (op ∷ es) ops m.1).0, moved.1))
        | inr e ↦
            subst (λ (b : Bool). goal b m.0) (sym step.verdict)
              (subst (λ (b : Bool). goal b b) (sym e) (refl, step.wire))
      ]
    where
      outcomes : (b : Bool) → outcome_of (op ∷ es) ops b ≡ outcome_of es (op ∷ ops) b
      outcomes false = refl
      outcomes true = more es
        where
          more : (es : List RegOp) → completed ≡ outcome_of es (op ∷ ops) true
          more [] = refl
          more (e ∷ es) = refl

  -- What a replay does on the wire, and how it ends, is this: each option in turn acts on the last valid
  -- register given before it, and a read without one on all registers; a bad argument or a register beyond the
  -- tool's maximum, a write without a register, or an error of the device stops it there, with the outcome
  -- `failed`. Otherwise the outcome is `completed`, or `no_ops` where there was no option.
  pub replay_reg_ops-described :
      (ops : List RegOp) (bus : Bus)
      → let d = described [] ops bus in
        let found = replay_reg_ops spec on_read on_write on_config ops bus in
        (found.0 ≡ outcome_of [] ops d.0) × (found.1.bus ≡ d.1)
  unfolding replay_reg_ops
  replay_reg_ops-described ops bus =
      replay_loop-described ops [] (start spec on_read on_write on_config bus)
        (record { at_register = refl; ended = refl })
