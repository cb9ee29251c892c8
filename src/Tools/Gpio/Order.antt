-- ===== src/Tools/Gpio/Order.antt =====
-- `replay_ops` (crates/airspy-tools/src/gpio_cli.rs) against a description without latches: what an option
-- acts on is looked up among the options before it.
use libairspy_rs.Base.{
  ℕ, ◌≡◌, refl, sym, ap, ap₂, ◌∙◌, subst, Bool, true, false, Option, none, some, List, [], ◌∷◌,
  if◌then◌else◌, Bool-cases, inl, inr,
}
use libairspy_rs.Commands.{GpioPort, GpioPin}
use libairspy_rs.Error.{Result, ok, err}
use libairspy_rs.Transport.{Bus, Wire}
use libairspy_rs.Tools.Replay.{parse_u8, ReplayOutcome, no_ops, completed, failed}
use libairspy_rs.Tools.Gpio.{
  GpioOp, port, pin, read, write, ReadScope, gpio_ports, gpio_pins, table_entry, scope_of, Replayed,
  set_port, set_pin, start, after_operation, run_operation, write_with, replay_op, replay_loop,
  replay_ops,
}

-- The newer of two selections, if it is one.
abbrev pub newer {ℓ} : {A : Type ℓ} → Option A → Option A → Option A
newer (some a) o = some a
newer none o = o

-- The last valid `-p` and `-n` among the earlier options, which stand the latest first.
abbrev pub last_port : List GpioOp → Option GpioPort
last_port [] = none
last_port (port raw ∷ es) = newer (table_entry gpio_ports (parse_u8 raw)) (last_port es)
last_port (pin raw ∷ es) = last_port es
last_port (read ∷ es) = last_port es
last_port (write raw ∷ es) = last_port es

abbrev pub last_pin : List GpioOp → Option GpioPin
last_pin [] = none
last_pin (pin raw ∷ es) = newer (table_entry gpio_pins (parse_u8 raw)) (last_pin es)
last_pin (port raw ∷ es) = last_pin es
last_pin (read ∷ es) = last_pin es
last_pin (write raw ∷ es) = last_pin es

abbrev pub is_some {ℓ} : {A : Type ℓ} → Option A → Bool
is_some none = false
is_some (some a) = true

abbrev pub answered : Result (Unit {0}) × Bus → Bool × Bus
answered (ok u, bus) = (true, bus)
answered (err e, bus) = (false, bus)

-- How a successful replay ends: with or without an option.
abbrev pub ends : List GpioOp → ReplayOutcome
ends [] = no_ops
ends (op ∷ ops) = completed

module _ (on_read : ReadScope → Wire (Unit {0}))
    (on_write : GpioPort → GpioPin → ℕ → Wire (Unit {0})) where
  abbrev write_meaning : Option ℕ → Option GpioPort → Option GpioPin → Bus → Bool × Bus
  write_meaning (some value) (some p) (some q) bus = answered (on_write p q value bus)
  write_meaning (some value) (some p) none bus = (false, bus)
  write_meaning (some value) none q bus = (false, bus)
  write_meaning none p q bus = (false, bus)

  -- One option after the earlier ones: whether it succeeds, and what it does on the wire.
  abbrev pub meaning : List GpioOp → GpioOp → Bus → Bool × Bus
  meaning es (port raw) bus = (is_some (table_entry gpio_ports (parse_u8 raw)), bus)
  meaning es (pin raw) bus = (is_some (table_entry gpio_pins (parse_u8 raw)), bus)
  meaning es read bus = answered (on_read (scope_of (last_port es) (last_pin es)) bus)
  meaning es (write raw) bus = write_meaning (parse_u8 raw) (last_port es) (last_pin es) bus

  -- The options in turn, up to the first that fails.
  unfoldable pub described : List GpioOp → List GpioOp → Bus → Bool × Bus
  described es [] bus = (true, bus)
  described es (op ∷ ops) bus =
      let m = meaning es op bus in
      let rest = described (op ∷ es) ops m.1 in if m.0 then rest else (false, m.1)

  record Follows (es : List GpioOp) (s : Replayed) : Type 0 where
    at_port : s.port_slot ≡ last_port es
    at_pin : s.pin_slot ≡ last_pin es
    ended : s.progress.outcome ≡ ends es

  -- One step of the loop, against the meaning of its option.
  record Agrees (es : List GpioOp) (op : GpioOp) (m : Bool × Bus) (s : Replayed) : Type 0 where
    verdict : s.accepted ≡ m.0
    wire : s.progress.bus ≡ m.1
    follows : m.0 ≡ true → Follows (op ∷ es) s

  -- An option that latches nothing.
  Keeps : List GpioOp → GpioOp → Type 0
  Keeps es op = (last_port (op ∷ es) ≡ last_port es) × (last_pin (op ∷ es) ≡ last_pin es)

  after-Agrees :
      (es : List GpioOp) (op : GpioOp) (s : Replayed) (x : Result (Unit {0}) × Bus)
      → Keeps es op
      → Follows es s
      → Agrees es op (answered x) (after_operation x s)
  unfolding Keeps
  after-Agrees es op s (ok u, bus) k f = record {
    verdict = refl;
    wire = refl;
    follows =
        λ h. record { at_port = f.at_port ∙ sym k.0; at_pin = f.at_pin ∙ sym k.1; ended = refl };
  }
  after-Agrees es op s (err e, bus) k f = record {
    verdict = refl;
    wire = refl;
    follows = λ h. absurd (cc);
  }

  refused-Agrees :
      (es : List GpioOp) (op : GpioOp) (s : Replayed)
      → s.accepted ≡ false
      → Agrees es op (false, s.progress.bus) s
  refused-Agrees es op s h = record { verdict = h; wire = refl; follows = λ g. absurd (cc) }

  write-Agrees :
      (es : List GpioOp) (raw : List ℕ) (s : Replayed)
      → Follows es s
      → (v : Option ℕ) (p : Option GpioPort) (q : Option GpioPin)
      → Agrees es
          (write raw)
          (write_meaning v p q s.progress.bus)
          (write_with on_read on_write v p q s)
  unfolding run_operation Keeps
  write-Agrees es raw s f (some v) (some p) (some q) =
      after-Agrees es (write raw) s (on_write p q v s.progress.bus) (refl, refl) f
  write-Agrees es raw s f (some v) (some p) none = refused-Agrees es (write raw) _ refl
  write-Agrees es raw s f (some v) none q = refused-Agrees es (write raw) _ refl
  write-Agrees es raw s f none p q = refused-Agrees es (write raw) _ refl

  set_port-Agrees :
      (es : List GpioOp) (raw : List ℕ) (s : Replayed)
      → Follows es s
      → (o : Option GpioPort) → o ≡ table_entry gpio_ports (parse_u8 raw)
      → Agrees es (port raw) (is_some o, s.progress.bus) (set_port o s)
  set_port-Agrees es raw s f none e = refused-Agrees es (port raw) (set_port none s) refl
  set_port-Agrees es raw s f (some v) e = record {
    verdict = refl;
    wire = refl;
    follows = λ h. record {
      at_port = ap (λ o. newer o (last_port es)) e;
      at_pin = f.at_pin;
      ended = refl;
    };
  }

  set_pin-Agrees :
      (es : List GpioOp) (raw : List ℕ) (s : Replayed)
      → Follows es s
      → (o : Option GpioPin) → o ≡ table_entry gpio_pins (parse_u8 raw)
      → Agrees es (pin raw) (is_some o, s.progress.bus) (set_pin o s)
  set_pin-Agrees es raw s f none e = refused-Agrees es (pin raw) (set_pin none s) refl
  set_pin-Agrees es raw s f (some v) e = record {
    verdict = refl;
    wire = refl;
    follows = λ h. record {
      at_port = f.at_port;
      at_pin = ap (λ o. newer o (last_pin es)) e;
      ended = refl;
    };
  }

  replay_op-Agrees :
      (es : List GpioOp) (op : GpioOp) (s : Replayed)
      → Follows es s
      → Agrees es op (meaning es op s.progress.bus) (replay_op on_read on_write op s)
  unfolding replay_op Keeps
  replay_op-Agrees es (port raw) s f = set_port-Agrees es raw s f _ refl
  replay_op-Agrees es (pin raw) s f = set_pin-Agrees es raw s f _ refl
  replay_op-Agrees es read s f =
      subst
        (λ (scope : ReadScope).
          Agrees es read (answered (on_read scope s.progress.bus))
            (after_operation (on_read (scope_of s.port_slot s.pin_slot) s.progress.bus) s))
        (ap₂ scope_of f.at_port f.at_pin)
        (after-Agrees es read s (on_read (scope_of s.port_slot s.pin_slot) s.progress.bus)
          (refl, refl) f)
  replay_op-Agrees es (write raw) s f =
      subst
        (λ (m : Bool × Bus).
          Agrees es (write raw) m
            (write_with on_read on_write (parse_u8 raw) s.port_slot s.pin_slot s))
        (ap₂ (λ p q. write_meaning (parse_u8 raw) p q s.progress.bus) f.at_port f.at_pin)
        (write-Agrees es raw s f (parse_u8 raw) s.port_slot s.pin_slot)

  abbrev pub outcome_of : List GpioOp → List GpioOp → Bool → ReplayOutcome
  outcome_of es ops false = failed
  outcome_of (e ∷ es) ops true = completed
  outcome_of [] ops true = ends ops

  replay_loop-described :
      (ops es : List GpioOp) (s : Replayed)
      → Follows es s
      → let d = described es ops s.progress.bus in
        ((replay_loop on_read on_write ops s).0 ≡ outcome_of es ops d.0)
        × ((replay_loop on_read on_write ops s).1.bus ≡ d.1)
  unfolding replay_loop described
  replay_loop-described [] es s f = (f.ended ∙ empty es, refl)
    where
      empty : (es : List GpioOp) → ends es ≡ outcome_of es [] true
      empty [] = refl
      empty (e ∷ es) = refl
  replay_loop-described (op ∷ ops) es s f =
      let m = meaning es op s.progress.bus in
      let step = replay_op-Agrees es op s f in
      let s' = replay_op on_read on_write op s in
      let goal = λ (b c : Bool).
        let found = if b then replay_loop on_read on_write ops s' else (failed, s'.progress) in
        let said = if c then described (op ∷ es) ops m.1 else (false, m.1) in
        (found.0 ≡ outcome_of es (op ∷ ops) said.0) × (found.1.bus ≡ said.1) in
      elim (Bool-cases m.0) [
        | inl e ↦
            let rest = replay_loop-described ops (op ∷ es) s' (step.follows e) in
            let moved =
              subst
                (λ (bus : Bus).
                  let d = described (op ∷ es) ops bus in
                  ((replay_loop on_read on_write ops s').0 ≡ outcome_of (op ∷ es) ops d.0)
                  × ((replay_loop on_read on_write ops s').1.bus ≡ d.1))
                step.wire rest in
            subst (λ (b : Bool). goal b m.0) (sym step.verdict)
              (subst (λ (b : Bool). goal b b) (sym e)
                (moved.0 ∙ outcomes (described (op ∷ es) ops m.1).0, moved.1))
        | inr e ↦
            subst (λ (b : Bool). goal b m.0) (sym step.verdict)
              (subst (λ (b : Bool). goal b b) (sym e) (refl, step.wire))
      ]
    where
      outcomes : (b : Bool) → outcome_of (op ∷ es) ops b ≡ outcome_of es (op ∷ ops) b
      outcomes false = refl
      outcomes true = more es
        where
          more : (es : List GpioOp) → completed ≡ outcome_of es (op ∷ ops) true
          more [] = refl
          more (e ∷ es) = refl

  -- What a replay does on the wire, and how it ends, is this: each option in turn acts on the last valid port
  -- and pin given before it, and a read without a port on everything; a bad argument, a write without a port
  -- and a pin, or an error of the device stops it there, with the outcome `failed`. Otherwise the outcome is
  -- `completed`, or `no_ops` where there was no option.
  pub replay_ops-described :
      (ops : List GpioOp) (bus : Bus)
      → let d = described [] ops bus in
        ((replay_ops on_read on_write ops bus).0 ≡ outcome_of [] ops d.0)
        × ((replay_ops on_read on_write ops bus).1.bus ≡ d.1)
  unfolding replay_ops
  replay_ops-described ops bus =
      replay_loop-described ops [] (start on_read on_write bus)
        (record { at_port = refl; at_pin = refl; ended = refl })
