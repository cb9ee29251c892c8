-- ===== src/Tools/Gpio.antt =====
-- crates/airspy-tools/src/gpio_cli.rs and the device functions of bin/airspy_gpio.rs and
-- bin/airspy_gpiodir.rs. A `&mut` slot is part of the state that a step returns.
pub mod Order
pub mod Force
use libairspy_rs.Base.{
  ℕ, ◌-◌, Bool, true, false, not, ◌&&◌, ◌||◌, Option, none, some, List, [], ◌∷◌, length, get_elem?,
  if◌then◌else◌,
}
use libairspy_rs.Commands
use libairspy_rs.Commands.{GpioPort, GpioPin}
use libairspy_rs.Error.{Error, Result, ok, err}
use libairspy_rs.Transport.{UsbTransport, Bus, Wire, ◌>>=◌, ◌>>◌, pure}
use libairspy_rs.Device.Control.{gpio_write}
use libairspy_rs.Device.Peripherals.{gpio_read, gpiodir_read, gpiodir_write}
use libairspy_rs.Tools.Replay.{
  parse_u8, ReplayOutcome, no_ops, completed, failed, Flag, port_flag, pin_flag, Line, range_error,
  argument_error, nothing_latched, Progress, print,
}

abbrev pub gpio_ports : List GpioPort
gpio_ports =
    Commands.port0 ∷ Commands.port1 ∷ Commands.port2 ∷ Commands.port3 ∷ Commands.port4
    ∷ Commands.port5 ∷ Commands.port6 ∷ Commands.port7 ∷ []

abbrev pub gpio_pins : List GpioPin
gpio_pins =
    Commands.pin0 ∷ Commands.pin1 ∷ Commands.pin2 ∷ Commands.pin3 ∷ Commands.pin4 ∷ Commands.pin5
    ∷ Commands.pin6 ∷ Commands.pin7 ∷ Commands.pin8 ∷ Commands.pin9 ∷ Commands.pin10
    ∷ Commands.pin11 ∷ Commands.pin12 ∷ Commands.pin13 ∷ Commands.pin14 ∷ Commands.pin15
    ∷ Commands.pin16 ∷ Commands.pin17 ∷ Commands.pin18 ∷ Commands.pin19 ∷ Commands.pin20
    ∷ Commands.pin21 ∷ Commands.pin22 ∷ Commands.pin23 ∷ Commands.pin24 ∷ Commands.pin25
    ∷ Commands.pin26 ∷ Commands.pin27 ∷ Commands.pin28 ∷ Commands.pin29 ∷ Commands.pin30
    ∷ Commands.pin31 ∷ []

-- A text is the list of its bytes.
pub data GpioOp : Type 0 where
  port : List ℕ → GpioOp
  pin : List ℕ → GpioOp
  read : GpioOp
  write : List ℕ → GpioOp

pub data ReadScope : Type 0 where
  all_ports : ReadScope
  one_port : GpioPort → ReadScope
  port_pin : GpioPort → GpioPin → ReadScope

module _ (per_pin : GpioPort → GpioPin → Wire (Unit {0})) where
  -- The loop over the pins, which keeps the last result.
  unfoldable pub dump_pins : GpioPort → List GpioPin → Result (Unit {0}) → Wire (Unit {0})
  dump_pins at [] result bus = (result, bus)
  dump_pins at (on ∷ pins) result bus =
      let visited = per_pin at on bus in dump_pins at pins visited.0 visited.1

  -- The loop over the ports, which ends with the first one whose result is an error.
  unfoldable pub dump_ports : List GpioPort → Wire (Unit {0})
  unfolding dump_pins
  dump_ports [] = pure tt
  dump_ports (at ∷ ports) = dump_pins at gpio_pins (ok tt) >> dump_ports ports

  unfoldable pub dump_scope : ReadScope → Wire (Unit {0})
  unfolding dump_pins dump_ports
  dump_scope (port_pin at on) = per_pin at on
  dump_scope (one_port at) = dump_pins at gpio_pins (ok tt)
  dump_scope all_ports = dump_ports gpio_ports

-- The value of an option in its table.
abbrev pub table_entry : {T : Type 0} → List T → Option ℕ → Option T
table_entry table none = none
table_entry table (some v) = get_elem? table v

abbrev pub scope_of : Option GpioPort → Option GpioPin → ReadScope
scope_of none on = all_ports
scope_of (some at) none = one_port at
scope_of (some at) (some on) = port_pin at on

-- The state of the loop: the latches, and whether the option just replayed was accepted.
pub record Replayed : Type 0 where
  pub port_slot : Option GpioPort
  pub pin_slot : Option GpioPin
  pub progress : Progress
  pub accepted : Bool

abbrev pub latched : Progress → Progress
latched p = record p { outcome = completed }

abbrev pub set_port : Option GpioPort → Replayed → Replayed
set_port (some value) s = record s {
  port_slot = some value;
  progress = latched s.progress;
  accepted = true;
}
set_port none s = record s {
  progress = print (range_error port_flag (length gpio_ports - 1)) s.progress;
  accepted = false;
}

abbrev pub set_pin : Option GpioPin → Replayed → Replayed
set_pin (some value) s = record s {
  pin_slot = some value;
  progress = latched s.progress;
  accepted = true;
}
set_pin none s = record s {
  progress = print (range_error pin_flag (length gpio_pins - 1)) s.progress;
  accepted = false;
}

-- `latch` at its two instances.
unfoldable pub latch_port : List ℕ → Replayed → Replayed
latch_port raw s = set_port (table_entry gpio_ports (parse_u8 raw)) s

unfoldable pub latch_pin : List ℕ → Replayed → Replayed
latch_pin raw s = set_pin (table_entry gpio_pins (parse_u8 raw)) s

abbrev pub after_operation : Result (Unit {0}) × Bus → Replayed → Replayed
after_operation (ok u, bus) s = record s {
  progress = record (latched s.progress) { bus = bus };
  accepted = true;
}
after_operation (err e, bus) s = record s {
  progress = print (argument_error e) (record s.progress { bus = bus });
  accepted = false;
}

unfoldable pub run_operation : Wire (Unit {0}) → Replayed → Replayed
run_operation m s = after_operation (m s.progress.bus) s

module _ (on_read : ReadScope → Wire (Unit {0}))
    (on_write : GpioPort → GpioPin → ℕ → Wire (Unit {0})) where
  abbrev pub write_with : Option ℕ → Option GpioPort → Option GpioPin → Replayed → Replayed
  write_with (some value) (some at) (some on) s = run_operation (on_write at on value) s
  write_with none at on s = record s { accepted = false }
  write_with (some value) none on s = record s {
    progress = print nothing_latched s.progress;
    accepted = false;
  }
  write_with (some value) (some at) none s = record s {
    progress = print nothing_latched s.progress;
    accepted = false;
  }

  unfoldable pub replay_op : GpioOp → Replayed → Replayed
  unfolding latch_port latch_pin run_operation
  replay_op (port raw) s = latch_port raw s
  replay_op (pin raw) s = latch_pin raw s
  replay_op read s = run_operation (on_read (scope_of s.port_slot s.pin_slot)) s
  replay_op (write raw) s = write_with (parse_u8 raw) s.port_slot s.pin_slot s

  unfoldable pub replay_loop : List GpioOp → Replayed → ReplayOutcome × Progress
  replay_loop [] s = (s.progress.outcome, s.progress)
  replay_loop (op ∷ ops) s =
      let s' = replay_op op s in
      let rest = replay_loop ops s' in if s'.accepted then rest else (failed, s'.progress)

  abbrev pub start : Bus → Replayed
  start bus = record {
    port_slot = none;
    pin_slot = none;
    progress = record { outcome = no_ops; bus = bus; lines = [] };
    accepted = true;
  }

  unfoldable pub replay_ops : List GpioOp → Bus → ReplayOutcome × Progress
  unfolding replay_op replay_loop
  replay_ops ops bus = replay_loop ops (start bus)

abbrev pub is_write : GpioOp → Bool
is_write (write raw) = true
is_write _ = false

unfoldable pub any_write : List GpioOp → Bool
any_write [] = false
any_write (op ∷ ops) = is_write op || any_write ops

-- bin/airspy_gpio.rs: a level and a direction for each pin. Printing is left out.
module _ (t : UsbTransport) where
  unfoldable pub dump_port_pin : GpioPort → GpioPin → Wire (Unit {0})
  dump_port_pin at on = gpio_read t at on >>= λ value. gpiodir_read t at on >>= λ direction. pure tt

  unfoldable pub gpio_main : List GpioOp → Bus → ReplayOutcome × Progress
  unfolding replay_ops
  gpio_main ops bus = replay_ops (dump_scope dump_port_pin) (gpio_write t) ops bus

  -- bin/airspy_gpiodir.rs.
  unfoldable pub dump_direction : GpioPort → GpioPin → Wire (Unit {0})
  dump_direction at on = gpiodir_read t at on >>= λ direction. pure tt

  -- None where the tool exits before it opens a device.
  unfoldable pub gpiodir_main : Bool → List GpioOp → Bus → Option (ReplayOutcome × Progress)
  unfolding replay_ops any_write
  gpiodir_main force ops bus =
      if not force && any_write ops
      then none
      else some (replay_ops (dump_scope dump_direction) (gpiodir_write t) ops bus)
