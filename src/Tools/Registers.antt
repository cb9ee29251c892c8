-- ===== src/Tools/Registers.antt =====
-- crates/airspy-tools/src/reg_cli.rs and the device functions of bin/airspy_si5351c.rs and
-- bin/airspy_r820t.rs. Printing is left out.
pub mod Order
pub mod Multisynth
use Prim.Native.Nat.{bit_and, bit_or}
use libairspy_rs.Base.{
  ℕ, zero, suc, ◌+◌, ◌*◌, ◌%◌, ◌^◌, ◌==◌, Bool, true, false, Option, none, some, List, [], ◌∷◌, leb,
  ltb, get_or, if◌then◌else◌,
}
use libairspy_rs.Base.Bits.{shl, shr}
use libairspy_rs.Error.{Error, Result, ok, err}
use libairspy_rs.Transport.{UsbTransport, Bus, Wire, ◌>>=◌, ◌>>◌, pure}
use libairspy_rs.Device.Peripherals.{si5351c_read, si5351c_write, r820t_read, r820t_write}
use libairspy_rs.Tools.Replay.{
  parse_u8, ReplayOutcome, no_ops, completed, failed, Line, register_flag, write_flag, range_error,
  nothing_latched, Progress, print,
}

pub record RegToolSpec : Type 0 where
  pub register_max : ℕ
  pub print_messages : Bool

abbrev pub r820t_spec : RegToolSpec
r820t_spec = record { register_max = 31; print_messages = true }

abbrev pub si5351c_spec : RegToolSpec
si5351c_spec = record { register_max = 255; print_messages = false }

-- A text is the list of its bytes.
pub data RegOp : Type 0 where
  register : List ℕ → RegOp
  read : RegOp
  write : List ℕ → RegOp
  config : RegOp

pub data RegReadScope : Type 0 where
  all_registers : RegReadScope
  single : ℕ → RegReadScope

-- The walk over `count` registers from `next` on.
unfoldable pub dump_from : (ℕ → Wire (Unit {0})) → ℕ → ℕ → Wire (Unit {0})
dump_from per_register zero next = pure tt
dump_from per_register (suc count) next =
    per_register next >> dump_from per_register count (next + 1)

unfoldable pub dump_all_registers : ℕ → (ℕ → Wire (Unit {0})) → Wire (Unit {0})
dump_all_registers register_max per_register = dump_from per_register (suc register_max) 0

-- The state of the loop, and whether the option just replayed was accepted.
pub record Replayed : Type 0 where
  pub slot : Option ℕ
  pub progress : Progress
  pub accepted : Bool

abbrev pub latched : Progress → Progress
latched p = record p { outcome = completed }

-- A line that only one of the tools prints.
abbrev pub print_if : Bool → Line → Progress → Progress
print_if true l p = print l p
print_if false l p = p

-- `filter(|v| *v <= spec.register_max)`
abbrev pub in_range : ℕ → Option ℕ → Option ℕ
in_range max none = none
in_range max (some v) = if leb v max then some v else none

abbrev pub set_register : RegToolSpec → Option ℕ → Replayed → Replayed
set_register spec (some value) s = record s {
  slot = some value;
  progress = latched s.progress;
  accepted = true;
}
set_register spec none s = record s {
  progress = print_if spec.print_messages (range_error register_flag spec.register_max) s.progress;
  accepted = false;
}

unfoldable pub latch_register : RegToolSpec → List ℕ → Replayed → Replayed
latch_register spec raw s = set_register spec (in_range spec.register_max (parse_u8 raw)) s

abbrev pub after_operation : Result (Unit {0}) × Bus → Replayed → Replayed
after_operation (ok u, bus) s = record s {
  progress = record (latched s.progress) { bus = bus };
  accepted = true;
}
after_operation (err e, bus) s = record s {
  progress = record s.progress { bus = bus };
  accepted = false;
}

unfoldable pub run_operation : Wire (Unit {0}) → Replayed → Replayed
run_operation m s = after_operation (m s.progress.bus) s

abbrev pub scope_of : Option ℕ → RegReadScope
scope_of none = all_registers
scope_of (some r) = single r

module _ (spec : RegToolSpec) (on_read : RegReadScope → Wire (Unit {0}))
    (on_write : ℕ → ℕ → Wire (Unit {0})) (on_config : Wire (Unit {0})) where
  abbrev pub write_with : Option ℕ → Option ℕ → Replayed → Replayed
  write_with (some value) (some r) s = run_operation (on_write r value) s
  write_with none r s = record s {
    progress = print_if spec.print_messages (range_error write_flag 255) s.progress;
    accepted = false;
  }
  write_with (some value) none s = record s {
    progress = print nothing_latched s.progress;
    accepted = false;
  }

  unfoldable pub write_latched : List ℕ → Replayed → Replayed
  unfolding run_operation
  write_latched raw s = write_with (parse_u8 raw) s.slot s

  unfoldable pub replay_op : RegOp → Replayed → Replayed
  unfolding latch_register run_operation write_latched
  replay_op (register raw) s = latch_register spec raw s
  replay_op read s = run_operation (on_read (scope_of s.slot)) s
  replay_op (write raw) s = write_latched raw s
  replay_op config s = run_operation on_config s

  unfoldable pub replay_loop : List RegOp → Replayed → ReplayOutcome × Progress
  replay_loop [] s = (s.progress.outcome, s.progress)
  replay_loop (op ∷ ops) s =
      let s' = replay_op op s in
      let rest = replay_loop ops s' in if s'.accepted then rest else (failed, s'.progress)

  abbrev pub start : Bus → Replayed
  start bus = record {
    slot = none;
    progress = record { outcome = no_ops; bus = bus; lines = [] };
    accepted = true;
  }

  unfoldable pub replay_reg_ops : List RegOp → Bus → ReplayOutcome × Progress
  unfolding replay_op replay_loop
  replay_reg_ops ops bus = replay_loop ops (start bus)

abbrev pub div_lut : List ℕ
div_lut = 1 ∷ 2 ∷ 4 ∷ 8 ∷ 16 ∷ 32 ∷ 64 ∷ 128 ∷ []

pub record MsParams : Type 0 where
  pub p1 : ℕ
  pub p2 : ℕ
  pub p3 : ℕ
  pub r_div : ℕ

-- `p[i]` of the eight parameter bytes.
abbrev pub at : List ℕ → ℕ → ℕ
at p i = get_or p i 0

unfoldable pub ms_params : List ℕ → MsParams
ms_params p = record {
  p1 = bit_or (bit_or (shl (bit_and (at p 2) 0x03) 16) (shl (at p 3) 8)) (at p 4);
  p2 = bit_or (bit_or (shl (bit_and (at p 5) 0x0f) 16) (shl (at p 6) 8)) (at p 7);
  p3 = bit_or (bit_or (shl (bit_and (at p 5) 0xf0) 12) (shl (at p 0) 8)) (at p 1);
  r_div = bit_and (shr (at p 2) 4) 0x7;
}

-- The default values of the registers from 5 on.
abbrev pub conf_r820t : List ℕ
conf_r820t =
    0x12 ∷ 0x32 ∷ 0x75 ∷ 0xc0 ∷ 0x40 ∷ 0xd6 ∷ 0x6c ∷ 0x40 ∷ 0x63 ∷ 0x75 ∷ 0x68 ∷ 0x6c ∷ 0x83 ∷ 0x80
    ∷ 0x00 ∷ 0x0f ∷ 0x00 ∷ 0xc0 ∷ 0x30 ∷ 0x48 ∷ 0xcc ∷ 0x60 ∷ 0x00 ∷ 0x54 ∷ 0xae ∷ 0x4a ∷ 0xc0 ∷ []

module _ (t : UsbTransport) where
  unfoldable pub si5351c_scope : RegReadScope → Wire (Unit {0})
  si5351c_scope all_registers = dump_all_registers 255 (λ r. si5351c_read t r >>= λ value. pure tt)
  si5351c_scope (single r) = si5351c_read t r >>= λ value. pure tt

  unfoldable pub r820t_scope : RegReadScope → Wire (Unit {0})
  r820t_scope all_registers = dump_all_registers 31 (λ r. r820t_read t r >>= λ value. pure tt)
  r820t_scope (single r) = r820t_read t r >>= λ value. pure tt

  -- The registers of a multisynth, `count` of them from `base` on.
  unfoldable pub read_parameters : ℕ → ℕ → Wire (List ℕ)
  read_parameters zero base = pure []
  read_parameters (suc count) base =
      si5351c_read t base >>= λ b. read_parameters count (base + 1) >>= λ bs. pure (b ∷ bs)

  -- MS0 to MS5 have eight registers each from 42 on, MS6 and MS7 share three from 90 on.
  unfoldable pub dump_multisynth_config : ℕ → Wire (Unit {0})
  dump_multisynth_config ms_number =
      if ltb ms_number 6
      then (read_parameters 8 (42 + ms_number * 8) >>= λ p. pure tt)
      else read_parameters 3 90 >>= λ p. pure tt

  unfoldable pub dump_configuration : ℕ → ℕ → Wire (Unit {0})
  dump_configuration zero ms_number = pure tt
  dump_configuration (suc left) ms_number =
      dump_multisynth_config ms_number >> dump_configuration left (ms_number + 1)

  unfoldable pub si5351c_main : List RegOp → Bus → ReplayOutcome × Progress
  unfolding replay_reg_ops
  si5351c_main ops bus =
      replay_reg_ops si5351c_spec si5351c_scope (si5351c_write t) (dump_configuration 8 0) ops bus

  -- `configure_registers`: the table goes to the registers from 5 on.
  unfoldable pub configure_from : ℕ → List ℕ → Wire (Unit {0})
  configure_from next [] = pure tt
  configure_from next (value ∷ values) =
      r820t_write t next value >> configure_from (next + 1) values

  unfoldable pub r820t_main : List RegOp → Bus → ReplayOutcome × Progress
  unfolding replay_reg_ops
  r820t_main ops bus =
      replay_reg_ops r820t_spec r820t_scope (r820t_write t) (configure_from 5 conf_r820t) ops bus
