-- ===== src/Tests/Registers.antt =====
-- The replay of register options.
use libairspy_rs.Base.{ℕ, ◌≡◌, List, [], ◌∷◌, length}
use libairspy_rs.Error.{Error, Result, ok, err}
use libairspy_rs.Transport.{UsbTransport, Call, control_out}
use libairspy_rs.Device.Peripherals.{r820t_write}
use libairspy_rs.Tools.Registers.{
  RegOp, r820t_spec, r820t_scope, configure_from, conf_r820t, replay_reg_ops,
}
use libairspy_rs.Tools.Registers.Order.{described, outcome_of, replay_reg_ops-described}

abbrev accepts : Call → Result ℕ
accepts (control_out c v i payload) = ok (length payload)
accepts _ = err Error.other

abbrev firmware : UsbTransport
firmware = record { write_control = λ bus c. accepts c; read_control = λ bus c. ok (1 ∷ []) }

-- `-n 10 -w 22 -r`
abbrev options : List RegOp
options = RegOp.register (49 ∷ 48 ∷ []) ∷ RegOp.write (50 ∷ 50 ∷ []) ∷ RegOp.read ∷ []

replay_reg_ops-described_example :
    let d =
      described r820t_spec
        (r820t_scope firmware)
        (r820t_write firmware)
        (configure_from firmware 5 conf_r820t)
        []
        options
        [] in
    let found =
      replay_reg_ops r820t_spec
        (r820t_scope firmware)
        (r820t_write firmware)
        (configure_from firmware 5 conf_r820t)
        options
        [] in
    (found.0 ≡ outcome_of [] options d.0) × (found.1.bus ≡ d.1)
replay_reg_ops-described_example =
    replay_reg_ops-described r820t_spec (r820t_scope firmware) (r820t_write firmware)
      (configure_from firmware 5 conf_r820t) options []
