-- ===== src/Commands/Codes.antt =====
-- The bytes of the enumerations: every one in its range, and no two alike.
use libairspy_rs.Base.{◌≤◌, ◌<◌, ◌≡◌, refl, ap, List, [], ◌∷◌, some, get_elem?, arith}
use libairspy_rs.Commands.{
  Command, byte, cmd_max, invalid, receiver_mode, si5351c_write, si5351c_read, r820t_write,
  r820t_read, spiflash_erase, spiflash_write, spiflash_read, board_id_read, version_string_read,
  board_part_id_serial_no_read, set_samplerate, set_freq, set_lna_gain, set_mixer_gain,
  set_vga_gain, set_lna_agc, set_mixer_agc, ms_vendor_cmd, set_rf_bias, gpio_write, gpio_read,
  gpiodir_write, gpiodir_read, get_samplerates, set_packing, spiflash_erase_sector, GpioPort,
  port_byte, port0, port1, port2, port3, port4, port5, port6, port7, GpioPin, pin_byte, pin0, pin1,
  pin2, pin3, pin4, pin5, pin6, pin7, pin8, pin9, pin10, pin11, pin12, pin13, pin14, pin15, pin16,
  pin17, pin18, pin19, pin20, pin21, pin22, pin23, pin24, pin25, pin26, pin27, pin28, pin29, pin30,
  pin31,
}

abbrev requests : List Command
requests =
    invalid ∷ receiver_mode ∷ si5351c_write ∷ si5351c_read ∷ r820t_write ∷ r820t_read
    ∷ spiflash_erase ∷ spiflash_write ∷ spiflash_read ∷ board_id_read ∷ version_string_read
    ∷ board_part_id_serial_no_read ∷ set_samplerate ∷ set_freq ∷ set_lna_gain ∷ set_mixer_gain
    ∷ set_vga_gain ∷ set_lna_agc ∷ set_mixer_agc ∷ ms_vendor_cmd ∷ set_rf_bias ∷ gpio_write
    ∷ gpio_read ∷ gpiodir_write ∷ gpiodir_read ∷ get_samplerates ∷ set_packing
    ∷ spiflash_erase_sector ∷ []

byte-lookup : (c : Command) → (get_elem? requests (byte c) ≡ some c) × (byte c ≤ cmd_max)
unfolding byte
byte-lookup invalid = (refl, omega arith)
byte-lookup receiver_mode = (refl, omega arith)
byte-lookup si5351c_write = (refl, omega arith)
byte-lookup si5351c_read = (refl, omega arith)
byte-lookup r820t_write = (refl, omega arith)
byte-lookup r820t_read = (refl, omega arith)
byte-lookup spiflash_erase = (refl, omega arith)
byte-lookup spiflash_write = (refl, omega arith)
byte-lookup spiflash_read = (refl, omega arith)
byte-lookup board_id_read = (refl, omega arith)
byte-lookup version_string_read = (refl, omega arith)
byte-lookup board_part_id_serial_no_read = (refl, omega arith)
byte-lookup set_samplerate = (refl, omega arith)
byte-lookup set_freq = (refl, omega arith)
byte-lookup set_lna_gain = (refl, omega arith)
byte-lookup set_mixer_gain = (refl, omega arith)
byte-lookup set_vga_gain = (refl, omega arith)
byte-lookup set_lna_agc = (refl, omega arith)
byte-lookup set_mixer_agc = (refl, omega arith)
byte-lookup ms_vendor_cmd = (refl, omega arith)
byte-lookup set_rf_bias = (refl, omega arith)
byte-lookup gpio_write = (refl, omega arith)
byte-lookup gpio_read = (refl, omega arith)
byte-lookup gpiodir_write = (refl, omega arith)
byte-lookup gpiodir_read = (refl, omega arith)
byte-lookup get_samplerates = (refl, omega arith)
byte-lookup set_packing = (refl, omega arith)
byte-lookup spiflash_erase_sector = (refl, omega arith)

-- Two vendor requests with the same byte on the wire are one request, and no byte is above `CMD_MAX`.
pub byte-distinct : (c d : Command) → byte c ≡ byte d → (c ≡ d) × (byte c ≤ cmd_max)
byte-distinct c d e =
    (cc ((byte-lookup c).0, (byte-lookup d).0, ap (get_elem? requests) e), (byte-lookup c).1)

abbrev pub all_ports : List GpioPort
all_ports = port0 ∷ port1 ∷ port2 ∷ port3 ∷ port4 ∷ port5 ∷ port6 ∷ port7 ∷ []

pub port_byte-lookup :
    (p : GpioPort) → (get_elem? all_ports (port_byte p) ≡ some p) × (port_byte p < 8)
unfolding port_byte
port_byte-lookup port0 = (refl, omega arith)
port_byte-lookup port1 = (refl, omega arith)
port_byte-lookup port2 = (refl, omega arith)
port_byte-lookup port3 = (refl, omega arith)
port_byte-lookup port4 = (refl, omega arith)
port_byte-lookup port5 = (refl, omega arith)
port_byte-lookup port6 = (refl, omega arith)
port_byte-lookup port7 = (refl, omega arith)

abbrev pub all_pins : List GpioPin
all_pins =
    pin0 ∷ pin1 ∷ pin2 ∷ pin3 ∷ pin4 ∷ pin5 ∷ pin6 ∷ pin7 ∷ pin8 ∷ pin9 ∷ pin10 ∷ pin11 ∷ pin12
    ∷ pin13 ∷ pin14 ∷ pin15 ∷ pin16 ∷ pin17 ∷ pin18 ∷ pin19 ∷ pin20 ∷ pin21 ∷ pin22 ∷ pin23 ∷ pin24
    ∷ pin25 ∷ pin26 ∷ pin27 ∷ pin28 ∷ pin29 ∷ pin30 ∷ pin31 ∷ []

pub pin_byte-lookup : (p : GpioPin) → (get_elem? all_pins (pin_byte p) ≡ some p) × (pin_byte p < 32)
unfolding pin_byte
pin_byte-lookup pin0 = (refl, omega arith)
pin_byte-lookup pin1 = (refl, omega arith)
pin_byte-lookup pin2 = (refl, omega arith)
pin_byte-lookup pin3 = (refl, omega arith)
pin_byte-lookup pin4 = (refl, omega arith)
pin_byte-lookup pin5 = (refl, omega arith)
pin_byte-lookup pin6 = (refl, omega arith)
pin_byte-lookup pin7 = (refl, omega arith)
pin_byte-lookup pin8 = (refl, omega arith)
pin_byte-lookup pin9 = (refl, omega arith)
pin_byte-lookup pin10 = (refl, omega arith)
pin_byte-lookup pin11 = (refl, omega arith)
pin_byte-lookup pin12 = (refl, omega arith)
pin_byte-lookup pin13 = (refl, omega arith)
pin_byte-lookup pin14 = (refl, omega arith)
pin_byte-lookup pin15 = (refl, omega arith)
pin_byte-lookup pin16 = (refl, omega arith)
pin_byte-lookup pin17 = (refl, omega arith)
pin_byte-lookup pin18 = (refl, omega arith)
pin_byte-lookup pin19 = (refl, omega arith)
pin_byte-lookup pin20 = (refl, omega arith)
pin_byte-lookup pin21 = (refl, omega arith)
pin_byte-lookup pin22 = (refl, omega arith)
pin_byte-lookup pin23 = (refl, omega arith)
pin_byte-lookup pin24 = (refl, omega arith)
pin_byte-lookup pin25 = (refl, omega arith)
pin_byte-lookup pin26 = (refl, omega arith)
pin_byte-lookup pin27 = (refl, omega arith)
pin_byte-lookup pin28 = (refl, omega arith)
pin_byte-lookup pin29 = (refl, omega arith)
pin_byte-lookup pin30 = (refl, omega arith)
pin_byte-lookup pin31 = (refl, omega arith)
