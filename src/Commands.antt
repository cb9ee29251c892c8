-- ===== src/Commands.antt =====
-- crates/libairspy/src/commands.rs: the vendor requests and enumerations shared with the firmware, and
-- the byte that each puts on the wire.
pub mod Codes
use Prim.Native.String.{String}
use libairspy_rs.Base.{ℕ, Bool, true, false, Option, none, some, ◌==◌, if◌then◌else◌}

pub data Command : Type 0 where
  invalid receiver_mode si5351c_write si5351c_read : Command
  r820t_write r820t_read spiflash_erase spiflash_write : Command
  spiflash_read board_id_read version_string_read board_part_id_serial_no_read : Command
  set_samplerate set_freq set_lna_gain set_mixer_gain : Command
  set_vga_gain set_lna_agc set_mixer_agc ms_vendor_cmd : Command
  set_rf_bias gpio_write gpio_read gpiodir_write : Command
  gpiodir_read get_samplerates set_packing spiflash_erase_sector : Command

abbrev pub cmd_max : ℕ
cmd_max = 27

-- `command as u8`
unfoldable pub byte : Command → ℕ
byte invalid = 0
byte receiver_mode = 1
byte si5351c_write = 2
byte si5351c_read = 3
byte r820t_write = 4
byte r820t_read = 5
byte spiflash_erase = 6
byte spiflash_write = 7
byte spiflash_read = 8
byte board_id_read = 9
byte version_string_read = 10
byte board_part_id_serial_no_read = 11
byte set_samplerate = 12
byte set_freq = 13
byte set_lna_gain = 14
byte set_mixer_gain = 15
byte set_vga_gain = 16
byte set_lna_agc = 17
byte set_mixer_agc = 18
byte ms_vendor_cmd = 19
byte set_rf_bias = 20
byte gpio_write = 21
byte gpio_read = 22
byte gpiodir_write = 23
byte gpiodir_read = 24
byte get_samplerates = 25
byte set_packing = 26
byte spiflash_erase_sector = 27

pub data ReceiverMode : Type 0 where
  off rx : ReceiverMode

unfoldable pub mode_value : ReceiverMode → ℕ
mode_value off = 0
mode_value rx = 1

pub data SampleType : Type 0 where
  float32_iq float32_real int16_iq int16_real uint16_real raw : SampleType

unfoldable pub sample_type_value : SampleType → ℕ
sample_type_value float32_iq = 0
sample_type_value float32_real = 1
sample_type_value int16_iq = 2
sample_type_value int16_real = 3
sample_type_value uint16_real = 4
sample_type_value raw = 5

pub data BoardId : Type 0 where
  proto_airspy invalid_board : BoardId

unfoldable pub board_id_from_u8 : ℕ → Option BoardId
board_id_from_u8 value =
    if value == 0 then some proto_airspy else if value == 0xff then some invalid_board else none

unfoldable pub board_id_name : BoardId → String
board_id_name proto_airspy = "AIRSPY"
board_id_name invalid_board = "Invalid Board ID"

pub data GpioPort : Type 0 where
  port0 port1 port2 port3 port4 port5 port6 port7 : GpioPort

unfoldable pub port_byte : GpioPort → ℕ
port_byte port0 = 0
port_byte port1 = 1
port_byte port2 = 2
port_byte port3 = 3
port_byte port4 = 4
port_byte port5 = 5
port_byte port6 = 6
port_byte port7 = 7

pub data GpioPin : Type 0 where
  pin0 pin1 pin2 pin3 pin4 pin5 pin6 pin7 : GpioPin
  pin8 pin9 pin10 pin11 pin12 pin13 pin14 pin15 : GpioPin
  pin16 pin17 pin18 pin19 pin20 pin21 pin22 pin23 : GpioPin
  pin24 pin25 pin26 pin27 pin28 pin29 pin30 pin31 : GpioPin

unfoldable pub pin_byte : GpioPin → ℕ
pin_byte pin0 = 0
pin_byte pin1 = 1
pin_byte pin2 = 2
pin_byte pin3 = 3
pin_byte pin4 = 4
pin_byte pin5 = 5
pin_byte pin6 = 6
pin_byte pin7 = 7
pin_byte pin8 = 8
pin_byte pin9 = 9
pin_byte pin10 = 10
pin_byte pin11 = 11
pin_byte pin12 = 12
pin_byte pin13 = 13
pin_byte pin14 = 14
pin_byte pin15 = 15
pin_byte pin16 = 16
pin_byte pin17 = 17
pin_byte pin18 = 18
pin_byte pin19 = 19
pin_byte pin20 = 20
pin_byte pin21 = 21
pin_byte pin22 = 22
pin_byte pin23 = 23
pin_byte pin24 = 24
pin_byte pin25 = 25
pin_byte pin26 = 26
pin_byte pin27 = 27
pin_byte pin28 = 28
pin_byte pin29 = 29
pin_byte pin30 = 30
pin_byte pin31 = 31
