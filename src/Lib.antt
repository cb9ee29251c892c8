-- ===== src/Lib.antt =====
-- A model of libairspy, the Airspy SDR driver of this repository (crates/libairspy), with the theorems
-- that its parts rest on.
--
-- A device streams like this. The reader thread keeps bulk USB transfers in flight and hands each full
-- one to a ring of buffers; the consumer thread takes the buffers out, unpacks and converts the samples,
-- runs the IQ converter where asked, and calls back; the owner starts and stops the two. Everything else
-- (tuning, gains, registers, flash, board data) is one vendor request at a time over the same transport.
--
--   Base: numbers, lists, bytes, bit masks, and two's-complement words as integers in a range.
--   Error, Commands: crates/libairspy/src/error.rs and commands.rs, values and wire bytes.
--   Stream.Queue: `SampleQueue` of stream.rs, a function on the state for every method under the lock.
--   Its children prove bounds, order and the accounting of losses over any sequence of calls.
--   Stream.System: `run_consumer`, the reader's side of `run_bulk_stream_impl` and `Device::stop_rx` as
--   interleaved steps of two workers and an owner; a step is one access of the shared state.
--   Stream.Consumer: the loop of `run_consumer` with its conversion, over the answers of queue, flags and
--   callback. Stream.Bridge: the blocking iterator of reader.rs, the stream of Stream.System with a bounded
--   channel between the callback and the iterator.
--   Transport: `UsbTransport` of transport.rs as a parameter, a function of the calls made so far, and
--   computations that record their calls. Transport.Reader: `handle_bulk_completion`,
--   `record_transient` and `run_bulk_stream_impl`: its endpoint that opens or not, its loop over a list of
--   polls, and its drain over a list of waits that end in time or not.
--   Conversion: conversion.rs. Unpack is `unpack_samples`; Dispatch is `convert_block` with its scratch.
--   Iq: iqconverter_int16.rs (Fixed) and iqconverter_float.rs (Float). Queue, Fir and Delay hold the
--   sliding queue and the delay line, which the two files share in all but the sample type and the
--   size factor. A slice that the source changes in place is a list that the function returns.
--   Device: device.rs, transfer.rs, control.rs, peripherals.rs, board.rs and the `impl Device` of
--   stream.rs. A `Device` is its state; the transport is an argument. `&mut self` methods return the new
--   device with their answer.
--   Tools: crates/airspy-tools/src. Flash is flash_cli.rs, Calibration the record of calib_cli.rs, Numbers
--   `parse_u64` of lib.rs. Wav is wav.rs. Receive is rx.rs, Receive.Config rx_cli.rs; Receive.Setup is the
--   configuration of the device by bin/airspy_rx.rs, and Receive.Capture its callback and its output file,
--   where every write is answered in full or in part, and the stream may not start or not be tuned.
--   Replay holds `parse_u8` and what the two replay loops share; Gpio is gpio_cli.rs with the device
--   functions of bin/airspy_gpio.rs and bin/airspy_gpiodir.rs, Registers is reg_cli.rs with those of
--   bin/airspy_si5351c.rs and bin/airspy_r820t.rs. The operations of a device are computations on the wire.
--   Spiflash is bin/airspy_spiflash.rs and Calibrate bin/airspy_calibrate.rs, both over Chip, the flash
--   behind the transport as the tools rely on it.
--   Tests: every theorem at a concrete input.
--
-- Numbers are natural numbers, with the source's truncations written out; an `i16` or `i32` is an
-- integer, and each cast or wrapping operation is `wrap16` or `wrap32`. Loops are recursions on lists;
-- only the walk of Tools.Flash runs on fuel, as much as the range has bytes, of which every transfer
-- takes one at least, and `show_decimal` of Tools.Wav, which has the ten digits of a `u32`.
--
-- Not modelled: nusb, the threads' scheduler and the standard library, which are parameters (the answers
-- of the transport, whether a thread can be started, `from_utf8_lossy`, the answers of the file system,
-- the flash chip, which keeps what it is told); the arithmetic of `f32` and `f64`, a parameter of which
-- nothing is assumed, and the parsing of a frequency in MHz, which is one too; logging, printing, sleeping
-- and allocation; device enumeration, which only drives nusb; the tokio and smol streams, which are polled
-- by their runtimes; the clap tables of crates/airspy-tools, its signal handling, and airspy_info.
pub mod Base
pub mod Error
pub mod Commands
pub mod Stream
pub mod Transport
pub mod Conversion
pub mod Iq
pub mod Device
pub mod Tools
pub mod Tests
