-- ===== src/Device/Lifecycle.antt =====
-- crates/libairspy/src/device.rs and the `impl Device` of stream.rs: the rate table read at opening, and
-- the start and stop of a stream. The threads are the operating system's: `spawns` says whether one can
-- be started.
pub mod Opening
pub mod Streaming
pub mod Starting
pub mod Freezing
use libairspy_rs.Base.{
  ℕ, ◌*◌, ◌%◌, ◌^◌, min, ◌==◌, Bool, true, false, Option, none, some, List, [], ◌∷◌, ◌++◌, map,
  length, ltb, if◌then◌else◌,
}
use libairspy_rs.Base.Bytes.{from_le}
use libairspy_rs.Commands.{Command, SampleType, float32_iq, ReceiverMode, mode_value, off, rx}
use libairspy_rs.Error.{Error, Result, ok, err}
use libairspy_rs.Transport.{
  UsbTransport, Bus, Call, Worker, reader, consumer, clear_halt, release_interface, spawn, join,
  Wire, ◌>>=◌, ◌>>◌, pure, fail,
}
use libairspy_rs.Device.{
  Device, StreamFlags, running, is_streaming, vendor_out, vendor_in, read_into, perform, no_windex,
  bulk_endpoint,
}
use libairspy_rs.Device.Control.{is_iq}

abbrev pub fallback_samplerates : List ℕ
fallback_samplerates = 10000000 ∷ 2500000 ∷ []

abbrev pub max_samplerate_count : ℕ
max_samplerate_count = 16383

unfoldable pub rates_for_sample_type : List ℕ → SampleType → List ℕ
rates_for_sample_type rates sample_type =
    map (λ r. if is_iq sample_type then r else r * 2 % 2 ^ 32) rates

unfoldable pub samplerates : Device → List ℕ
samplerates d = rates_for_sample_type d.supported_samplerates d.sample_type

-- `chunks_exact(4)`, which drops a partial last word.
unfoldable pub samplerates_from_le_bytes : List ℕ → List ℕ
samplerates_from_le_bytes (a ∷ b ∷ c ∷ d ∷ rest) =
    from_le (a ∷ b ∷ c ∷ d ∷ []) ∷ samplerates_from_le_bytes rest
samplerates_from_le_bytes _ = []

unfoldable pub rate_count : List ℕ → ℕ
rate_count bytes = min (from_le (read_into 4 bytes)) max_samplerate_count

unfoldable pub read_samplerates_from_fw : UsbTransport → Wire (List ℕ)
read_samplerates_from_fw t = vendor_in t Command.get_samplerates 0 0 4 >>= λ bytes.
    if ltb (length bytes) 1
    then fail Error.other
    else if rate_count bytes == 0
    then pure []
    else vendor_in t Command.get_samplerates 0 (rate_count bytes) (rate_count bytes * 4)
      >>= λ table.
          if ltb (length table) 1 then fail Error.other else pure (samplerates_from_le_bytes table)

unfoldable pub from_transport : UsbTransport → Bus → Device × Bus
from_transport t bus = (
  record {
    supported_samplerates = elim (read_samplerates_from_fw t bus).0 [
      | ok rates ↦ rates
      | err e ↦ fallback_samplerates
    ];
    workers = none;
    sample_type = float32_iq;
    packing_enabled = false;
  },
  (read_samplerates_from_fw t bus).1,
)

unfoldable pub set_sample_type : Device → SampleType → Result (Unit {0}) × Device
set_sample_type d sample_type =
    if is_streaming d then (err Error.busy, d) else (ok tt, record d { sample_type = sample_type })

-- The empty request of `set_receiver_mode`; any byte that it reports is an error.
unfoldable pub set_receiver_mode : UsbTransport → ReceiverMode → Wire (Unit {0})
set_receiver_mode t mode =
    vendor_out t Command.receiver_mode (mode_value mode) no_windex [] >>= λ n.
    if n == 0 then pure tt else fail (Error.transfer_length_mismatch 0 n)

abbrev pub without_workers : Device → Device
without_workers d = record d { workers = none }

-- The workers of a stream that ended by itself are joined; those of a live stream stay.
unfoldable pub reap_finished_workers : Device → Bus → (Result (Unit {0}) × Device) × Bus
reap_finished_workers d bus = elim d.workers [
  | none ↦ ((ok tt, d), bus)
  | some w ↦
      if running w
      then ((err Error.busy, d), bus)
      else ((ok tt, without_workers d), join consumer ∷ join reader ∷ bus)
]

-- A call whose result is dropped (`let _ = ...`).
abbrev pub ignoring : Wire (Unit {0}) → Bus → Bus
ignoring m bus = (m bus).1

module _ (t : UsbTransport) (spawns : Bus → Worker → Bool) where
  unfoldable pub prepare_receiver : Wire (Unit {0})
  prepare_receiver =
      set_receiver_mode t off >> (perform (clear_halt bulk_endpoint) >> set_receiver_mode t rx)

  -- The two threads; a failure switches the receiver off again.
  unfoldable pub spawn_workers : Device → Bus → (Result (Unit {0}) × Device) × Bus
  spawn_workers d bus =
      let after_consumer = spawn consumer ∷ bus in
      let after_reader = spawn reader ∷ after_consumer in
      if spawns bus consumer
      then (if spawns after_consumer reader
          then (
            (
              ok tt,
              record d { workers = some (record { streaming = true; stop_requested = false }) },
            ),
            after_reader,
          )
          else (
            (err Error.thread, d),
            ignoring (set_receiver_mode t off) (join consumer ∷ after_reader),
          ))
      else ((err Error.thread, d), ignoring (set_receiver_mode t off) after_consumer)

  -- The rest of `start_rx`, behind `self.reap_finished_workers()?`.
  unfoldable pub after_reaping :
      (Result (Unit {0}) × Device) × Bus → (Result (Unit {0}) × Device) × Bus
  after_reaping reaped =
      let prepared = prepare_receiver reaped.1 in
      elim reaped.0.0 [
        | err e ↦ ((err e, reaped.0.1), reaped.1)
        | ok u ↦ elim prepared.0 [
          | err e ↦ ((err e, reaped.0.1), prepared.1)
          | ok v ↦ spawn_workers reaped.0.1 prepared.1
        ]
      ]

  unfoldable pub start_rx : Device → Bus → (Result (Unit {0}) × Device) × Bus
  start_rx d bus = after_reaping (reap_finished_workers d bus)

-- The joins of `stop_rx`, for the workers taken.
abbrev pub joined : Option StreamFlags → Bus → Bus
joined none bus = bus
joined (some w) bus = join consumer ∷ join reader ∷ bus

-- The stores that `stop_rx` makes in the shared flags are steps of `Stream.System`; here its calls.
unfoldable pub stop_rx : UsbTransport → Device → Bus → (Result (Unit {0}) × Device) × Bus
stop_rx t d bus =
    let switched = set_receiver_mode t off bus in
    ((switched.0, without_workers d), joined d.workers switched.1)

-- `Drop`: the stream is stopped and interface 0 released, whatever either answers.
unfoldable pub drop_device : UsbTransport → Device → Bus → Bus
drop_device t d bus = release_interface 0 ∷ (stop_rx t d bus).1
