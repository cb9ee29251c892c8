-- ===== src/Stream.antt =====
-- crates/libairspy/src/stream.rs: the constants of the streaming engine. The ring is in `Queue`, the
-- two worker threads over it in `System`.
pub mod Queue
pub mod System
pub mod Bridge
pub mod Consumer
use libairspy_rs.Base.{ℕ, Bool, ◌*◌, ◌^◌, ◌+◌, ltb, if◌then◌else◌}

-- A buffer of bytes (`Vec<u8>`).
abbrev pub Buf : Type 0
Buf = libairspy_rs.Base.List ℕ

abbrev pub raw_buffer_count : ℕ
raw_buffer_count = 8

abbrev pub buffer_size : ℕ
buffer_size = 262144

abbrev pub packed_buffer_size : ℕ
packed_buffer_size = 6144 * 24

abbrev pub buffer_size_for : Bool → ℕ
buffer_size_for packing_enabled = if packing_enabled then packed_buffer_size else buffer_size
