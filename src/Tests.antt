-- ===== src/Tests.antt =====
-- Each theorem's conditions, met at a concrete input.
mod Streams
mod Bridges
mod Samples
mod Handles
mod Arguments
mod Tools
mod Flashing
mod Setup
mod Registers
