-- ===== src/Examples.antt =====
-- Concrete runs: each takes a general theorem at one input.
pub mod Host
pub mod Stored
pub mod Reserved
pub mod Steps
pub mod Paged
pub mod Decoded
pub mod Traps
pub mod Kept
pub mod Device
pub mod Computed
pub mod Debugged
pub mod Program
