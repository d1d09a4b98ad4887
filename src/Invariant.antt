-- ===== src/Invariant.antt =====
-- What every state of the emulator satisfies, and that the code keeps it: include/emu.h.
pub mod CsrLaws
pub mod State
pub mod Accesses
pub mod Translation
pub mod Traps
pub mod Arithmetic
pub mod Loads
pub mod Stores
pub mod Atomics
pub mod Systems
pub mod Floats
pub mod FloatInstructions
pub mod Executed
pub mod Fetched
pub mod Stepped
pub mod Returned
pub mod Stopped
pub mod Ran
pub mod Loaded
pub mod Course
pub mod Commands
pub mod Session
