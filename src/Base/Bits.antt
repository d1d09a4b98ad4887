-- ===== src/Base/Bits.antt =====
-- The binary digits of the native numbers: laws of `&`, `|` and `^` at variables.
mod Step
mod Digit
mod Fields
mod Bytes
mod Masks
unfoldable pub use Digit.*
pub use Fields.*
pub use Bytes.*
pub use Masks.*
