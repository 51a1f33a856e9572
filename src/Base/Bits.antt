-- ===== src/Base/Bits.antt =====
-- Binary digits of a native number: the digits of a remainder, of a sum of fields and of the bitwise
-- operations, and that a number is known by its digits.
mod Digits
mod Bitwise
pub use Digits.*
unfoldable pub use Digits.{test_bit}
pub use Bitwise.*
