-- ===== src/Bits.antt =====
-- The bit operations of C on unsigned words, as arithmetic on native numbers: what the masks,
-- shifts and sign bits of the decoder and of the instruction functions amount to.
mod Digit
mod Split
mod Masks
pub use Split.{bit_and_split, bit_or_split, bit_xor_split, bit_and-lt, bit_or-lt, bit_xor-lt}
pub use Masks.*
