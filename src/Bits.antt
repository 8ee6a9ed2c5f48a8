-- ===== src/Bits.antt =====
-- Binary digits of the native numbers: digit equations, single bits, words of a fixed width.
pub mod Step
pub mod Digit
