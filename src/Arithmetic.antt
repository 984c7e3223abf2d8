-- ===== src/Arithmetic.antt =====
-- arithmetic/: numbers of any size.
pub mod Digits
pub mod BigInt
pub mod Fraction
mod Tests
