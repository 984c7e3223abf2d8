-- ===== src/Files.antt =====
-- The file tools of SP/task2.
pub mod Kmp
pub mod Blocks
pub mod Mask
pub mod Copy
mod Tests
