-- ===== src/Allocator.antt =====
-- allocator/: memory resources on one piece of memory.
pub mod SortedList
mod Tests
