-- ===== src/Users.antt =====
-- The shell of SP/task1: its vector of users, its dates and the commands of a user.
pub mod Vector
pub mod Dates
pub mod Commands
pub mod Login
mod Tests
