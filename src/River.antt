-- ===== src/River.antt =====
-- The river-crossing game of SP/task4: a server that keeps a session for each client's queue, and
-- a client that plays a list of commands.
pub mod Message
pub mod Server
pub mod Client
pub mod Match
mod Tests
