-- ===== src/Listing.antt =====
-- SP/task6: a server that lists directories for its clients over a socket.
pub mod Wire
pub mod Server
pub mod Client
mod Tests
