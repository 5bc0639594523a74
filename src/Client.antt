-- ===== src/Client.antt =====
-- The client library, libs/client: the commands that a client prepares, what became of those that
-- it sent, and the messages that wait for it.
pub mod Commands
pub mod Status
pub mod Messages
pub mod Receiving
pub mod Streams
