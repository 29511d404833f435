-- ===== src/Jps.antt =====
-- The protocol-independent part of the server (jps).
pub mod Handlers
pub mod Outgoing
pub mod Pipe
pub mod Range
pub mod Server
pub mod Status
