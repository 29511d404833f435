-- ===== src/Examples.antt =====
-- Runs of the model and each theorem at a concrete input.
mod Processors
mod Jps
mod Http
mod Header
mod Heads
mod Requests
mod Session
mod Body
mod Encodings
mod Ranges
mod Server
mod Version
mod Cache
mod Chunked
mod Metadata
mod Outgoing
