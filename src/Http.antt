-- ===== src/Http.antt =====
-- The HTTP part of the server (http and the packages below it).
pub mod Body
pub mod Cache
pub mod Chunked
pub mod Chars
pub mod Encodings
pub mod Header
pub mod Heads
pub mod Message
pub mod Metadata
pub mod Quoted
pub mod Ranges
pub mod Requests
pub mod Session
pub mod Version
