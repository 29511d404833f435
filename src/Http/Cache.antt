-- ===== src/Http/Cache.antt =====
-- Cache control (http/cache-control.go).
pub mod Directive
pub mod Expiry
pub mod Held
pub mod Request
pub mod Resource
