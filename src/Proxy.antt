-- ===== src/Proxy.antt =====
-- The package proxy.
pub mod Frames
mod Tests
