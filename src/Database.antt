-- ===== src/Database.antt =====
-- The package database: the byte codec of DatabaseShared.go and LimitedString.go, and the two stores.
pub mod Stream
pub mod Codec
pub mod Collections
pub mod Passwords
pub mod LimitedText
pub mod RamStore
pub mod Journal
mod Tests
