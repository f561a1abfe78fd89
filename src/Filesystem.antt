-- ===== src/Filesystem.antt =====
-- The package filesystem: the difference of two sequences, the patch that applies it, and joined
-- paths.
pub mod Diff
pub mod PathTools
mod Tests
