-- ===== src/Helpers.antt =====
-- The package helpertools.
pub mod Width
pub mod SafeMap
pub mod BitArray
pub mod ReplayWindow
pub mod SafeSlice
pub mod PacketHeap
pub mod PacketOrderer
pub mod RttCalculator
pub mod Jsonc
pub mod UsedBytes
mod Tests
mod QueueTests
