-- ===== src/Tests.antt =====
-- Runs of the theorems at concrete inputs.
pub mod Data
pub mod State
pub mod Git
pub mod Monitor
pub mod Sync
pub mod Service
pub mod Import
pub mod Watcher
pub mod Tree
pub mod StreamTree
pub mod Verify
