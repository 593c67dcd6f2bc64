-- ===== src/State.antt =====
-- p4gitsync/src/p4gitsync/state/state_store.py
pub mod Schema
pub mod Connection
pub mod SyncState
pub mod CommitMap
pub mod Users
pub mod Errors
pub mod Streams
pub mod Conflicts
pub mod Archive
