-- ===== src/Sync.antt =====
-- p4gitsync/src/p4gitsync/services: the loop that brings changelists into Git.
pub mod World
pub mod Changelist
pub mod Poll
pub mod Startup
pub mod Conflict
pub mod Rounds
pub mod Replay
pub mod Events
pub mod MultiStream
pub mod Watcher
pub mod Builder
pub mod Reverse
pub mod Redis
