-- ===== src/Perforce.antt =====
-- p4gitsync/src/p4gitsync/p4: what the Perforce server reports.
pub mod Change
pub mod Head
pub mod Merge
