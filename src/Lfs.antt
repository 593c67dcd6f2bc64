-- ===== src/Lfs.antt =====
-- p4gitsync/src/p4gitsync/lfs and config/lfs_config.py: which files Git LFS stores, the pointers
-- that stand for them in Git, and the store of their contents.
pub mod Routing
pub mod Pointer
pub mod Store
