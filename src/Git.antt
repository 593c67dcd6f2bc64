-- ===== src/Git.antt =====
-- p4gitsync/src/p4gitsync/git: what is written into commits and changelists, and read back.
pub mod Trailers
pub mod FileMode
pub mod Tree
pub mod Cli
pub mod Output
pub mod Pygit2
