-- ===== src/Lib.antt =====
-- P4SyncGit keeps a Git repository in step with the streams of a Perforce depot. This library models the
-- Python package p4gitsync/src/p4gitsync and proves what its parts are to do.
--
-- The parts and their files (paths below p4gitsync/src/p4gitsync):
--   State          state/state_store.py. The tables are lists of rows (State.Schema); a store has the tables
--                  as the connection sees them and as they stand in the file, and a flag for an open
--                  transaction (State.Connection). Each method of StateStore is a function of its name in
--                  SyncState, CommitMap, Users, Errors, Streams, Conflicts or Archive. Sql holds the
--                  statements they are made of.
--   Git            git/commit_metadata.py (Git.Trailers), git/file_mode.py (Git.FileMode), and the two
--                  implementations of Git access: the trees (Git.Tree) and the operator (Git.Pygit2) of
--                  git/pygit2_git_operator.py, git/git_cli_operator.py (Git.Cli), and the parsing of what
--                  git prints (Git.Output).
--   Paths          p4/path_utils.py, p4/virtual_stream_filter.py, and the path functions of
--                  services/conflict_detector.py, services/stream_watcher.py,
--                  services/multi_stream_sync.py and p4/workspace_manager.py.
--   Perforce       p4/p4_change_info.py and p4/p4_file_action.py (Change), p4/merge_analyzer.py (Merge),
--                  the head revisions of p4/p4_client.py (Head).
--   Lfs            lfs/lfs_routing.py and the extension rule of config/lfs_config.py (Lfs.Routing),
--                  lfs/lfs_pointer_utils.py (Lfs.Pointer), lfs/lfs_object_store.py and
--                  lfs/lfs_store_factory.py (Lfs.Store).
--   Monitor        notifications/ (Silence, Report, Alerts, Notifier), services/circuit_breaker.py and
--                  the schedule of services/integrity_checker.py (Breaker), services/integrity_compare.py
--                  (Compare), the comparisons of services/integrity_checker.py (Verify).
--   Sync           services/: one changelist (Changelist), a polling round (Poll), the messages of Redis
--                  (Redis), the check on startup (Startup) and the bidirectional rounds (Rounds) of
--                  sync_orchestrator.py, changelist_poller.py and event_consumer.py;
--                  commit_builder.py (Builder); event_collector.py and sync_event.py (Events);
--                  multi_stream_sync.py (MultiStream); stream_watcher.py and StreamPolicy of
--                  config/sync_config.py (Watcher); git/git_change_detector.py, the detection of
--                  conflict_detector.py and reverse_commit_builder.py (Reverse); the branch of a
--                  conflict (Conflict); the loop that cutover and recovery share (Replay).
--   Cutover        services/cutover.py: the phases of a cutover, and its dry run.
--   Recovery       services/recovery.py: the store rebuilt from the Git log, a range built again.
--   Import         git/fast_importer.py (Stream), services/initial_importer.py: one changelist (Initial) and
--                  the loop with its checkpoints (Run); the tree of the streams of
--                  services/multi_stream_importer.py and the order of their import (Tree).
--   Exec, Text, Prelude: methods that change a state and may raise, strings as lists of codes, and the
--                  shared list functions.
--
-- How they meet. Sync.World is the state of the orchestrator: the store, Git, the monitors and the
-- counters. Git is the record GitOperator of operations on a state of its own, after the protocol in
-- git/git_operator.py, and P4 is the record P4Client; both are parameters, and any of their calls may
-- raise. Sync.Changelist takes the commit builder as a parameter that changes no table (KeepsTables), and
-- Sync.Builder fills it in.
--
-- A method that may raise returns `ok` or `err` beside the state, so that what was written before a
-- raise stays written. Loops are over lists and end by structural recursion, but for the queue of
-- streams in Import.Tree.flatten_queue: it has as fuel the number of nodes, which is enough since no
-- stream is queued twice. Times are numbers of seconds handed in. Changelists are natural numbers,
-- which Python's integers cover.
--
-- Not modelled: log output, message texts of the notifier, the wiring of objects, threads and the endless
-- loops around a round, libgit2, the git commands and the P4 server, most of p4/p4_client.py, the
-- extraction threads of the initial import, the commits of the multi-stream importer, the API, the
-- command line and the provisioners. Failures of the database itself are left out.
pub mod Prelude
pub mod Text
pub mod Sql
pub mod Exec
pub mod State
pub mod Git
pub mod Paths
pub mod Lfs
pub mod Perforce
pub mod Monitor
pub mod Sync
pub mod Cutover
pub mod Recovery
pub mod Import
pub mod Tests
