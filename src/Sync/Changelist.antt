-- ===== src/Sync/Changelist.antt =====
-- `_process_changelist` of services/sync_orchestrator.py. The commit builder is a parameter; an
-- empty sha says that it made no commit.
pub mod Laws
use p4sync_git.Prelude.{
  ℕ, ◌<◌, Bool, true, false, Option, none, some, List, [], ◌∷◌, ltb, is_some, if◌then◌else◌,
}
use p4sync_git.Text.{Str}
use p4sync_git.Exec.{Result, ok, err, Exec, ◌>>=◌, ◌>>◌, pure, lift, gets, modify, try_except}
use p4sync_git.Git.Trailers.{parse_git_commit_from_description}
use p4sync_git.Perforce.Change.{P4ChangeInfo}
use p4sync_git.State.Schema.{pushed, failed, p4_to_git}
use p4sync_git.State.Connection.{StateStore}
use p4sync_git.State.SyncState.{get_last_synced_cl, set_last_synced_cl}
use p4sync_git.State.CommitMap.{get_commit_sha, record_commit, update_push_status}
use p4sync_git.Monitor.Silence.{record_sync}
use p4sync_git.Monitor.Report.{record_stats_sync}
use p4sync_git.Sync.World.{GitOperator, P4Client, SyncConfig, World, on_git, on_store}

-- `parent_sha`: the commit of the stream's last synchronised changelist
unfoldable pub parent_sha : Str → StateStore → Option Str
parent_sha stream s =
    let last_cl = get_last_synced_cl stream s in
    if ltb 0 last_cl then get_commit_sha last_cl stream s else none

abbrev pub Build : Type 0 → Type 0
Build G = P4ChangeInfo → Str → Option Str → Exec (World G) Str

-- a commit is recorded, an empty changelist is not
abbrev pub recorded : ℕ → ℕ → Str → Str → Bool → Str → StateStore → StateStore
recorded now cl stream branch i [] s = s
recorded now cl stream branch i (c ∷ sha) s =
    record_commit now cl (c ∷ sha) stream branch i p4_to_git s

module _ {G : Type 0} where
  -- what follows the commit: the map, the last changelist, the silence and the daily counters
  unfoldable pub record_built : ℕ → ℕ → Str → Str → Str → World G → World G
  record_built now cl stream branch sha w = record w {
    store =
        set_last_synced_cl stream cl sha
          (recorded now cl stream branch w.last_has_integration sha w.store);
    silence = record_sync now w.silence;
    reporter = record w.reporter { stats = record_stats_sync stream 0 w.reporter.stats };
  }

  module _ (git : GitOperator G) (p4 : P4Client) (build : Build G) (cfg : SyncConfig) where
    unfoldable pub push_commit : ℕ → Str → Str → Exec (World G) (Unit {0})
    push_commit cl stream branch =
        try_except
          (on_git (git.push branch) >> modify (on_store (update_push_status cl stream pushed)))
          (λ e. modify (on_store (update_push_status cl stream failed)))

    -- what follows the building of the commit
    unfoldable pub finish_changelist : ℕ → ℕ → Str → Str → Str → Exec (World G) (Unit {0})
    unfolding record_built push_commit
    finish_changelist now cl stream branch sha = do
      modify (record_built now cl stream branch sha)
      on_git (git.maybe_run_gc cfg.git_gc_interval)
      if cfg.push_after_every_commit then push_commit cl stream branch else pure tt

    unfoldable pub build_changelist : ℕ → ℕ → Str → Str → P4ChangeInfo → Exec (World G) (Unit {0})
    unfolding parent_sha finish_changelist
    build_changelist now cl stream branch info = do
      parent ← gets (λ w. parent_sha stream w.store)
      sha ← build info branch parent
      finish_changelist now cl stream branch sha

    unfoldable pub process_changelist : ℕ → ℕ → Str → Str → Exec (World G) (Unit {0})
    unfolding build_changelist
    process_changelist now cl stream branch = do
      info ← lift (p4.describe cl)
      if is_some (parse_git_commit_from_description info.description)
          then modify (on_store (set_last_synced_cl stream cl []))
          else build_changelist now cl stream branch info
