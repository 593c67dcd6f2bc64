-- ===== src/Sync/MultiStream.antt =====
-- `MultiStreamHandler` of services/multi_stream_sync.py: the events of all streams in one order. The
-- commit builder of a stream is `build stream`.
pub mod Laws
use p4sync_git.Prelude.{
  ℕ, ◌+◌, Bool, true, false, not, ◌&&◌, Option, none, some, List, [], ◌∷◌, or_else, if◌then◌else◌,
}
use p4sync_git.Text.{Str, codes, contains}
use p4sync_git.Exec.{
  Result, ok, err, Exec, ◌>>=◌, ◌>>◌, pure, raise, lift, gets, modify, try_except,
}
use p4sync_git.Perforce.Change.{P4ChangeInfo}
use p4sync_git.State.Schema.{p4_to_git}
use p4sync_git.State.Connection.{StateStore}
use p4sync_git.State.SyncState.{get_last_synced_cl, set_last_synced_cl}
use p4sync_git.State.CommitMap.{get_commit_sha, get_last_commit_before, record_commit}
use p4sync_git.Monitor.Breaker.{allow_sync}
use p4sync_git.Sync.World.{GitOperator, P4Client, SyncConfig, World, on_git, on_failure}
use p4sync_git.Sync.Changelist.{Build, parent_sha, push_commit}
use p4sync_git.Sync.Events.{
  SyncEvent, branch_create, changelist, event_cl, event_stream, event_branch, collect,
}

-- the commit from which a new branch starts
unfoldable pub branch_start : Str → ℕ → StateStore → Option Str
branch_start parent_stream cl s =
    or_else (get_last_commit_before parent_stream (cl + 1) s)
      (get_commit_sha (get_last_synced_cl parent_stream s) parent_stream s)

module _ {G : Type 0} where
  unfoldable pub record_event : ℕ → ℕ → Str → Str → Str → World G → World G
  record_event now cl stream branch sha w = record w {
    store =
        set_last_synced_cl stream cl sha
          (record_commit now cl sha stream branch w.last_has_integration p4_to_git w.store);
  }

  -- what the loop does after one event: the branches pushed to and the rest of the events, or the failure
  abbrev pub after_event :
      SyncConfig
      → ℕ
      → SyncEvent
      → Result (Unit {0})
      → (World G → List Str × World G)
      → World G
      → List Str × World G
  after_event cfg now e (ok u) rest w =
      let (branches, w') = rest w in
      (if contains branches (event_branch e) then branches else event_branch e ∷ branches, w')
  after_event cfg now e (err msg) rest w =
      ([], on_failure cfg now (event_cl e) (event_stream e) msg w)

  module _ (git : GitOperator G) (p4 : P4Client) (build : Str → Build G) (cfg : SyncConfig) where
    abbrev start_branch : Str → Option Str → Exec (World G) (Unit {0})
    start_branch branch none = raise (codes "RuntimeError")
    start_branch branch (some sha) = on_git (git.create_branch branch sha)

    unfoldable pub handle_branch_create : ℕ → Str → Str → Exec (World G) (Unit {0})
    unfolding branch_start
    handle_branch_create cl parent_stream branch w =
        start_branch branch (branch_start parent_stream cl w.store) w

    unfoldable pub finish_event : ℕ → ℕ → Str → Str → Str → Exec (World G) (Unit {0})
    unfolding record_event push_commit
    finish_event now cl stream branch sha = do
      modify (record_event now cl stream branch sha)
      on_git (git.maybe_run_gc cfg.git_gc_interval)
      if cfg.push_after_every_commit
          then push_commit git p4 (build stream) cfg cl stream branch
          else pure tt

    unfoldable pub handle_changelist_event : ℕ → ℕ → Str → Str → Exec (World G) (Unit {0})
    unfolding parent_sha finish_event
    handle_changelist_event now cl stream branch = do
      info ← lift (p4.describe cl)
      parent ← gets (λ w. parent_sha stream w.store)
      sha ← build stream info branch parent
      finish_event now cl stream branch sha

    unfoldable pub handle_event : ℕ → SyncEvent → Exec (World G) (Unit {0})
    unfolding handle_branch_create handle_changelist_event
    handle_event now (branch_create cl stream parent branch) = handle_branch_create cl parent branch
    handle_event now (changelist cl stream branch) = handle_changelist_event now cl stream branch

    -- the loop, up to the first event that fails, and the branches it touched
    unfoldable pub handle_events : ℕ → List SyncEvent → World G → List Str × World G
    unfolding handle_event on_failure
    handle_events now [] w = ([], w)
    handle_events now (e ∷ es) w =
        let (r, w') = handle_event now e w in after_event cfg now e r (handle_events now es) w'

    unfoldable pub push_branches : List Str → World G → World G
    push_branches [] w = w
    push_branches (b ∷ bs) w = push_branches bs (on_git (git.push b) w).1

    unfoldable pub sync_events : ℕ → List SyncEvent → Exec (World G) (Unit {0})
    unfolding handle_events push_branches
    sync_events now events w =
        let (branches, w') = handle_events now events w in
        (ok tt, if cfg.push_after_every_commit then w' else push_branches branches w')

    unfoldable pub poll_and_sync_all : ℕ → Exec (World G) (Unit {0})
    unfolding collect sync_events
    poll_and_sync_all now w =
        if not (allow_sync w.breaker)
        then (ok tt, w)
        else ((λ v. (collect p4 cfg.batch_size v.store, v)) >>= sync_events now) w
