-- ===== src/Sync/Poll.antt =====
-- `_poll_and_sync`, `_should_batch_push` and `_mark_batch_pushed` of services/sync_orchestrator.py,
-- and `poll` of services/changelist_poller.py. `now` is the clock, as a number of seconds.
pub mod Laws
pub mod Pushed
use p4sync_git.Prelude.{
  ℕ, ◌+◌, ◌-◌, ◌<◌, Bool, true, false, not, ◌&&◌, Option, none, some, List, [], ◌∷◌, ltb, leb, ◌==◌,
  if◌then◌else◌, get_or, length, take,
}
use p4sync_git.Text.{Str}
use p4sync_git.Exec.{Result, ok, err, Exec, ◌>>=◌, ◌>>◌, pure, lift, gets, modify, try_except}
use p4sync_git.State.Schema.{pushed}
use p4sync_git.State.Connection.{StateStore}
use p4sync_git.State.SyncState.{get_last_synced_cl}
use p4sync_git.State.CommitMap.{update_push_status}
use p4sync_git.Monitor.Breaker.{allow_sync}
use p4sync_git.Sync.World.{GitOperator, P4Client, SyncConfig, World, on_git, on_store, on_failure}
use p4sync_git.Sync.Changelist.{Build, process_changelist}

module _ (p4 : P4Client) where
  unfoldable pub poll : Str → ℕ → Option Str → StateStore → Result (List ℕ)
  poll stream batch_size poll_stream s =
      elim (p4.get_changes_after (get_or poll_stream stream) (get_last_synced_cl stream s)) [
        | ok changes ↦ ok (take batch_size changes)
        | err e ↦ err e
      ]

unfoldable pub mark_batch_pushed : List ℕ → Str → StateStore → StateStore
mark_batch_pushed [] stream s = s
mark_batch_pushed (cl ∷ cls) stream s =
    mark_batch_pushed cls stream (update_push_status cl stream pushed s)

module _ {G : Type 0} where
  -- The time 0 stands for a push that never was.
  unfoldable pub should_batch_push : SyncConfig → ℕ → World G → Bool × World G
  should_batch_push cfg now w =
      if leb cfg.push_batch_size w.unpushed_commits
      then (true, w)
      else if w.last_push_time == 0
      then (false, record w { last_push_time = now })
      else (leb (w.last_push_time + cfg.push_interval_seconds) now && ltb 0 w.unpushed_commits, w)

  abbrev pub after_process :
      SyncConfig → ℕ → ℕ → Result (Unit {0}) → (World G → ℕ × World G) → World G → ℕ × World G
  after_process cfg now cl (ok u) rest w = let (processed, w') = rest w in (processed + 1, w')
  after_process cfg now cl (err e) rest w = (0, on_failure cfg now cl cfg.stream e w)

  module _ (git : GitOperator G) (p4 : P4Client) (build : Build G) (cfg : SyncConfig) where
    -- the loop over the changelists, up to the first that fails, and how many were processed
    unfoldable pub process_batch : ℕ → List ℕ → World G → ℕ × World G
    unfolding process_changelist on_failure
    process_batch now [] w = (0, w)
    process_batch now (cl ∷ cls) w =
        let (r, w') = process_changelist git p4 build cfg now cl cfg.stream cfg.default_branch w in
        after_process cfg now cl r (process_batch now cls) w'

    unfoldable pub batch_push : ℕ → List ℕ → Exec (World G) (Unit {0})
    unfolding mark_batch_pushed
    batch_push now changes =
        try_except
          (on_git (git.push cfg.default_branch)
            >> modify (λ w. record w {
              store = mark_batch_pushed changes cfg.stream w.store;
              unpushed_commits = 0;
              last_push_time = now;
            }))
          (λ e. pure tt)

    unfoldable pub push_if_due : ℕ → List ℕ → Exec (World G) (Unit {0})
    unfolding should_batch_push batch_push
    push_if_due now changes w =
        let w' = record w { unpushed_commits = w.unpushed_commits + length changes } in
        let (due, v) = should_batch_push cfg now w' in
        if due then batch_push now changes v else (ok tt, v)

    unfoldable pub sync_changes : ℕ → List ℕ → Exec (World G) (Unit {0})
    unfolding process_batch push_if_due
    sync_changes now [] w = (ok tt, w)
    sync_changes now (cl ∷ cls) w =
        let (processed, w') = process_batch now (cl ∷ cls) w in
        if cfg.push_after_every_commit then (ok tt, w') else push_if_due now (cl ∷ cls) w'

    unfoldable pub poll_and_sync : ℕ → Exec (World G) (Unit {0})
    unfolding poll sync_changes
    poll_and_sync now w =
        if not (allow_sync w.breaker)
        then (ok tt, w)
        else ((λ v. (poll p4 cfg.stream cfg.batch_size v.poll_stream v.store, v))
              >>= sync_changes now)
            w
