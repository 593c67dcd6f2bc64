-- ===== src/Sync/Replay.antt =====
-- The loops of `_sync_remaining` in services/cutover.py and of `resync_range` in
-- services/recovery.py: changelists are built and recorded one after the other, without the tests
-- for an empty changelist and for one that came from Git. `flag` is what they record as
-- `has_integration`.
pub mod Laws
use p4sync_git.Prelude.{ℕ, Bool, List, [], ◌∷◌}
use p4sync_git.Text.{Str}
use p4sync_git.Exec.{Exec, ◌>>=◌, ◌>>◌, pure, lift, gets, modify}
use p4sync_git.Perforce.Change.{P4ChangeInfo}
use p4sync_git.State.Schema.{p4_to_git}
use p4sync_git.State.SyncState.{set_last_synced_cl}
use p4sync_git.State.CommitMap.{record_commit}
use p4sync_git.Sync.World.{P4Client, World, on_store}
use p4sync_git.Sync.Changelist.{Build, parent_sha}

module _ {G : Type 0} (p4 : P4Client) (build : Build G) (now : ℕ) (stream branch : Str)
    (flag : World G → Bool) where
  unfoldable pub record_one : ℕ → Str → World G → World G
  record_one cl sha w =
      on_store
        (λ s.
          set_last_synced_cl stream cl sha
            (record_commit now cl sha stream branch (flag w) p4_to_git s))
        w

  -- a changelist from its description on
  unfoldable pub build_one : ℕ → P4ChangeInfo → Exec (World G) (Unit {0})
  unfolding parent_sha record_one
  build_one cl info = do
    parent ← gets (λ w. parent_sha stream w.store)
    sha ← build info branch parent
    modify (record_one cl sha)

  unfoldable pub sync_one : ℕ → Exec (World G) (Unit {0})
  unfolding build_one
  sync_one cl = lift (p4.describe cl) >>= build_one cl

  unfoldable pub sync_each : List ℕ → Exec (World G) (Unit {0})
  unfolding sync_one
  sync_each [] = pure tt
  sync_each (cl ∷ cls) = sync_one cl >> sync_each cls
