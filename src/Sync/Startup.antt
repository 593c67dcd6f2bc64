-- ===== src/Sync/Startup.antt =====
-- `_verify_on_startup` of services/sync_orchestrator.py: Git and the store are compared, and the
-- pushes that are left are tried again. The notice of a mismatch is its exception here.
pub mod Laws
use p4sync_git.Prelude.{ℕ, Option, none, some, List, [], ◌∷◌, if◌then◌else◌}
use p4sync_git.Text.{Str, codes}
use p4sync_git.Exec.{Result, ok, err, Exec, ◌>>=◌, ◌>>◌, pure, raise, gets, modify, try_except}
use p4sync_git.State.Schema.{CommitRow, pushed}
use p4sync_git.State.SyncState.{verify_consistency}
use p4sync_git.State.CommitMap.{get_pending_pushes, update_push_status}
use p4sync_git.Sync.World.{GitOperator, SyncConfig, World, on_git, on_store}

abbrev pub mismatch_text : Str
mismatch_text = codes "Git-StateStore 정합성 불일치. 수동 확인 후 재시작하세요."

module _ {G : Type 0} (git : GitOperator G) (cfg : SyncConfig) where
  -- one commit whose push is tried again; a failure is only logged
  unfoldable pub retry_push : CommitRow → Exec (World G) (Unit {0})
  retry_push r =
      try_except
        (on_git (git.push r.branch)
          >> modify (on_store (update_push_status r.changelist r.stream pushed)))
        (λ e. pure tt)

  unfoldable pub retry_pushes : List CommitRow → Exec (World G) (Unit {0})
  unfolding retry_push
  retry_pushes [] = pure tt
  retry_pushes (r ∷ rs) = retry_push r >> retry_pushes rs

  abbrev verify_head : Option Str → Exec (World G) (Unit {0})
  verify_head none = pure tt
  verify_head (some head_sha) = do
    same ← gets (λ w. verify_consistency cfg.default_branch head_sha w.store)
    pending ← gets (λ w. get_pending_pushes w.store)
    if same then retry_pushes pending else raise mismatch_text

  unfoldable pub verify_on_startup : Exec (World G) (Unit {0})
  unfolding retry_pushes verify_consistency get_pending_pushes
  verify_on_startup w = verify_head (git.get_head_sha cfg.default_branch w.git) w
