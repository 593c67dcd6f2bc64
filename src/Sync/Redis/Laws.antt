-- ===== src/Sync/Redis/Laws.antt =====
-- Which messages are acknowledged, and what they do to the last changelist.
use p4sync_git.Prelude.{ℕ, ◌≡◌, ◌⊎◌, false, none, [], arith}
use p4sync_git.Text.{Str}
use p4sync_git.Exec.{Result, ok, err, handle_err, modify}
use p4sync_git.State.CommitMap.{get_commit_sha}
use p4sync_git.State.SyncState.{get_last_synced_cl}
use p4sync_git.Sync.World.{GitOperator, P4Client, SyncConfig, World, on_failure}
use p4sync_git.Sync.Changelist.{Build, process_changelist}
use p4sync_git.Sync.Changelist.Laws.{KeepsTables, Advances, process_changelist-Advances}
use p4sync_git.Sync.Poll.Laws.{get_last_synced_cl-record_sync_error}
use p4sync_git.State.Streams.{get_stream_mapping}
use p4sync_git.Sync.Redis.{
  stream_or, branch_or, is_multi_stream, redis_process, on_redis_changelist,
}

module _ {G : Type 0} (git : GitOperator G) (p4 : P4Client) (build : Str → Build G)
    (cfg : SyncConfig) where
  -- The last changelist is the one of the message, or, if its processing failed, maybe what it was.
  abbrev pub Jumps : Str → ℕ → World G → Result (Unit {0}) → World G → Type 0
  Jumps stream cl w (ok u) w' = get_last_synced_cl stream w'.store ≡ cl
  Jumps stream cl w (err e) w' =
      (get_last_synced_cl stream w'.store ≡ get_last_synced_cl stream w.store)
      ⊎ (get_last_synced_cl stream w'.store ≡ cl)

  after_try :
      (now cl : ℕ) (stream : Str) (w : World G) (p : Result (Unit {0}) × World G)
      → Advances stream cl w p
      → Jumps stream cl w p.0 (handle_err p.0 (λ e. modify (on_failure cfg now cl stream e)) p.1).1
  unfolding on_failure
  after_try now cl stream w (ok u, w') a = a
  after_try now cl stream w (err e, w') a =
      ground (arith, a, get_last_synced_cl-record_sync_error now cl stream e stream w'.store)

  -- With one stream and a builder that changes no table, a message of a changelist that is not
  -- recorded makes it the last one if it is processed, whether it is higher or lower than what stood
  -- there; if its processing fails, the last changelist is what it was or this one.
  pub on_redis_changelist_position :
      KeepsTables (build cfg.stream)
      → (now cl : ℕ) (w : World G) → is_multi_stream w.store ≡ false
      → get_commit_sha cl (stream_or cfg.stream []) w.store ≡ none
      → let branch = branch_or cfg.default_branch (get_stream_mapping cfg.stream w.store) in
        Jumps cfg.stream cl w
          (process_changelist git p4 (build cfg.stream) cfg now cl cfg.stream branch w).0
          (on_redis_changelist git p4 build cfg now cl [] w).1
  unfolding on_redis_changelist redis_process
  on_redis_changelist_position k now cl w m h =
      let b = branch_or cfg.default_branch (get_stream_mapping cfg.stream w.store) in
      rw (h, m)
        (after_try now cl cfg.stream w
          (process_changelist git p4 (build cfg.stream) cfg now cl cfg.stream b w)
          (process_changelist-Advances git p4 (build cfg.stream) cfg k now cl cfg.stream b w))
