-- ===== src/Sync/Redis.antt =====
-- `_on_redis_changelist` of services/sync_orchestrator.py, and `_process_message` of
-- services/event_consumer.py, whose only trace is whether the message is acknowledged.
pub mod Laws
use p4sync_git.Prelude.{
  ℕ, ◌<◌, Bool, true, false, ◌&&◌, Option, none, some, List, [], ◌∷◌, ltb, is_some, if◌then◌else◌,
  length,
}
use p4sync_git.Text.{Str}
use p4sync_git.Exec.{Result, ok, err, Exec, ◌>>=◌, ◌>>◌, pure, lift, gets, modify, try_except}
use p4sync_git.State.Schema.{StreamMapping, p4_to_git}
use p4sync_git.State.Connection.{StateStore}
use p4sync_git.State.SyncState.{set_last_synced_cl}
use p4sync_git.State.CommitMap.{get_commit_sha, record_commit}
use p4sync_git.State.Streams.{get_all_registered_streams, get_stream_mapping}
use p4sync_git.Sync.World.{GitOperator, P4Client, SyncConfig, World, on_failure}
use p4sync_git.Sync.Changelist.{Build, parent_sha, process_changelist}
use p4sync_git.Sync.MultiStream.{record_event}

unfoldable pub is_multi_stream : StateStore → Bool
unfolding get_all_registered_streams
is_multi_stream s = ltb 1 (length (get_all_registered_streams s))

abbrev pub branch_or : Str → Option StreamMapping → Str
branch_or branch none = branch
branch_or branch (some m) = m.branch

abbrev pub stream_or : Str → Str → Str
stream_or default [] = default
stream_or default (c ∷ stream) = c ∷ stream

module _ {G : Type 0} (git : GitOperator G) (p4 : P4Client) (build : Str → Build G)
    (cfg : SyncConfig) where
  unfoldable pub redis_multi : ℕ → ℕ → Str → Str → Exec (World G) (Unit {0})
  unfolding parent_sha record_event
  redis_multi now cl stream branch = do
    info ← lift (p4.describe cl)
    parent ← gets (λ w. parent_sha stream w.store)
    sha ← build stream info branch parent
    modify (record_event now cl stream branch sha)

  -- the body of the `try`
  unfoldable pub redis_process : ℕ → ℕ → Str → Str → Exec (World G) (Unit {0})
  unfolding redis_multi process_changelist is_multi_stream get_stream_mapping
  redis_process now cl stream branch w =
      if is_multi_stream w.store && is_some (get_stream_mapping stream w.store)
      then redis_multi now cl stream branch w
      else process_changelist git p4 (build cfg.stream) cfg now cl stream branch w

  abbrev redis_unless_known : ℕ → ℕ → Str → Str → Option Str → Exec (World G) (Unit {0})
  redis_unless_known now cl stream branch (some sha) = pure tt
  redis_unless_known now cl stream branch none =
      try_except (redis_process now cl stream branch) (λ e. modify (on_failure cfg now cl stream e))

  unfoldable pub on_redis_changelist : ℕ → ℕ → Str → Exec (World G) (Unit {0})
  unfolding redis_process on_failure
  on_redis_changelist now cl stream w =
      let s = stream_or cfg.stream stream in
      let branch = branch_or cfg.default_branch (get_stream_mapping s w.store) in
      redis_unless_known now cl s branch (get_commit_sha cl s w.store) w

  abbrev acknowledged : Result (Unit {0}) × World G → Bool × World G
  acknowledged (ok u, w) = (true, w)
  acknowledged (err e, w) = (false, w)

  -- Whether the message is acknowledged. The field of the changelist is what `int` makes of it, an
  -- error where it raises, which is outside of the `try`; a number of 0 or below is 0 here.
  unfoldable pub process_message : ℕ → Result ℕ → Str → World G → Bool × World G
  unfolding on_redis_changelist
  process_message now (err e) stream w = (false, w)
  process_message now (ok cl) stream w =
      if ltb 0 cl then acknowledged (on_redis_changelist now cl stream w) else (true, w)
