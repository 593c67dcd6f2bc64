-- ===== src/Sync/World.antt =====
-- What services/sync_orchestrator.py works on: the state store, the Git repository behind the
-- protocol of git/git_operator.py, the P4 server behind p4/p4_client.py, and the counters of the
-- orchestrator itself. Git and P4 are parameters; P4 is only read while changelists are brought over.
use p4sync_git.Prelude.{ℕ, Bool, Option, List, leb, ◌∷◌, if◌then◌else◌}
use p4sync_git.Text.{Str}
use p4sync_git.Exec.{Result, Exec}
use p4sync_git.Git.Trailers.{CommitMetadata}
use p4sync_git.Git.FileMode.{FileChange}
use p4sync_git.Perforce.Change.{P4ChangeInfo}
use p4sync_git.State.Connection.{StateStore}
use p4sync_git.State.Errors.{record_sync_error}
use p4sync_git.Monitor.Silence.{SilenceDetector}
use p4sync_git.Monitor.Report.{DailyReporter}
use p4sync_git.Monitor.Breaker.{IntegrityCircuitBreaker}

pub record GitOperator (G : Type 0) : Type 0 where
  pub create_commit : Str → Option Str → CommitMetadata → List FileChange → List Str → Exec G Str
  pub create_merge_commit :
      Str → List Str → CommitMetadata → List FileChange → List Str → Exec G Str
  pub create_branch : Str → Str → Exec G (Unit {0})
  pub push : Str → Exec G (Unit {0})
  pub get_head_sha : Str → G → Option Str
  pub maybe_run_gc : ℕ → Exec G (Unit {0})

pub record P4Client : Type 0 where
  pub describe : ℕ → Result P4ChangeInfo
  pub get_changes_after : Str → ℕ → Result (List ℕ)

-- config/sync_config.py, as far as the loop reads it
pub record SyncConfig : Type 0 where
  pub stream : Str
  pub default_branch : Str
  pub batch_size : ℕ
  pub error_retry_threshold : ℕ
  pub push_after_every_commit : Bool
  pub push_batch_size : ℕ
  pub push_interval_seconds : ℕ
  pub git_gc_interval : ℕ

-- `errors_sent` holds the calls of `notifier.send_error`, the last one first.
pub record World (G : Type 0) : Type 0 where
  pub store : StateStore
  pub git : G
  pub last_has_integration : Bool
  pub silence : SilenceDetector
  pub reporter : DailyReporter
  pub breaker : IntegrityCircuitBreaker
  pub poll_stream : Option Str
  pub unpushed_commits : ℕ
  pub last_push_time : ℕ
  pub errors_sent : List (ℕ × Str × Str)

module _ {G : Type 0} where
  abbrev pub on_git : {A : Type 0} → Exec G A → Exec (World G) A
  on_git m w = let (r, g) = m w.git in (r, record w { git = g })

  abbrev pub on_store : (StateStore → StateStore) → World G → World G
  on_store f w = record w { store = f w.store }

  abbrev pub count_failure : SyncConfig → ℕ → Str → Str → World G → ℕ × StateStore → World G
  count_failure cfg cl stream e w (retry_count, s) = record w {
    store = s;
    errors_sent =
        if leb cfg.error_retry_threshold retry_count
        then (cl, stream, e) ∷ w.errors_sent
        else w.errors_sent;
  }

  -- the `except` branch of the loops: the error is recorded, and reported from the threshold on
  unfoldable pub on_failure : SyncConfig → ℕ → ℕ → Str → Str → World G → World G
  on_failure cfg now cl stream e w =
      count_failure cfg cl stream e w (record_sync_error now cl stream e w.store)
