-- ===== src/Tests/Data.antt =====
-- The inputs of the runs: a store, a repository that counts its commits, and a small P4 server.
use p4sync_git.Prelude.{true, ℕ, ◌+◌, false, none, some, [], ◌∷◌}
use p4sync_git.Text.{Str, codes}
use p4sync_git.Exec.{ok}
use p4sync_git.State.Schema.{CommitRow, pushed, p4_to_git, empty_db}
use p4sync_git.State.Connection.{StateStore, empty_store}
use p4sync_git.Monitor.Report.{empty_stats}
use p4sync_git.Monitor.Breaker.{IntegrityCircuitBreaker, closed}
use p4sync_git.Perforce.Change.{P4ChangeInfo, P4FileAction}
use p4sync_git.Perforce.Merge.{no_merge}
use p4sync_git.Sync.World.{World, GitOperator, P4Client, SyncConfig}
use p4sync_git.Sync.Builder.{Contents, CommitBuilder, build_commit}
use p4sync_git.Sync.Changelist.{Build}

abbrev pub main : Str
main = codes "//depot/main"

abbrev pub row : ℕ → Str → CommitRow
row cl sha = record {
  changelist = cl;
  commit_sha = sha;
  stream = main;
  branch = codes "main";
  has_integration = false;
  git_push_status = pushed;
  created_at = 5;
  sync_direction = p4_to_git;
}

-- changelist 7 is recorded and pushed
abbrev pub one_commit : StateStore
one_commit = record empty_store {
  conn = record empty_db {
    cl_commit_map = row 7 (codes "aa") ∷ [];
    sync_state = record { stream = main; last_cl = 7; commit_sha = codes "aa" } ∷ [];
  };
}

abbrev pub git : GitOperator ℕ
git = record {
  create_commit = λ branch parent meta changes deletes n. (ok (codes "c0"), n + 1);
  create_merge_commit = λ branch parents meta changes deletes n. (ok (codes "c1"), n + 1);
  create_branch = λ branch start n. (ok tt, n);
  push = λ branch n. (ok tt, n);
  get_head_sha = λ branch n. none;
  maybe_run_gc = λ interval n. (ok tt, n);
}

abbrev pub file : P4FileAction
file = record {
  depot_path = codes "//depot/main/a.txt";
  action = codes "edit";
  file_type = codes "text";
  revision = 1;
  size = none;
}

abbrev pub change : ℕ → P4ChangeInfo
change cl = record {
  changelist = cl;
  user = codes "ann";
  description = codes "edit";
  timestamp = 100;
  files = file ∷ [];
  workspace = codes "ws";
}

abbrev pub p4 : P4Client
p4 = record {
  describe = λ cl. ok (change cl);
  get_changes_after = λ stream cl. ok ((cl + 1) ∷ ((cl + 2) ∷ []));
}

abbrev pub contents : Contents
contents = record {
  print_files_batch = λ specs. ok [];
  print_file_to_bytes = λ path rev. ok (some (codes "hello"));
  size_of = λ fa. none;
  read_head = λ fa. none;
  store_lfs = λ fa. ok none;
}

abbrev pub builder : CommitBuilder
builder = record { stream = main; stream_prefix_len = 13; virtual_filter = none; lfs = none }

abbrev pub build : Build ℕ
build = build_commit git contents (λ info. no_merge) (λ info. none) (codes "company.com") builder 50

abbrev pub cfg : SyncConfig
cfg = record {
  stream = main;
  default_branch = codes "main";
  batch_size = 50;
  error_retry_threshold = 3;
  push_after_every_commit = false;
  push_batch_size = 10;
  push_interval_seconds = 300;
  git_gc_interval = 100;
}

abbrev pub breaker : IntegrityCircuitBreaker
breaker = record {
  checker = record { last_daily = 0; last_weekly = 0; last_monthly = 0 };
  state = closed;
  last_failure_result = none;
  opened_at = 0;
  has_notifier = true;
  notices = 0;
}

abbrev pub world : World ℕ
world = record {
  store = one_commit;
  git = 0;
  last_has_integration = false;
  silence = record { threshold_seconds = 600; last_sync_time = 0; alerted = false };
  reporter = record { report_hour = 9; stats = empty_stats; last_report_date = none };
  breaker = breaker;
  poll_stream = none;
  unpushed_commits = 0;
  last_push_time = 0;
  errors_sent = [];
}
