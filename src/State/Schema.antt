-- ===== src/State/Schema.antt =====
-- The tables of `_SCHEMA_SQL` and the `sync_direction` migration in state/state_store.py. Left out
-- are the `updated_at` columns and `archived_at`, which no query of the class reads; a time is a
-- number of seconds.
use p4sync_git.Prelude.{ℕ, Bool, Option, List, []}
use p4sync_git.Text.{Str}

-- the values of `git_push_status`
pub data PushStatus : Type 0 where
  pending pushed failed : PushStatus

-- the values of `sync_direction`
pub data SyncDirection : Type 0 where
  p4_to_git git_to_p4 : SyncDirection

pub record SyncStateRow : Type 0 where
  pub stream : Str
  pub last_cl : ℕ
  pub commit_sha : Str

pub record CommitRow : Type 0 where
  pub changelist : ℕ
  pub commit_sha : Str
  pub stream : Str
  pub branch : Str
  pub has_integration : Bool
  pub git_push_status : PushStatus
  pub created_at : ℕ
  pub sync_direction : SyncDirection

-- the archive has no column for the push status and the direction
pub record ArchiveRow : Type 0 where
  pub changelist : ℕ
  pub commit_sha : Str
  pub stream : Str
  pub branch : Str
  pub has_integration : Bool
  pub created_at : ℕ

pub record UserRow : Type 0 where
  pub p4_user : Str
  pub git_name : Str
  pub git_email : Str

pub record ErrorRow : Type 0 where
  pub id : ℕ
  pub changelist : ℕ
  pub stream : Str
  pub error_msg : Str
  pub retry_count : ℕ
  pub resolved : Bool
  pub created_at : ℕ

-- the class `StreamMapping`, and the rows of `stream_registry`
pub record StreamMapping : Type 0 where
  pub stream : Str
  pub branch : Str
  pub parent_stream : Option Str
  pub branch_point_cl : Option ℕ

pub record ConflictRow : Type 0 where
  pub branch : Str
  pub conflict_branch : Str
  pub p4_changelists : List ℕ
  pub git_commits : List Str
  pub conflict_files : List Str

pub record ReverseRow : Type 0 where
  pub branch : Str
  pub last_commit_sha : Str

pub record Db : Type 0 where
  pub sync_state : List SyncStateRow
  pub cl_commit_map : List CommitRow
  pub user_mappings : List UserRow
  pub sync_errors : List ErrorRow
  pub next_error_id : ℕ
  pub stream_registry : List StreamMapping
  pub cl_commit_map_archive : List ArchiveRow
  pub conflict_state : List ConflictRow
  pub reverse_sync_state : List ReverseRow

abbrev pub empty_db : Db
empty_db = record {
  sync_state = [];
  cl_commit_map = [];
  user_mappings = [];
  sync_errors = [];
  next_error_id = 1;
  stream_registry = [];
  cl_commit_map_archive = [];
  conflict_state = [];
  reverse_sync_state = [];
}
