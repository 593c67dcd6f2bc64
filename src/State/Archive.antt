-- ===== src/State/Archive.antt =====
-- `archive_old_commit_maps` of state/state_store.py.
pub mod Laws
use p4sync_git.Prelude.{
  ℕ, ◌+◌, ◌*◌, Bool, true, false, ◌&&◌, List, [], ◌∷◌, ◌++◌, map, any, ltb, ◌==◌, length,
  if◌then◌else◌,
}
use p4sync_git.Text.{Str, str_eq, codes}
use p4sync_git.Exec.{Result, ok, err}
use p4sync_git.Sql.{select_where, delete_where}
use p4sync_git.State.Schema.{CommitRow, ArchiveRow, PushStatus, pending, pushed, failed, Db}
use p4sync_git.State.Connection.{StateStore, write}
use p4sync_git.State.Errors.{day}

abbrev is_pushed : PushStatus → Bool
is_pushed pushed = true
is_pushed _ = false

-- `git_push_status = 'pushed' AND created_at < datetime('now', '-N days')`
abbrev pub is_old : ℕ → ℕ → CommitRow → Bool
is_old now days r = is_pushed r.git_push_status && ltb (r.created_at + day * days) now

abbrev pub archived_row : CommitRow → ArchiveRow
archived_row r = record {
  changelist = r.changelist;
  commit_sha = r.commit_sha;
  stream = r.stream;
  branch = r.branch;
  has_integration = r.has_integration;
  created_at = r.created_at;
}

-- the primary key (changelist, stream) of the archive is taken
abbrev pub is_taken : List ArchiveRow → CommitRow → Bool
is_taken archive r =
    any (λ (a : ArchiveRow). (a.changelist == r.changelist) && str_eq a.stream r.stream) archive

-- the text of SQLite's IntegrityError
unfoldable pub unique_failed : Str
unique_failed =
    codes "UNIQUE constraint failed: cl_commit_map_archive.changelist, cl_commit_map_archive.stream"

-- An INSERT that meets a taken key is undone whole, and raises. The INSERT and the DELETE each read the
-- clock.
unfoldable pub archive_old_commit_maps : ℕ → ℕ → ℕ → StateStore → Result ℕ × StateStore
unfolding select_where delete_where
archive_old_commit_maps inserted_at deleted_at retention_days s =
    let old = select_where (is_old inserted_at retention_days) s.conn.cl_commit_map in
    if any (is_taken s.conn.cl_commit_map_archive) old
    then (err unique_failed, s)
    else if length old == 0
    then (ok 0, s)
    else (
      ok (length old),
      write
          (λ db. record db {
            cl_commit_map = delete_where (is_old deleted_at retention_days) db.cl_commit_map;
            cl_commit_map_archive = db.cl_commit_map_archive ++ map archived_row old;
          })
          s,
    )
