-- ===== src/State/Conflicts.antt =====
-- The methods over the table `conflict_state`. The lists are stored as JSON, which `get_conflict`
-- reads back; here they are the lists.
pub mod Laws
use p4sync_git.Prelude.{ℕ, Option, List}
use p4sync_git.Text.{Str, str_eq}
use p4sync_git.Sql.{fetch_one, upsert, delete_where}
use p4sync_git.State.Schema.{ConflictRow, Db}
use p4sync_git.State.Connection.{StateStore, write}

unfoldable pub record_conflict : ConflictRow → StateStore → StateStore
record_conflict c = write λ db. record db {
  conflict_state =
      upsert (λ r. str_eq r.branch c.branch)
        (λ r. record r {
          conflict_branch = c.conflict_branch;
          p4_changelists = c.p4_changelists;
          git_commits = c.git_commits;
          conflict_files = c.conflict_files;
        })
        c db.conflict_state;
}

unfoldable pub get_conflict : Str → StateStore → Option ConflictRow
get_conflict branch s = fetch_one (λ r. str_eq r.branch branch) s.conn.conflict_state

unfoldable pub get_all_conflicts : StateStore → List ConflictRow
get_all_conflicts s = s.conn.conflict_state

unfoldable pub resolve_conflict : Str → StateStore → StateStore
resolve_conflict branch = write λ db. record db {
  conflict_state = delete_where (λ r. str_eq r.branch branch) db.conflict_state;
}
