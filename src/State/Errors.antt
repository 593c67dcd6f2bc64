-- ===== src/State/Errors.antt =====
-- The methods over the table `sync_errors`.
pub mod Laws
use p4sync_git.Prelude.{
  ℕ, ◌+◌, ◌*◌, Bool, true, false, not, ◌&&◌, Option, none, some, List, [], ◌∷◌, ◌++◌, ltb, ◌==◌,
  length,
}
use p4sync_git.Text.{Str, str_eq}
use p4sync_git.Sql.{fetch_one, update_where, delete_where, select_where}
use p4sync_git.Sql.Sort.{sort_by}
use p4sync_git.Prelude.{leb, if◌then◌else◌}
use p4sync_git.State.Schema.{ErrorRow, Db}
use p4sync_git.State.Connection.{StateStore, write, auto_commit}

-- `changelist = ? AND stream = ? AND resolved = 0`
abbrev pub is_open : ℕ → Str → ErrorRow → Bool
is_open changelist stream r =
    ((r.changelist == changelist) && str_eq r.stream stream) && not r.resolved

unfoldable pub open_error : ℕ → Str → StateStore → Option ErrorRow
open_error changelist stream s = fetch_one (is_open changelist stream) s.conn.sync_errors

abbrev again : Str → ErrorRow → StateStore → ℕ × StateStore
again error_msg row s = (
  row.retry_count + 1,
  write
      (λ db. record db {
        sync_errors =
            update_where (λ r. r.id == row.id)
              (λ r. record r { retry_count = row.retry_count + 1; error_msg = error_msg })
              db.sync_errors;
      })
      s,
)

abbrev pub new_error : ℕ → ℕ → Str → Str → ℕ → ErrorRow
new_error now changelist stream error_msg id = record {
  id = id;
  changelist = changelist;
  stream = stream;
  error_msg = error_msg;
  retry_count = 1;
  resolved = false;
  created_at = now;
}

abbrev first : ℕ → ℕ → Str → Str → StateStore → ℕ × StateStore
first now changelist stream error_msg s = (
  1,
  write
      (λ db. record db {
        sync_errors =
            db.sync_errors ++ (new_error now changelist stream error_msg db.next_error_id ∷ []);
        next_error_id = db.next_error_id + 1;
      })
      s,
)

abbrev again_or_first : ℕ → ℕ → Str → Str → StateStore → Option ErrorRow → ℕ × StateStore
again_or_first now changelist stream error_msg s none = first now changelist stream error_msg s
again_or_first now changelist stream error_msg s (some row) = again error_msg row s

-- The number of failures so far, this one included.
unfoldable pub record_sync_error : ℕ → ℕ → Str → Str → StateStore → ℕ × StateStore
unfolding open_error
record_sync_error now changelist stream error_msg s =
    again_or_first now changelist stream error_msg s (open_error changelist stream s)

unfoldable pub resolve_error : ℕ → Str → StateStore → StateStore
resolve_error changelist stream = write λ db. record db {
  sync_errors =
      update_where (is_open changelist stream) (λ r. record r { resolved = true }) db.sync_errors;
}

-- ORDER BY created_at DESC
unfoldable pub get_unresolved_errors : StateStore → List ErrorRow
get_unresolved_errors s =
    sort_by (λ a b. leb b.created_at a.created_at)
      (select_where (λ r. not r.resolved) s.conn.sync_errors)

abbrev pub day : ℕ
day = 86400

-- `created_at < datetime('now', '-N days')`, with the days on the other side
abbrev pub is_expired : ℕ → ℕ → ErrorRow → Bool
is_expired now days r = r.resolved && ltb (r.created_at + day * days) now

unfoldable pub cleanup_resolved_errors : ℕ → ℕ → StateStore → ℕ × StateStore
cleanup_resolved_errors now retention_days s = (
  length (select_where (is_expired now retention_days) s.conn.sync_errors),
  write
      (λ db. record db {
        sync_errors = delete_where (is_expired now retention_days) db.sync_errors;
      })
      s,
)
