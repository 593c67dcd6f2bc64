-- ===== src/State/CommitMap.antt =====
-- The methods over the table `cl_commit_map`.
pub mod Laws
use p4sync_git.Prelude.{
  ℕ, ◌≤◌, Bool, true, false, ◌&&◌, Option, none, some, List, [], ◌∷◌, ltb, leb, ◌==◌, if◌then◌else◌,
}
use p4sync_git.Text.{Str, str_eq}
use p4sync_git.Sql.{fetch_one, upsert, update_where, select_where}
use p4sync_git.Sql.Sort.{sort_by}
use p4sync_git.State.Schema.{CommitRow, PushStatus, pending, pushed, failed, SyncDirection, Db}
use p4sync_git.State.Connection.{StateStore, write}

-- the primary key of the table
abbrev pub CommitKey : Type 0
CommitKey = ℕ × Str

abbrev pub commit_key : CommitRow → CommitKey
commit_key r = (r.changelist, r.stream)

-- `changelist = ? AND stream = ?`
abbrev pub same_key : CommitKey → CommitKey → Bool
same_key a b = (a.0 == b.0) && str_eq a.1 b.1

unfoldable pub commit_row : ℕ → Str → StateStore → Option CommitRow
commit_row changelist stream s =
    fetch_one (λ r. same_key (commit_key r) (changelist, stream)) s.conn.cl_commit_map

abbrev pub row_sha : Option CommitRow → Option Str
row_sha none = none
row_sha (some r) = some r.commit_sha

-- `get_commit_sha(changelist)`, with no stream. SQL leaves open which of several rows of one
-- changelist is fetched: here it is the first.
unfoldable pub get_any_commit_sha : ℕ → StateStore → Option Str
get_any_commit_sha changelist s =
    row_sha (fetch_one (λ r. r.changelist == changelist) s.conn.cl_commit_map)

-- `get_commit_sha(changelist, stream)`; an empty stream is falsy, as `None` is.
unfoldable pub get_commit_sha : ℕ → Str → StateStore → Option Str
unfolding commit_row get_any_commit_sha
get_commit_sha changelist [] s = get_any_commit_sha changelist s
get_commit_sha changelist (c ∷ stream) s = row_sha (commit_row changelist (c ∷ stream) s)

-- `created_at` and `git_push_status` take their defaults, the time of the insertion and 'pending'.
unfoldable pub record_commit :
    ℕ → ℕ → Str → Str → Str → Bool → SyncDirection → StateStore → StateStore
record_commit now cl sha stream branch has_integration sync_direction = write λ db. record db {
  cl_commit_map =
      upsert (λ r. same_key (commit_key r) (cl, stream))
        (λ r. record r {
          commit_sha = sha;
          has_integration = has_integration;
          sync_direction = sync_direction;
        })
        (record {
          changelist = cl;
          commit_sha = sha;
          stream = stream;
          branch = branch;
          has_integration = has_integration;
          git_push_status = pending;
          created_at = now;
          sync_direction = sync_direction;
        })
        db.cl_commit_map;
}

unfoldable pub update_push_status : ℕ → Str → PushStatus → StateStore → StateStore
update_push_status changelist stream status = write λ db. record db {
  cl_commit_map =
      update_where (λ r. same_key (commit_key r) (changelist, stream))
        (λ r. record r { git_push_status = status }) db.cl_commit_map;
}

-- `git_push_status IN ('pending', 'failed')`
abbrev pub is_unpushed : CommitRow → Bool
is_unpushed r = elim r.git_push_status [ pending ↦ true | pushed ↦ false | failed ↦ true ]

unfoldable pub get_pending_pushes : StateStore → List CommitRow
get_pending_pushes s =
    sort_by (λ a b. leb a.changelist b.changelist) (select_where is_unpushed s.conn.cl_commit_map)

-- ORDER BY changelist DESC LIMIT 1, over the rows that the query selects
abbrev pub later_of : CommitRow → Option CommitRow → Option CommitRow
later_of r none = some r
later_of r (some best) = if ltb r.changelist best.changelist then some best else some r

unfoldable pub latest_row : List CommitRow → Option CommitRow
latest_row [] = none
latest_row (r ∷ rs) = later_of r (latest_row rs)

abbrev pub is_before : Str → ℕ → CommitRow → Bool
is_before stream before_cl r = str_eq r.stream stream && ltb r.changelist before_cl

unfoldable pub get_last_commit_before : Str → ℕ → StateStore → Option Str
unfolding latest_row
get_last_commit_before stream before_cl s =
    row_sha (latest_row (select_where (is_before stream before_cl) s.conn.cl_commit_map))

-- whether `get_commit_sha_by_sha` returns a row; its callers only test for `None`
unfoldable pub get_commit_sha_by_sha : Str → StateStore → Option CommitRow
get_commit_sha_by_sha commit_sha s =
    fetch_one (λ r. str_eq r.commit_sha commit_sha) s.conn.cl_commit_map
