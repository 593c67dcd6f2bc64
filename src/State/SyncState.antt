-- ===== src/State/SyncState.antt =====
-- The methods over the tables `sync_state` and `reverse_sync_state`.
pub mod Laws
use p4sync_git.Prelude.{ℕ, Bool, true, Option, none, some, List, map, is_some}
use p4sync_git.Text.{Str, str_eq, contains}
use p4sync_git.Sql.{fetch_one, upsert, select_where}
use p4sync_git.State.Schema.{SyncStateRow, ReverseRow, StreamMapping, Db}
use p4sync_git.State.Connection.{StateStore, write}

unfoldable pub sync_row : Str → StateStore → Option SyncStateRow
sync_row stream s = fetch_one (λ r. str_eq r.stream stream) s.conn.sync_state

abbrev last_cl_or_zero : Option SyncStateRow → ℕ
last_cl_or_zero none = 0
last_cl_or_zero (some r) = r.last_cl

unfoldable pub get_last_synced_cl : Str → StateStore → ℕ
unfolding sync_row
get_last_synced_cl stream s = last_cl_or_zero (sync_row stream s)

unfoldable pub is_stream_synced : Str → StateStore → Bool
unfolding sync_row
is_stream_synced stream s = is_some (sync_row stream s)

unfoldable pub set_last_synced_cl : Str → ℕ → Str → StateStore → StateStore
set_last_synced_cl stream cl commit_sha = write λ db. record db {
  sync_state =
      upsert (λ r. str_eq r.stream stream) (λ r. record r { last_cl = cl; commit_sha = commit_sha })
        (record { stream = stream; last_cl = cl; commit_sha = commit_sha }) db.sync_state;
}

abbrev pub same_sha_or_absent : Str → Option SyncStateRow → Bool
same_sha_or_absent head none = true
same_sha_or_absent head (some r) = str_eq r.commit_sha head

unfoldable pub verify_consistency : Str → Str → StateStore → Bool
verify_consistency branch git_head_sha s =
    let streams =
      map (λ (m : StreamMapping). m.stream)
        (select_where (λ (m : StreamMapping). str_eq m.branch branch) s.conn.stream_registry) in
    same_sha_or_absent git_head_sha
      (fetch_one (λ (r : SyncStateRow). contains streams r.stream) s.conn.sync_state)

abbrev last_sha : Option ReverseRow → Option Str
last_sha none = none
last_sha (some r) = some r.last_commit_sha

unfoldable pub get_last_reverse_sync_sha : Str → StateStore → Option Str
get_last_reverse_sync_sha branch s =
    last_sha (fetch_one (λ r. str_eq r.branch branch) s.conn.reverse_sync_state)

unfoldable pub set_last_reverse_sync_sha : Str → Str → StateStore → StateStore
set_last_reverse_sync_sha branch commit_sha = write λ db. record db {
  reverse_sync_state =
      upsert (λ r. str_eq r.branch branch) (λ r. record r { last_commit_sha = commit_sha })
        (record { branch = branch; last_commit_sha = commit_sha }) db.reverse_sync_state;
}
