-- ===== src/State/SyncState/Laws.antt =====
-- The synchronisation point of a stream under the methods that write it.
use p4sync_git.Prelude.{ℕ, ◌≡◌, refl, true, some, arith, if◌then◌else◌}
use p4sync_git.Text.{Str, str_eq}
use p4sync_git.Text.Laws.{str_eq_iff, str_eq_refl}
use p4sync_git.Sql.Laws.{fetch_one-upsert, upserted}
use p4sync_git.State.Schema.{SyncStateRow, ReverseRow}
use p4sync_git.State.Connection.{StateStore}
use p4sync_git.State.Connection.Laws.{write-conn}
use p4sync_git.State.SyncState.{
  sync_row, get_last_synced_cl, is_stream_synced, set_last_synced_cl, get_last_reverse_sync_sha,
  set_last_reverse_sync_sha,
}

-- The row that `set_last_synced_cl` leaves for a stream.
pub sync_row-set_last_synced_cl :
    (stream other : Str) (cl : ℕ) (sha : Str) (s : StateStore)
    → sync_row other (set_last_synced_cl stream cl sha s) ≡ (
        if str_eq stream other
        then some (
            upserted
              (λ r. record r { last_cl = cl; commit_sha = sha })
              (record { stream = stream; last_cl = cl; commit_sha = sha })
              (sync_row stream s))
        else sync_row other s)
unfolding sync_row set_last_synced_cl
sync_row-set_last_synced_cl stream other cl sha s = rw write-conn (
    fetch_one-upsert str_eq str_eq_iff (λ (r : SyncStateRow). r.stream) stream other
      (λ r. record r { last_cl = cl; commit_sha = sha })
      (record { stream = stream; last_cl = cl; commit_sha = sha }) s.conn.sync_state refl
      (λ r. refl))

-- The point that `set_last_synced_cl` stores is the one that `get_last_synced_cl` returns for the
-- stream; every other stream keeps its own.
pub get_last_synced_cl-set_last_synced_cl :
    (stream other : Str) (cl : ℕ) (sha : Str) (s : StateStore)
    → get_last_synced_cl other (set_last_synced_cl stream cl sha s)
      ≡ (if str_eq stream other then cl else get_last_synced_cl other s)
unfolding get_last_synced_cl
get_last_synced_cl-set_last_synced_cl stream other cl sha s =
    ground (arith, sync_row-set_last_synced_cl stream other cl sha s)

pub is_stream_synced-set_last_synced_cl :
    (stream : Str) (cl : ℕ) (sha : Str) (s : StateStore)
    → is_stream_synced stream (set_last_synced_cl stream cl sha s) ≡ true
unfolding is_stream_synced
is_stream_synced-set_last_synced_cl stream cl sha s =
    ground (arith, sync_row-set_last_synced_cl stream stream cl sha s, str_eq_refl stream)

-- The commit stored for a branch is read back for it, and other branches keep theirs.
pub get_last_reverse_sync_sha-set :
    (branch other : Str) (sha : Str) (s : StateStore)
    → get_last_reverse_sync_sha other (set_last_reverse_sync_sha branch sha s)
      ≡ (if str_eq branch other then some sha else get_last_reverse_sync_sha other s)
unfolding get_last_reverse_sync_sha set_last_reverse_sync_sha
get_last_reverse_sync_sha-set branch other sha s = rw write-conn (
    ground (
      arith,
      fetch_one-upsert str_eq str_eq_iff (λ (r : ReverseRow). r.branch) branch other
          (λ r. record r { last_commit_sha = sha })
          (record { branch = branch; last_commit_sha = sha }) s.conn.reverse_sync_state refl
          (λ r. refl),
    ))
