-- ===== src/Tests/State.antt =====
-- The state store with one commit.
use p4sync_git.Prelude.{ℕ, ◌≡◌, ◌∙◌, refl, true, false, some, [], ◌∷◌, arith, if◌then◌else◌}
use p4sync_git.Text.{codes, str_eq}
use p4sync_git.Exec.{err, Exec, ◌>>◌, modify, raise}
use p4sync_git.Sql.{fetch_one}
use p4sync_git.State.Schema.{p4_to_git}
use p4sync_git.State.Connection.{StateStore, transaction}
use p4sync_git.State.Connection.Laws.{
  IsDeferred, AllOrNothing, transaction_atomic, write-disk, write-in_transaction,
}
use p4sync_git.State.SyncState.{set_last_synced_cl}
use p4sync_git.State.CommitMap.{commit_row, get_commit_sha, record_commit, same_key}
use p4sync_git.State.CommitMap.Laws.{get_commit_sha-record_commit}
use p4sync_git.State.Archive.{unique_failed, archive_old_commit_maps}
use p4sync_git.State.Archive.Laws.{archive_blocked}
use p4sync_git.Tests.Data.{main, row, one_commit}

-- a write, and a failure behind it
abbrev failing : Exec StateStore (Unit {0})
failing = modify (set_last_synced_cl main 9 (codes "bb")) >> raise (codes "boom")

failing-IsDeferred : IsDeferred failing
unfolding set_last_synced_cl
failing-IsDeferred s h = (write-disk _ s h, write-in_transaction _ s ∙ h)

transaction_atomic_example :
    let (r, s') = failing (record one_commit { in_transaction = true }) in
    AllOrNothing (r, record s' { disk = one_commit.disk }) (transaction failing one_commit)
transaction_atomic_example = transaction_atomic failing one_commit failing-IsDeferred refl

get_commit_sha-record_commit_example :
    get_commit_sha 7 main
      (record_commit 60 8 (codes "bb") main (codes "main") false p4_to_git one_commit)
    ≡ (if same_key (8, main) (7, main) then some (codes "bb") else get_commit_sha 7 main one_commit)
get_commit_sha-record_commit_example =
    get_commit_sha-record_commit 60 8 (codes "bb") main (codes "main") false p4_to_git one_commit 7
      main (λ e. ground (arith, e))

-- the time at which the commit is older than a day
abbrev later : ℕ
later = 90000

-- a store whose commit stands in the archive already
abbrev archived_before : StateStore
archived_before = record one_commit {
  conn = record one_commit.conn {
    cl_commit_map_archive =
        record {
          changelist = 7;
          commit_sha = codes "a0";
          stream = main;
          branch = codes "main";
          has_integration = false;
          created_at = 1;
        }
        ∷ [];
  };
}

archive_blocked_example :
    archive_old_commit_maps 99000 99001 1 archived_before ≡ (err unique_failed, archived_before)
unfolding commit_row fetch_one str_eq
archive_blocked_example =
    archive_blocked later 99000 99001 1 7 main archived_before (row 7 (codes "aa")) refl refl refl
      (omega arith)
