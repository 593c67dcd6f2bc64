-- ===== src/State/Connection.antt =====
-- The object `StateStore`: its connection, the transaction flag and the author cache. `conn` is what
-- the connection sees, `disk` what has been committed.
pub mod Laws
use p4sync_git.Prelude.{ℕ, Bool, true, false, List, [], if◌then◌else◌}
use p4sync_git.Text.{Str}
use p4sync_git.Exec.{Result, ok, err, Exec}
use p4sync_git.State.Schema.{Db, empty_db}

pub record StateStore : Type 0 where
  pub conn : Db
  pub disk : Db
  pub in_transaction : Bool
  pub author_cache : List (Str × (Str × Str))
  pub author_cache_time : ℕ

-- `__init__` and `initialize` on a database that holds nothing yet
abbrev pub empty_store : StateStore
empty_store = record {
  conn = empty_db;
  disk = empty_db;
  in_transaction = false;
  author_cache = [];
  author_cache_time = 0;
}

-- `self._conn.commit()` and `self._conn.rollback()`
unfoldable pub commit : StateStore → StateStore
commit s = record s { disk = s.conn }

unfoldable pub rollback : StateStore → StateStore
rollback s = record s { conn = s.disk }

unfoldable pub auto_commit : StateStore → StateStore
unfolding commit
auto_commit s = if s.in_transaction then s else commit s

-- A statement that changes the tables, and the commit behind it.
unfoldable pub write : (Db → Db) → StateStore → StateStore
unfolding auto_commit
write change s = auto_commit (record s { conn = change s.conn })

unfoldable pub leave {ℓ} : {A : Type ℓ} → Result A → StateStore → Result A × StateStore
unfolding commit rollback
leave (ok a) s = (ok a, record (commit s) { in_transaction = false })
leave (err e) s = (err e, record (rollback s) { in_transaction = false })

unfoldable pub transaction : {A : Type 0} → Exec StateStore A → Exec StateStore A
unfolding leave
transaction body s =
    if s.in_transaction
    then body s
    else (let (r, s') = body (record s { in_transaction = true }) in leave r s')
