-- ===== src/State/Archive/Laws.antt =====
-- What archiving moves, and when it is refused.
use p4sync_git.Prelude.{
  ℕ, ◌≤◌, ◌≡◌, Bool, true, false, ◌&&◌, Option, none, some, List, [], ◌∷◌, ◌++◌, map, any, arith,
  ◌==◌, Bool-cases, inl, inr, length,
}
use p4sync_git.Text.{Str, str_eq}
use p4sync_git.Exec.{err}
use p4sync_git.Sql.{fetch_one, select_where, delete_where}
use p4sync_git.Sql.Laws.{delete_where-HasUniqueKeys}
use p4sync_git.State.Schema.{CommitRow, ArchiveRow}
use p4sync_git.State.Connection.{StateStore, write}
use p4sync_git.State.Connection.Laws.{write-conn}
use p4sync_git.State.CommitMap.{commit_key, same_key, commit_row}
use p4sync_git.State.CommitMap.Laws.{IsKeyed, same_key_iff}
use p4sync_git.State.Archive.{
  is_old, archived_row, is_taken, unique_failed, archive_old_commit_maps,
}

abbrev pub archive_row : ℕ → Str → StateStore → Option ArchiveRow
archive_row cl stream s =
    fetch_one (λ (a : ArchiveRow). (a.changelist == cl) && str_eq a.stream stream)
      s.conn.cl_commit_map_archive

-- Where a row has gone: it stands in the archive and no longer in the map, or it is untouched.
abbrev pub Moved : ℕ → Str → Bool → CommitRow → StateStore → Type 0
Moved cl stream true r s =
    (commit_row cl stream s ≡ none) × (archive_row cl stream s ≡ some (archived_row r))
Moved cl stream false r s = commit_row cl stream s ≡ some r

module _ (now days cl : ℕ) (stream : Str) where
  any-select_where :
      (p : CommitRow → Bool) (rows : List CommitRow) (r : CommitRow)
      → fetch_one (λ x. same_key (commit_key x) (cl, stream)) rows ≡ some r
      → is_old now days r ≡ true
      → p r ≡ true
      → any p (select_where (is_old now days) rows) ≡ true
  unfolding fetch_one select_where
  any-select_where p [] r h o e = ground arith
  any-select_where p (x ∷ rows) r h o e = ground (arith, any-select_where p rows r)

  -- What a successful archiving leaves at a key, by the row that stood there.
  archived_state : ℕ → StateStore → StateStore
  archived_state deleted_at s =
      write
        (λ db. record db {
          cl_commit_map = delete_where (is_old deleted_at days) db.cl_commit_map;
          cl_commit_map_archive =
              db.cl_commit_map_archive
              ++ map archived_row (select_where (is_old now days) s.conn.cl_commit_map);
        })
        s

-- A changelist that stands in the archive, and was recorded and pushed again, blocks the archiving
-- for good once it is old: the call raises and changes nothing, then and at every later time.
pub archive_blocked :
    (now later deleted_at days cl : ℕ) (stream : Str) (s : StateStore) (r : CommitRow)
    → commit_row cl stream s ≡ some r
    → is_old now days r ≡ true
    → is_taken s.conn.cl_commit_map_archive r ≡ true
    → now ≤ later
    → archive_old_commit_maps later deleted_at days s ≡ (err unique_failed, s)
unfolding archive_old_commit_maps commit_row
archive_blocked now later deleted_at days cl stream s r f o t l = rw (
    any-select_where later days cl stream (is_taken s.conn.cl_commit_map_archive)
      s.conn.cl_commit_map r f (ground arith) t)

-- Archiving keeps one row for a changelist of a stream.
pub archive-IsKeyed :
    (now deleted_at days : ℕ) (s : StateStore)
    → IsKeyed s
    → IsKeyed (archive_old_commit_maps now deleted_at days s).1
unfolding archive_old_commit_maps
archive-IsKeyed now deleted_at days s u =
    elim (Bool-cases (any (is_taken s.conn.cl_commit_map_archive) old)) [
      | inl t ↦ rw t u
      | inr t ↦ elim (Bool-cases (length old == 0)) [
        | inl z ↦ rw (t, z) u
        | inr z ↦
            rw (t, z, write-conn)
              (delete_where-HasUniqueKeys same_key same_key_iff commit_key (is_old deleted_at days)
                s.conn.cl_commit_map u)
      ]
    ]
  where
    old : List CommitRow
    old = select_where (is_old now days) s.conn.cl_commit_map
