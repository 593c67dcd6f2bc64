-- ===== src/State/Conflicts/Laws.antt =====
-- A branch is in conflict from `record_conflict` to `resolve_conflict`.
use p4sync_git.Prelude.{◌≡◌, refl, none, some, List, [], ◌∷◌, arith, if◌then◌else◌}
use p4sync_git.Text.{Str, str_eq}
use p4sync_git.Text.Laws.{str_eq_iff}
use p4sync_git.Sql.{fetch_one, delete_where}
use p4sync_git.Sql.Laws.{fetch_one-upsert, upserted}
use p4sync_git.State.Schema.{ConflictRow}
use p4sync_git.State.Connection.{StateStore}
use p4sync_git.State.Connection.Laws.{write-conn}
use p4sync_git.State.Conflicts.{record_conflict, get_conflict, resolve_conflict}

overwrite : ConflictRow → ConflictRow → ConflictRow
overwrite c r = record r {
  conflict_branch = c.conflict_branch;
  p4_changelists = c.p4_changelists;
  git_commits = c.git_commits;
  conflict_files = c.conflict_files;
}

found-is-recorded :
    (c : ConflictRow) (rs : List ConflictRow)
    → upserted (overwrite c) c (fetch_one (λ r. str_eq r.branch c.branch) rs) ≡ c
unfolding fetch_one overwrite
found-is-recorded c [] = refl
found-is-recorded c (r ∷ rs) = ground (arith, str_eq_iff r.branch c.branch, found-is-recorded c rs)

-- The conflict recorded for a branch, its lists included, is read back whole, also where an older
-- conflict of the branch stood; other branches keep theirs.
pub get_conflict-record_conflict :
    (c : ConflictRow) (branch : Str) (s : StateStore)
    → get_conflict branch (record_conflict c s)
      ≡ (if str_eq c.branch branch then some c else get_conflict branch s)
unfolding get_conflict record_conflict overwrite
get_conflict-record_conflict c branch s =
    rw
      (
        write-conn,
        fetch_one-upsert str_eq str_eq_iff (λ (r : ConflictRow). r.branch) c.branch branch
            (overwrite c) c s.conn.conflict_state refl (λ r. refl),
      )
      (rw found-is-recorded)

fetch_one-delete_branch :
    (branch other : Str) (rs : List ConflictRow)
    → fetch_one (λ r. str_eq r.branch other) (delete_where (λ r. str_eq r.branch branch) rs)
      ≡ (if str_eq branch other then none else fetch_one (λ r. str_eq r.branch other) rs)
unfolding fetch_one delete_where
fetch_one-delete_branch branch other [] = ground arith
fetch_one-delete_branch branch other (r ∷ rs) = ground (
  arith,
  str_eq_iff r.branch branch,
  str_eq_iff r.branch other,
  str_eq_iff branch other,
  fetch_one-delete_branch branch other rs,
)

-- After a resolution the branch is in no conflict; other branches keep theirs.
pub get_conflict-resolve_conflict :
    (branch other : Str) (s : StateStore)
    → get_conflict other (resolve_conflict branch s)
      ≡ (if str_eq branch other then none else get_conflict other s)
unfolding get_conflict resolve_conflict
get_conflict-resolve_conflict branch other s =
    rw (write-conn, fetch_one-delete_branch branch other s.conn.conflict_state)
