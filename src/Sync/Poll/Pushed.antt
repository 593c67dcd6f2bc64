-- ===== src/Sync/Poll/Pushed.antt =====
-- What marking changelists as pushed changes in the commit map.
use mathlib.Core.Option
use p4sync_git.Prelude.{
  any, ◌&&◌, ◌==◌, ℕ, ◌≡◌, refl, inl, inr, Option-cases, List, [], ◌∷◌, arith, if◌then◌else◌,
}
use p4sync_git.Text.{Str, str_eq}
use p4sync_git.State.Connection.{StateStore}
use p4sync_git.State.Schema.{CommitRow, pushed}
use p4sync_git.State.CommitMap.{update_push_status, commit_row}
use p4sync_git.State.CommitMap.Laws.{commit_row-update_push_status}
use p4sync_git.Sync.Poll.{mark_batch_pushed}

abbrev pub pushed_if : List ℕ → Str → CommitRow → CommitRow
pushed_if cls stream r =
    if any (λ n. n == r.changelist) cls && str_eq r.stream stream
    then record r { git_push_status = pushed }
    else r

-- Marking changelists of a stream as pushed sets the status of exactly their rows, and changes
-- nothing else of any row: a commit of a changelist that is not among them keeps its status.
pub commit_row-mark_batch_pushed :
    (cls : List ℕ) (n : ℕ) (stream other : Str) (s : StateStore)
    → commit_row n other (mark_batch_pushed cls stream s)
      ≡ Option.map (pushed_if cls stream) (commit_row n other s)
unfolding mark_batch_pushed
commit_row-mark_batch_pushed [] n stream other s = elim (Option-cases (commit_row n other s)) [
  | inl e ↦ rw e refl
  | inr (r, e) ↦ rw e refl
]
commit_row-mark_batch_pushed (cl ∷ cls) n stream other s =
    rw
      (
        commit_row-mark_batch_pushed cls n stream other (update_push_status cl stream pushed s),
        commit_row-update_push_status cl n stream other pushed s,
      )
      (elim (Option-cases (commit_row n other s)) [
        | inl e ↦ rw e refl
        | inr (r, e) ↦ rw e (ground arith)
      ])
