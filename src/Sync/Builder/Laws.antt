-- ===== src/Sync/Builder/Laws.antt =====
-- That the builder is one the synchronisation can use.
use p4sync_git.Prelude.{ℕ, ◌≡◌, refl, Option, List, [], ◌∷◌, arith}
use p4sync_git.Text.{Str}
use p4sync_git.Exec.{Result, ok, err, continue}
use p4sync_git.Git.FileMode.{FileChange}
use p4sync_git.Perforce.Change.{P4ChangeInfo}
use p4sync_git.Perforce.Merge.{MergeInfo}
use p4sync_git.State.Users.{Author}
use p4sync_git.State.Users.Laws.{get_git_author_keeps}
use p4sync_git.Sync.World.{GitOperator, World}
use p4sync_git.Sync.Changelist.Laws.{KeepsTables}
use p4sync_git.Sync.Builder.{
  Contents, CommitBuilder, unless_empty, extract_file_changes, try_merge_commit, commit_changes,
  build_commit,
}

module _ {G : Type 0} (git : GitOperator G) (p4 : Contents) (analyze : P4ChangeInfo → MergeInfo)
    (script : P4ChangeInfo → Option Author) (domain : Str) (b : CommitBuilder) (now : ℕ) where
  commit_changes-conn :
      (info : P4ChangeInfo) (branch : Str) (parent : Option Str) (cs : List FileChange)
      (ds : List Str) (w : World G)
      → (commit_changes git p4 analyze script domain b now info branch parent cs ds w).1.store.conn
        ≡ w.store.conn
  unfolding commit_changes try_merge_commit
  commit_changes-conn info branch parent cs ds w =
      ground (arith, get_git_author_keeps now info.user domain w.store)

  after_extraction :
      (info : P4ChangeInfo) (branch : Str) (parent : Option Str)
      (r : Result (List FileChange × List Str)) (w : World G)
      → (continue r
          (unless_empty git p4 analyze script domain b now info branch parent)
          w).1.store.conn
        ≡ w.store.conn
  after_extraction info branch parent (err e) w = refl
  after_extraction info branch parent (ok ([], [])) w = refl
  after_extraction info branch parent (ok ([], d ∷ ds)) w =
      commit_changes-conn info branch parent [] (d ∷ ds) w
  after_extraction info branch parent (ok (c ∷ cs, ds)) w =
      commit_changes-conn info branch parent (c ∷ cs) ds w

  -- Building a commit changes no table, whatever P4 and Git return: it is a builder as the
  -- synchronisation asks for.
  pub build_commit-KeepsTables : KeepsTables (build_commit git p4 analyze script domain b now)
  unfolding build_commit
  build_commit-KeepsTables info branch parent w =
      after_extraction info branch parent (extract_file_changes p4 b info) w
