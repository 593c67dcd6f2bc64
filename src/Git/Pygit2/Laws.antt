-- ===== src/Git/Pygit2/Laws.antt =====
-- The commits of the library operator.
use p4sync_git.Prelude.{◌+◌, ◌≡◌, refl, ◌∙◌, sym, inl, inr, true, some, List, []}
use p4sync_git.Text.{Str, contains, split}
use p4sync_git.Text.Dict.{dict_get}
use p4sync_git.Exec.{ok, Result-cases, ok-ne-err}
use p4sync_git.Git.Trailers.{CommitMetadata, format_message}
use p4sync_git.Git.FileMode.{FileChange}
use p4sync_git.Git.Tree.{Tree, or_leaf, find, slash, blobs_of, build_tree_incremental, IsTree}
use p4sync_git.Git.Tree.Find.{changed}
use p4sync_git.Git.Tree.Laws.{is_clear_of, find-build_tree_incremental}
use p4sync_git.Git.Pygit2.{Repository, Pygit2GitOperator, ref_of, previous_tree, do_commit}

-- A commit that is made is one that libgit2 made.
committed :
    {R : Type 0} (lib : Repository R) (branch : Str) (parents : List Str) (m : CommitMetadata)
    (changes : List FileChange) (deletes : List Str) (op : Pygit2GitOperator R) (sha : Str)
    → (do_commit lib branch parents m changes deletes op).0 ≡ ok sha
    → let t =
        build_tree_incremental lib.create_blob (previous_tree lib branch op.repo) changes deletes in
      let made = lib.create_commit (ref_of branch) m (format_message m) t parents op.repo in
      (made.0 ≡ ok sha)
      × ((do_commit lib branch parents m changes deletes op).1
          ≡ record op { repo = made.1; commit_count = op.commit_count + 1 })
unfolding do_commit
committed lib branch parents m changes deletes op sha h =
    let t =
      build_tree_incremental lib.create_blob (previous_tree lib branch op.repo) changes deletes in
    let made = lib.create_commit (ref_of branch) m (format_message m) t parents op.repo in
    elim (Result-cases made.0) [
      | inl (oid, e) ↦ ((e ∙ (rw e at h)), rw e refl)
      | inr (text, e) ↦ absurd (ok-ne-err sha text (sym (rw e at h)))
    ]

module _ {R : Type 0} (lib : Repository R)
    (moves : (ref : Str) (m : CommitMetadata) (message : Str) (t : Tree) (parents : List Str)
        (g : R) (sha : Str)
      → (lib.create_commit ref m message t parents g).0 ≡ ok sha
      → let g' = (lib.create_commit ref m message t parents g).1 in
        (lib.reference ref g' ≡ some sha) × (lib.tree_of sha g' ≡ some t)) where
  -- When libgit2 moves a branch to the commit that it made of a tree, a commit that is made leaves on
  -- the branch, at each path clear of the other changes, the new file, or nothing where only a deletion
  -- stands, or else the file that was there; and it counts one commit more.
  pub do_commit-find :
      (branch : Str) (parents : List Str) (m : CommitMetadata) (changes : List FileChange)
      (deletes : List Str) (op : Pygit2GitOperator R) (sha : Str)
      → IsTree (or_leaf (previous_tree lib branch op.repo))
      → (do_commit lib branch parents m changes deletes op).0 ≡ ok sha
      → let op' = (do_commit lib branch parents m changes deletes op).1 in
        (op'.commit_count ≡ op.commit_count + 1)
        × ((p : Str)
            → is_clear_of p (blobs_of lib.create_blob changes []) deletes ≡ true
            → find (split slash p) (or_leaf (previous_tree lib branch op'.repo))
              ≡ changed
                  (dict_get p (blobs_of lib.create_blob changes []))
                  (contains deletes p)
                  (find (split slash p) (or_leaf (previous_tree lib branch op.repo))))
  unfolding previous_tree
  do_commit-find branch parents m changes deletes op sha t h =
      let prev = previous_tree lib branch op.repo in
      let new = build_tree_incremental lib.create_blob prev changes deletes in
      let (made, after) = committed lib branch parents m changes deletes op sha h in
      let (ref, tree) = moves (ref_of branch) m (format_message m) new parents op.repo sha made in
      rw after (
        refl,
        λ p c.
            rw (ref, tree) (find-build_tree_incremental lib.create_blob prev changes deletes p t c),
      )
