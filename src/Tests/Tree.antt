-- ===== src/Tests/Tree.antt =====
-- A commit that changes one file of a directory and deletes another.
use p4sync_git.Prelude.{ℕ, ◌+◌, ◌≡◌, refl, true, none, some, List, [], ◌∷◌}
use mathlib.Core.Option
use p4sync_git.Text.{Str, codes, contains, split, str_eq}
use p4sync_git.Text.Dict.{dict_get}
use p4sync_git.Exec.{ok}
use p4sync_git.Git.Trailers.{CommitMetadata}
use p4sync_git.Git.FileMode.{FileChange, git_mode_file}
use p4sync_git.Git.Tree.{
  Blob, blob, tree, Tree, leaf, entry, TreeNode, node, no_child, or_leaf, find, slash, blobs_of,
  build_tree_incremental, IsTree, entry_at,
}
use p4sync_git.Git.Tree.Find.{changed}
use p4sync_git.Git.Tree.Laws.{is_clear_of}
use p4sync_git.Git.Cli.{GitCli, hash_changes, pop_all}
use p4sync_git.Git.Cli.Laws.{file_entry, hash_changes-eq-find}
use p4sync_git.Git.Pygit2.{Repository, Pygit2GitOperator, do_commit, previous_tree}
use p4sync_git.Git.Pygit2.Laws.{do_commit-find}

-- the object id of a content is the content
abbrev id_of : List ℕ → Str
id_of content = content

abbrev old : Blob
old = (codes "1", git_mode_file)

-- src/a.c and src/b.c
abbrev before : Tree
before =
    entry (codes "src")
      (tree (entry (codes "a.c") (blob old) (entry (codes "b.c") (blob old) leaf))) leaf

abbrev changes : List FileChange
changes = record { path = codes "src/a.c"; content = codes "2"; mode = none } ∷ []

abbrev deletes : List Str
deletes = codes "src/b.c" ∷ []

before-IsTree : IsTree before
unfolding IsTree entry_at str_eq
before-IsTree = (refl, (refl, tt, (refl, tt, tt)), tt)

some_of : {a b : Str} → ok a ≡ ok b → some a ≡ some b
some_of h = cc

-- a repository with one branch, whose state is its tree
abbrev library : Repository Tree
library = record {
  reference = λ ref g. some (codes "c0");
  tree_of = λ sha g. some g;
  create_blob = id_of;
  create_commit = λ ref m message t parents g. (ok (codes "c0"), t);
  create_reference = λ ref sha g. (ok tt, g);
  delete_reference = λ ref g. g;
  lfs_push = λ branch g. (ok tt, g);
  push = λ branch g. (ok tt, g);
  fetch = λ remote g. (ok tt, g);
  log = λ range max_count g. none;
  name_status = λ sha g. none;
  show = λ sha path g. none;
  remote_branches = λ g. none;
  loose_objects = λ g. 0;
  gc = λ g. g;
  repack = λ g. g;
  is_oid = λ sha. true;
}

abbrev operator : Pygit2GitOperator Tree
operator = record {
  repo = before;
  remote_url = [];
  commit_count = 4;
  last_gc_time = 0;
  last_repack_time = 0;
}

abbrev meta : CommitMetadata
meta = record {
  author_name = codes "Ann";
  author_email = codes "ann@company.com";
  author_timestamp = 100;
  message = codes "fix";
  p4_changelist = 7;
  integration_info = none;
}

previous-IsTree : IsTree (or_leaf (previous_tree library (codes "main") before))
unfolding previous_tree
previous-IsTree = before-IsTree

made : (do_commit library (codes "main") [] meta changes deletes operator).0 ≡ ok (codes "c0")
unfolding do_commit
made = refl

do_commit-find_example :
    let op' = (do_commit library (codes "main") [] meta changes deletes operator).1 in
    (op'.commit_count ≡ operator.commit_count + 1)
    × ((p : Str)
        → is_clear_of p (blobs_of library.create_blob changes []) deletes ≡ true
        → find (split slash p) (or_leaf (previous_tree library (codes "main") op'.repo))
          ≡ changed
              (dict_get p (blobs_of library.create_blob changes []))
              (contains deletes p)
              (find (split slash p) (or_leaf (previous_tree library (codes "main") operator.repo))))
do_commit-find_example =
    do_commit-find library (λ ref m message t parents g sha h. (some_of h, refl)) (codes "main") []
      meta changes deletes operator (codes "c0") previous-IsTree made

abbrev command_line : GitCli ℕ
command_line = record {
  ls_tree = λ sha n. none;
  hash_object = λ content n. (ok (id_of content), n + 1);
  mktree = λ input n. (ok (codes "t0"), n);
  commit_tree = λ t parents m message n. (ok (codes "c0"), n);
  update_ref = λ ref sha n. (ok tt, n);
  rev_parse = λ ref n. none;
  gc_auto = λ n. n;
}

none-IsTree : IsTree (or_leaf none)
unfolding IsTree
none-IsTree = tt

hash_changes-eq-find_example :
    (files : List (Str × (Str × Str))) × ((hash_changes command_line
        (λ d. d)
        changes
        (pop_all deletes [])
        0).0
      ≡ ok files)
    × ((p : Str)
        → is_clear_of p (blobs_of id_of changes []) deletes ≡ true
        → dict_get {A = Str × Str} p []
          ≡ Option.map file_entry (find (split slash p) (or_leaf none))
        → dict_get p files
          ≡ Option.map file_entry
              (find (split slash p) (build_tree_incremental id_of none changes deletes)))
hash_changes-eq-find_example =
    hash_changes-eq-find id_of command_line (λ d. d) (λ content n. refl) none [] changes deletes 0
      none-IsTree

-- the directory src, both of whose files are deleted
abbrev all_deleted : TreeNode
all_deleted = node [] (codes "a.c" ∷ codes "b.c" ∷ []) no_child

abbrev src_tree : Tree
src_tree = entry (codes "a.c") (blob old) (entry (codes "b.c") (blob old) leaf)
