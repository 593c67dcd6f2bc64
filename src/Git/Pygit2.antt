-- ===== src/Git/Pygit2.antt =====
-- git/pygit2_git_operator.py. `Repository` is what libgit2 and the commands of Git do to a repository.
-- Opening it again after a command changes nothing here; `now` is `time.monotonic()`.
pub mod Laws
use p4sync_git.Prelude.{
  ℕ, zero, suc, ◌+◌, ◌-◌, ◌*◌, Bool, true, false, not, Option, none, some, List, [], ◌∷◌, ◌++◌, ltb,
  if◌then◌else◌, is_empty,
}
use p4sync_git.Text.{Str, codes}
use p4sync_git.Text.Lines.{splitlines}
use p4sync_git.Text.Strip.{strip_spaces}
use p4sync_git.Exec.{Result, ok, err, Exec, ◌>>=◌, ◌>>◌, pure, raise, lift, gets, modify}
use p4sync_git.Git.Trailers.{CommitMetadata, format_message}
use p4sync_git.Git.FileMode.{FileChange}
use p4sync_git.Git.Tree.{Tree, build_tree_incremental}
use p4sync_git.Git.Output.{LogCommit, read_log, read_name_status, read_branches}

pub record Repository (R : Type 0) : Type 0 where
  pub reference : Str → R → Option Str
  pub tree_of : Str → R → Option Tree
  pub create_blob : List ℕ → Str
  pub create_commit : Str → CommitMetadata → Str → Tree → List Str → Exec R Str
  pub create_reference : Str → Str → Exec R (Unit {0})
  pub delete_reference : Str → R → R
  pub lfs_push : Str → Exec R (Unit {0})
  pub push : Str → Exec R (Unit {0})
  pub fetch : Str → Exec R (Unit {0})
  pub log : Str → ℕ → R → Option Str
  pub name_status : Str → R → Option Str
  pub show : Str → Str → R → Option (List ℕ)
  pub remote_branches : R → Option Str
  pub loose_objects : R → ℕ
  pub gc : R → R
  pub repack : R → R
  pub is_oid : Str → Bool

pub record Pygit2GitOperator (R : Type 0) : Type 0 where
  pub repo : R
  pub remote_url : Str
  pub commit_count : ℕ
  pub last_gc_time : ℕ
  pub last_repack_time : ℕ

abbrev pub gc_weekly_seconds : ℕ
gc_weekly_seconds = 7 * 24 * 3600

abbrev pub loose_object_threshold : ℕ
loose_object_threshold = 10000

abbrev pub ref_of : Str → Str
ref_of branch = codes "refs/heads/" ++ branch

-- `after_sha..remote/branch`, or all of it
abbrev pub range_spec : Str → Option Str → Str → Str
range_spec branch none remote = remote ++ (b'/' ∷ branch)
range_spec branch (some []) remote = remote ++ (b'/' ∷ branch)
range_spec branch (some (c ∷ sha)) remote = (c ∷ sha) ++ (codes ".." ++ (remote ++ (b'/' ∷ branch)))

module _ {R : Type 0} (lib : Repository R) where
  abbrev pub on_repo : {A : Type 0} → Exec R A → Exec (Pygit2GitOperator R) A
  on_repo m op = let (r, g) = m op.repo in (r, record op { repo = g })

  abbrev pub tree_at : Option Str → R → Option Tree
  tree_at none g = none
  tree_at (some sha) g = lib.tree_of sha g

  -- the tree of the branch, if it has one
  unfoldable pub previous_tree : Str → R → Option Tree
  previous_tree branch g = tree_at (lib.reference (ref_of branch) g) g

  unfoldable pub do_commit :
      Str → List Str → CommitMetadata → List FileChange → List Str → Exec (Pygit2GitOperator R) Str
  unfolding previous_tree
  do_commit branch parents m changes deletes = do
    prev ← gets (λ op. previous_tree branch op.repo)
    oid ← on_repo (
        lib.create_commit (ref_of branch) m (format_message m)
          (build_tree_incremental lib.create_blob prev changes deletes) parents)
    modify (λ op. record op { commit_count = op.commit_count + 1 })
    pure oid

  -- `pygit2.Oid(hex=sha)` of each
  unfoldable pub oids_of : List Str → Result (List Str)
  oids_of [] = ok []
  oids_of (sha ∷ shas) =
      let rest = oids_of shas in if lib.is_oid sha then rest else err (codes "ValueError")

  abbrev parents_of : Option Str → List Str
  parents_of none = []
  parents_of (some []) = []
  parents_of (some (c ∷ sha)) = (c ∷ sha) ∷ []

  unfoldable pub create_merge_commit :
      Str → List Str → CommitMetadata → List FileChange → List Str → Exec (Pygit2GitOperator R) Str
  unfolding do_commit oids_of
  create_merge_commit branch parent_shas m changes deletes =
      lift (oids_of parent_shas) >> do_commit branch parent_shas m changes deletes

  unfoldable pub create_commit :
      Str
      → Option Str
      → CommitMetadata
      → List FileChange
      → List Str
      → Exec (Pygit2GitOperator R) Str
  unfolding do_commit oids_of
  create_commit branch parent_sha m changes deletes =
      lift (oids_of (parents_of parent_sha))
      >> do_commit branch (parents_of parent_sha) m changes deletes

  abbrev unless_exists : Option Str → Exec R (Unit {0}) → Exec R (Unit {0})
  unless_exists (some sha) m = pure tt
  unless_exists none m = m

  unfoldable pub create_branch : Str → Str → Exec (Pygit2GitOperator R) (Unit {0})
  unfolding oids_of
  create_branch branch start_sha op =
      on_repo
        (unless_exists (lib.reference (ref_of branch) op.repo)
          (lift (oids_of (start_sha ∷ [])) >> lib.create_reference (ref_of branch) start_sha))
        op

  abbrev if_lfs : Bool → Str → Exec R (Unit {0})
  if_lfs true branch = lib.lfs_push branch
  if_lfs false branch = pure tt

  -- Without a remote nothing is pushed.
  unfoldable pub push : Str → Bool → Exec (Pygit2GitOperator R) (Unit {0})
  push branch lfs_enabled op =
      if is_empty op.remote_url
      then (ok tt, op)
      else on_repo (if_lfs lfs_enabled branch >> lib.push branch) op

  unfoldable pub fetch : Str → Exec (Pygit2GitOperator R) (Unit {0})
  fetch remote = on_repo (lib.fetch remote)

  abbrev logged : Option Str → Result (List LogCommit)
  logged none = ok []
  logged (some out) = read_log out

  unfoldable pub get_log_after :
      Str → Option Str → Str → ℕ → Exec (Pygit2GitOperator R) (List LogCommit)
  unfolding read_log
  get_log_after branch after_sha remote max_count op =
      (logged (lib.log (range_spec branch after_sha remote) max_count op.repo), op)

  abbrev files_in : Str → R → Option Str → Result (List (Str × List ℕ) × List Str)
  files_in sha g none = err (codes "RuntimeError")
  files_in sha g (some out) =
      ok (read_name_status (λ path. lib.show sha path g) (splitlines (strip_spaces out)))

  unfoldable pub get_commit_files :
      Str → Exec (Pygit2GitOperator R) (List (Str × List ℕ) × List Str)
  unfolding read_name_status splitlines strip_spaces
  get_commit_files sha op = (files_in sha op.repo (lib.name_status sha op.repo), op)

  -- A failure is only logged.
  unfoldable pub delete_branch : Str → Pygit2GitOperator R → Pygit2GitOperator R
  delete_branch branch op = record op { repo = lib.delete_reference (ref_of branch) op.repo }

  abbrev branches_in : Str → Str → Option Str → List Str
  branches_in remote prefix none = []
  branches_in remote prefix (some out) = read_branches remote prefix (splitlines (strip_spaces out))

  unfoldable pub list_remote_branches : Str → Str → Pygit2GitOperator R → List Str
  unfolding read_branches splitlines strip_spaces
  list_remote_branches remote prefix op = branches_in remote prefix (lib.remote_branches op.repo)

  unfoldable pub get_head_sha : Str → Pygit2GitOperator R → Option Str
  get_head_sha branch op = lib.reference (ref_of branch) op.repo

  unfoldable pub run_gc : ℕ → Pygit2GitOperator R → Pygit2GitOperator R
  run_gc now op = record op { repo = lib.gc op.repo; last_gc_time = now }

  unfoldable pub run_repack : ℕ → Pygit2GitOperator R → Pygit2GitOperator R
  run_repack now op = record op { repo = lib.repack op.repo; last_repack_time = now }

  -- The interval that is configured is not looked at.
  unfoldable pub maybe_run_gc : ℕ → ℕ → Pygit2GitOperator R → Pygit2GitOperator R
  unfolding run_gc run_repack
  maybe_run_gc now gc_interval op =
      if ltb loose_object_threshold (lib.loose_objects op.repo)
      then run_gc now op
      else if ltb gc_weekly_seconds (now - op.last_gc_time)
      then run_gc now op
      else if ltb gc_weekly_seconds (now - op.last_repack_time)
      then run_repack now op
      else op
