-- ===== src/Git/Cli.antt =====
-- git/git_cli_operator.py. `GitCli` is what the commands of Git do to a repository; a command that
-- fails gives `none` or `err`.
pub mod Laws
use p4sync_git.Prelude.{
  ℕ, zero, suc, ◌+◌, ◌%◌, Bool, true, false, ◌&&◌, Option, none, some, List, [], ◌∷◌, ◌++◌, ltb,
  ◌==◌, if◌then◌else◌,
}
use p4sync_git.Text.{Str, codes, str_eq, contains, before_char, after_char}
use p4sync_git.Text.Dict.{Dict, dict_set, dict_pop}
use p4sync_git.Text.Lines.{splitlines, words}
use p4sync_git.Exec.{Result, ok, err, Exec, ◌>>=◌, ◌>>◌, pure, raise, lift, gets, modify}
use p4sync_git.Git.Trailers.{CommitMetadata, format_message}
use p4sync_git.Git.FileMode.{FileChange, unpack_change}
use p4sync_git.Text.Octal.{show_octal}

pub record GitCli (G : Type 0) : Type 0 where
  pub ls_tree : Str → G → Option Str
  pub hash_object : List ℕ → Exec G Str
  pub mktree : Str → Exec G Str
  pub commit_tree : Str → List Str → CommitMetadata → Str → Exec G Str
  pub update_ref : Str → Str → Exec G (Unit {0})
  pub rev_parse : Str → G → Option Str
  pub gc_auto : G → G

pub record GitCliOperator (G : Type 0) : Type 0 where
  pub repo : G
  pub commit_count : ℕ

-- mode and object id of a file, by its path
abbrev pub Files : Type 0
Files = Dict (Str × Str)

abbrev pub tab : ℕ
tab = 9

-- `mode, obj_type, sha = meta.split()`
abbrev pub three_words : List Str → Result (Str × Str)
three_words (mode ∷ kind ∷ sha ∷ []) = ok (mode, sha)
three_words ws = err (codes "ValueError")

abbrev pub with_file : Str → Result (Str × Str) → Files → Result Files
with_file path (ok f) d = ok (dict_set path f d)
with_file path (err e) d = err e

unfoldable pub has_tab : Str → Bool
has_tab [] = false
has_tab (c ∷ s) = if c == tab then true else has_tab s

abbrev pub add_line : Str → Files → Result Files
add_line line d =
    if has_tab line
    then with_file (after_char tab line) (three_words (words (before_char tab line))) d
    else ok d

abbrev pub and_lines : Result Files → (Files → Result Files) → Result Files
and_lines (ok d) f = f d
and_lines (err e) f = err e

-- the files of the first parent, from the lines of `git ls-tree -r`
unfoldable pub files_of : List Str → Files → Result Files
unfolding has_tab before_char after_char words dict_set
files_of [] d = ok d
files_of (line ∷ lines) d = and_lines (add_line line d) (files_of lines)

unfoldable pub pop_all : List Str → Files → Files
unfolding dict_pop
pop_all [] d = d
pop_all (path ∷ paths) d = pop_all paths (dict_pop path d)

-- `f"{mode} blob {sha}\t{path}\n"` for each file
unfoldable pub mktree_input : Files → Str
mktree_input [] = []
mktree_input ((path, (mode, sha)) ∷ d) =
    mode ++ (codes " blob " ++ (sha ++ (tab ∷ (path ++ (10 ∷ mktree_input d)))))

module _ {G : Type 0} (cli : GitCli G) (sort_files : Files → Files) where
  abbrev parsed : Option Str → Result Files
  parsed none = ok []
  parsed (some out) = files_of (splitlines out) []

  unfoldable pub existing_files : List Str → G → Result Files
  unfolding splitlines files_of
  existing_files [] g = ok []
  existing_files (parent ∷ parents) g = parsed (cli.ls_tree parent g)

  unfoldable pub hash_changes : List FileChange → Files → Exec G Files
  unfolding unpack_change dict_set
  hash_changes [] d = pure d
  hash_changes (item ∷ items) d =
      let (path, content, mode) = unpack_change item in
      cli.hash_object content >>= λ blob_sha.
      hash_changes items (dict_set path (show_octal mode, blob_sha) d)

  -- `sort_files` sorts the files by path.
  unfoldable pub build_tree : List Str → List FileChange → List Str → Exec G Str
  unfolding existing_files pop_all hash_changes mktree_input
  build_tree parent_shas changes deletes = do
    existing ← λ g. (existing_files parent_shas g, g)
    files ← hash_changes changes (pop_all deletes existing)
    cli.mktree (mktree_input (sort_files files))

  abbrev on_repo : {A : Type 0} → Exec G A → Exec (GitCliOperator G) A
  on_repo m op = let (r, g) = m op.repo in (r, record op { repo = g })

  -- The result of `git update-ref` is not looked at.
  abbrev ignoring : Exec G (Unit {0}) → Exec G (Unit {0})
  ignoring m g = (ok tt, (m g).1)

  abbrev ref_of : Str → Str
  ref_of branch = codes "refs/heads/" ++ branch

  unfoldable pub do_commit :
      Str → List Str → CommitMetadata → List FileChange → List Str → Exec (GitCliOperator G) Str
  unfolding build_tree
  do_commit branch parent_shas m changes deletes = do
    tree_sha ← on_repo (build_tree parent_shas changes deletes)
    commit_sha ← on_repo (cli.commit_tree tree_sha parent_shas m (format_message m))
    on_repo (ignoring (cli.update_ref (ref_of branch) commit_sha))
    modify (λ op. record op { commit_count = op.commit_count + 1 })
    pure commit_sha

  -- A parent that is empty is none.
  abbrev parents_of : Option Str → List Str
  parents_of none = []
  parents_of (some []) = []
  parents_of (some (c ∷ sha)) = (c ∷ sha) ∷ []

  unfoldable pub create_commit :
      Str → Option Str → CommitMetadata → List FileChange → List Str → Exec (GitCliOperator G) Str
  unfolding do_commit
  create_commit branch parent_sha m changes deletes =
      do_commit branch (parents_of parent_sha) m changes deletes

  unfoldable pub create_merge_commit :
      Str → List Str → CommitMetadata → List FileChange → List Str → Exec (GitCliOperator G) Str
  unfolding do_commit
  create_merge_commit branch parent_shas m changes deletes =
      do_commit branch parent_shas m changes deletes

  abbrev unless_exists : Option Str → Exec G (Unit {0}) → Exec G (Unit {0})
  unless_exists (some sha) m = pure tt
  unless_exists none m = m

  unfoldable pub create_branch : Str → Str → Exec (GitCliOperator G) (Unit {0})
  create_branch branch start_sha op =
      on_repo
        (unless_exists (cli.rev_parse (ref_of branch) op.repo)
          (cli.update_ref (ref_of branch) start_sha))
        op

  unfoldable pub get_head_sha : Str → GitCliOperator G → Option Str
  get_head_sha branch op = cli.rev_parse (ref_of branch) op.repo

  -- `gc_interval` is not 0
  unfoldable pub maybe_run_gc : ℕ → GitCliOperator G → GitCliOperator G
  maybe_run_gc gc_interval op =
      if ltb 0 op.commit_count && (op.commit_count % gc_interval == 0)
      then record op { repo = cli.gc_auto op.repo }
      else op
