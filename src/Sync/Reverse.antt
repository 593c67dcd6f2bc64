-- ===== src/Sync/Reverse.antt =====
-- From Git to P4: git/git_change_detector.py, services/conflict_detector.py, the loop of
-- `_poll_reverse_sync` in services/sync_orchestrator.py and `sync_commit` of
-- services/reverse_commit_builder.py. What Git reports of a commit and what P4 submits are parameters.
pub mod Laws
use p4sync_git.Prelude.{
  ℕ, ◌+◌, Bool, true, false, not, Option, none, some, List, [], ◌∷◌, ◌++◌, map, if◌then◌else◌,
  is_some, ltb, ◌==◌,
}
use p4sync_git.Sql.Sort.{sort_by}
use p4sync_git.Text.{Str, codes, str_eq, contains, starts_with}
use p4sync_git.Exec.{Result, ok, err, Exec, ◌>>=◌, ◌>>◌, pure, raise, lift, gets, modify}
use p4sync_git.Git.Trailers.{parse_p4cl_from_message, parse_git_commit_from_description, newline}
use p4sync_git.Paths.{normalize_path}
use p4sync_git.Perforce.Change.{P4FileAction, P4ChangeInfo}
use p4sync_git.State.Schema.{git_to_p4}
use p4sync_git.State.Connection.{StateStore}
use p4sync_git.State.SyncState.{get_last_reverse_sync_sha, set_last_reverse_sync_sha}
use p4sync_git.State.CommitMap.{get_commit_sha_by_sha, record_commit}
use p4sync_git.State.Users.{get_p4_user}

pub record GitCommit : Type 0 where
  pub sha : Str
  pub message : Str
  pub author_name : Str
  pub author_email : Str

-- a commit that neither came from P4 nor is in the commit map
unfoldable pub is_new_commit : StateStore → GitCommit → Bool
is_new_commit s c =
    if is_some (parse_p4cl_from_message c.message)
    then false
    else not (is_some (get_commit_sha_by_sha c.sha s))

unfoldable pub keep_new : StateStore → List GitCommit → List GitCommit
unfolding is_new_commit
keep_new s [] = []
keep_new s (c ∷ cs) = let rest = keep_new s cs in if is_new_commit s c then c ∷ rest else rest

-- `get_log_after branch last_sha`
unfoldable pub detect_new_commits :
    (Str → Option Str → List GitCommit) → Str → StateStore → List GitCommit
unfolding keep_new
detect_new_commits log_after branch s =
    keep_new s (log_after branch (get_last_reverse_sync_sha branch s))

pub record ConflictInfo : Type 0 where
  pub branch : Str
  pub conflict_files : List Str
  pub p4_changelists : List ℕ
  pub git_commits : List Str

-- the files that P4 changed, and those that Git changed, without the order that a set lacks
unfoldable pub p4_files : List (ℕ × List Str) → List Str
unfolding normalize_path
p4_files [] = []
p4_files ((cl, files) ∷ changes) = map normalize_path files ++ p4_files changes

unfoldable pub git_files : (Str → List Str × List Str) → List GitCommit → List Str
unfolding normalize_path
git_files commit_files [] = []
git_files commit_files (c ∷ cs) =
    let (changed, deleted) = commit_files c.sha in
    map normalize_path changed ++ (map normalize_path deleted ++ git_files commit_files cs)

-- the intersection, each file once
unfoldable pub common_files : List Str → List Str → List Str
common_files [] git = []
common_files (f ∷ fs) git =
    let rest = common_files fs git in
    if contains git f then (if contains rest f then rest else f ∷ rest) else rest

-- the order of Python's `sorted`
unfoldable pub str_leb : Str → Str → Bool
str_leb [] t = true
str_leb (c ∷ s) [] = false
str_leb (c ∷ s) (d ∷ t) = if c == d then str_leb s t else ltb c d

abbrev pub conflict_of : Str → List (ℕ × List Str) → List GitCommit → List Str → Option ConflictInfo
conflict_of branch changes commits [] = none
conflict_of branch changes commits (f ∷ fs) = some (record {
  branch = branch;
  conflict_files = f ∷ fs;
  p4_changelists = map (λ (c : ℕ × List Str). c.0) changes;
  git_commits = map (λ (c : GitCommit). c.sha) commits;
})

unfoldable pub detect :
    (Str → List Str × List Str) → Str → List (ℕ × List Str) → List GitCommit → Option ConflictInfo
unfolding p4_files git_files common_files str_leb
detect commit_files branch [] commits = none
detect commit_files branch (p ∷ ps) [] = none
detect commit_files branch (p ∷ ps) (c ∷ cs) =
    conflict_of branch (p ∷ ps) (c ∷ cs)
      (sort_by str_leb (common_files (p4_files (p ∷ ps)) (git_files commit_files (c ∷ cs))))

unfoldable pub build_description : GitCommit → Str
build_description c = c.message ++ (newline ∷ newline ∷ codes "GitCommit: " ++ c.sha)

-- `submit` makes the changelist out of a description, the sha and the user: it returns its number.
module _ (submit : Str → Str → Option Str → Result ℕ) where
  unfoldable pub sync_commit : ℕ → Str → GitCommit → Str → Exec StateStore ℕ
  unfolding build_description
  sync_commit now stream c branch = do
    p4_user ← gets (get_p4_user c.author_email)
    submitted_cl ← lift (submit (build_description c) c.sha p4_user)
    modify (record_commit now submitted_cl c.sha stream branch false git_to_p4)
    pure submitted_cl

  abbrev pub after_commit :
      Str → GitCommit → Result ℕ → (StateStore → ℕ × StateStore) → StateStore → ℕ × StateStore
  after_commit branch c (ok cl) rest s =
      let (n, s') = rest (set_last_reverse_sync_sha branch c.sha s) in (n + 1, s')
  after_commit branch c (err e) rest s = (0, s)

  -- the loop over the new commits, up to the first that fails, and how many were submitted
  unfoldable pub reverse_sync : ℕ → Str → Str → List GitCommit → StateStore → ℕ × StateStore
  unfolding sync_commit
  reverse_sync now stream branch [] s = (0, s)
  reverse_sync now stream branch (c ∷ cs) s =
      let (r, s') = sync_commit now stream c branch s in
      after_commit branch c r (reverse_sync now stream branch cs) s'
