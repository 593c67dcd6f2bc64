-- ===== src/Sync/Rounds.antt =====
-- The bidirectional rounds of services/sync_orchestrator.py. Alerts are left out. `remote` is what Git
-- does with the remote repository, and `submit` the submission of a changelist.
pub mod Laws
use p4sync_git.Prelude.{
  ℕ, Bool, true, false, not, ◌||◌, Option, none, some, List, [], ◌∷◌, is_some, is_empty,
  if◌then◌else◌,
}
use p4sync_git.Text.{Str, codes, str_eq, contains}
use p4sync_git.Exec.{Result, ok, err, Exec, ◌>>=◌, ◌>>◌, pure, lift, gets, modify, try_except}
use p4sync_git.State.Schema.{ConflictRow}
use p4sync_git.State.Conflicts.{get_conflict, resolve_conflict}
use p4sync_git.Sync.World.{GitOperator, P4Client, SyncConfig, World, on_git, on_store}
use p4sync_git.Sync.Builder.{Contents}
use p4sync_git.Sync.Changelist.{Build}
use p4sync_git.Sync.Poll.{poll_and_sync}
use p4sync_git.Sync.Conflict.{collect_p4_changes_with_files, handle_conflict}
use p4sync_git.Sync.Reverse.{GitCommit, ConflictInfo, detect_new_commits, detect, reverse_sync}

-- `fetch`, `get_log_after`, `get_commit_files` and `list_remote_branches` of the Git operator
pub record RemoteGit (G : Type 0) : Type 0 where
  pub fetch : Exec G (Unit {0})
  pub get_log_after : G → Str → Option Str → List GitCommit
  pub get_commit_files : G → Str → List Str × List Str
  pub list_remote_branches : G → Str → List Str

-- `StreamPolicy.get_direction`, over the pairs of a stream and its direction
unfoldable pub get_direction : List (Str × Str) → Str → Str
unfolding str_eq
get_direction [] stream = codes "p4_to_git"
get_direction ((s, direction) ∷ sds) stream =
    if str_eq s stream then direction else get_direction sds stream

abbrev pub Submit : Type 0
Submit = Str → Str → Option Str → Result ℕ

-- what the rounds read of the configuration, and whether the components of the reverse direction
-- were made
pub record RoundConfig : Type 0 where
  pub sync : SyncConfig
  pub sync_directions : List (Str × Str)
  pub has_remote_url : Bool
  pub has_detectors : Bool

module _ {G : Type 0} (git : GitOperator G) (remote : RemoteGit G) (p4 : P4Client)
    (contents : Contents) (build : Build G) (submit : Submit) (cfg : RoundConfig) (now : ℕ) where
  abbrev pub is_resolved : Str → World G → Bool
  is_resolved conflict_branch w =
      not (contains (remote.list_remote_branches w.git conflict_branch) conflict_branch)

  unfoldable pub check_conflict_resolved : Str → ConflictRow → Exec (World G) (Unit {0})
  unfolding contains resolve_conflict
  check_conflict_resolved branch c =
      try_except
        (on_git remote.fetch
          >> modify (λ w.
            if is_resolved c.conflict_branch w then on_store (resolve_conflict branch) w else w))
        (λ e. pure tt)

  abbrev new_commits : Str → World G → List GitCommit
  new_commits branch w = detect_new_commits (remote.get_log_after w.git) branch w.store

  -- both sides compared: whether they conflict, and the branch of the conflict
  abbrev settle_conflict : Option ConflictInfo → Exec (World G) Bool
  settle_conflict none = pure false
  settle_conflict (some c) = handle_conflict git p4 contents now c >> pure true

  abbrev against_p4 : Str → Str → List GitCommit → Exec (World G) Bool
  against_p4 stream branch [] = pure false
  against_p4 stream branch (c ∷ cs) = do
    p4_changes ← λ w.
        lift (collect_p4_changes_with_files p4 contents cfg.sync stream w.poll_stream w.store) w
    found ← gets (λ w. detect (remote.get_commit_files w.git) branch p4_changes (c ∷ cs))
    settle_conflict found

  abbrev fetched : Exec (World G) Bool
  fetched = try_except (on_git remote.fetch >> pure true) (λ e. pure false)

  abbrev in_conflict : Str → Str → Option ConflictRow → Exec (World G) Bool
  in_conflict stream branch (some c) = check_conflict_resolved branch c >> pure true
  in_conflict stream branch none = do
    reached ← fetched
    commits ← gets (new_commits branch)
    if reached then against_p4 stream branch commits else pure false

  -- whether the round is to stop
  unfoldable pub check_and_handle_conflicts : Str → Str → Exec (World G) Bool
  unfolding check_conflict_resolved
  check_and_handle_conflicts stream branch w =
      if cfg.has_detectors
      then if cfg.has_remote_url
        then in_conflict stream branch (get_conflict branch w.store) w
        else (ok false, w)
      else (ok false, w)

  abbrev submit_all : Str → Str → List GitCommit → Exec (World G) (Unit {0})
  submit_all stream branch commits =
      modify (on_store (λ s. (reverse_sync submit now stream branch commits s).1))

  abbrev unless_conflict : Str → Str → List GitCommit → Exec (World G) (Unit {0})
  unless_conflict stream branch [] = pure tt
  unless_conflict stream branch (c ∷ cs) = do
    conflicts ←
        if str_eq (get_direction cfg.sync_directions stream) (codes "bidirectional")
        then against_p4 stream branch (c ∷ cs)
        else pure false
    if conflicts then pure tt else submit_all stream branch (c ∷ cs)

  abbrev reverse_round : Str → Str → Option ConflictRow → Exec (World G) (Unit {0})
  reverse_round stream branch (some c) = check_conflict_resolved branch c
  reverse_round stream branch none = do
    reached ← if cfg.has_remote_url then fetched else pure true
    commits ← gets (new_commits branch)
    if reached then unless_conflict stream branch commits else pure tt

  abbrev pub is_reverse : Str → Bool
  is_reverse direction =
      str_eq direction (codes "bidirectional") || str_eq direction (codes "git_to_p4")

  unfoldable pub poll_reverse_sync : Str → Str → Exec (World G) (Unit {0})
  unfolding check_conflict_resolved get_direction
  poll_reverse_sync stream branch w =
      if cfg.has_detectors
      then if is_reverse (get_direction cfg.sync_directions stream)
        then reverse_round stream branch (get_conflict branch w.store) w
        else (ok tt, w)
      else (ok tt, w)

  abbrev both_ways : Str → Str → Exec (World G) (Unit {0})
  both_ways stream branch = do
    conflicts ← check_and_handle_conflicts stream branch
    if conflicts
        then pure tt
        else (poll_and_sync git p4 build cfg.sync now >> poll_reverse_sync stream branch)

  abbrev directed : Str → Str → Str → Exec (World G) (Unit {0})
  directed stream branch direction =
      if str_eq direction (codes "bidirectional")
      then both_ways stream branch
      else if str_eq direction (codes "git_to_p4")
      then poll_reverse_sync stream branch
      else poll_and_sync git p4 build cfg.sync now

  -- the body of the loop of `_start_single_stream` behind the maintenance; no exception leaves it
  unfoldable pub single_round : Exec (World G) (Unit {0})
  unfolding check_and_handle_conflicts poll_reverse_sync
  single_round =
      try_except
        (directed cfg.sync.stream cfg.sync.default_branch
          (get_direction cfg.sync_directions cfg.sync.stream))
        (λ e. pure tt)
