-- ===== src/Sync/Conflict.antt =====
-- The branch of a conflict in services/conflict_detector.py, and what `_handle_conflict` and
-- `_collect_p4_changes_with_files` of services/sync_orchestrator.py make of P4. Alerts are left out.
use p4sync_git.Prelude.{
  ℕ, ◌&&◌, Option, none, some, List, [], ◌∷◌, ◌++◌, map, is_some, is_empty, any, ◌==◌,
  if◌then◌else◌,
}
use p4sync_git.Text.{Str, codes, contains, split_from, join, after_char}
use p4sync_git.Text.Decimal.{show_nat}
use p4sync_git.Exec.{
  Result, ok, err, Exec, ◌>>=◌, ◌>>◌, pure, raise, lift, modify, try_except, and_then,
}
use p4sync_git.Git.Trailers.{CommitMetadata, newline, parse_git_commit_from_description}
use p4sync_git.Git.FileMode.{FileChange}
use p4sync_git.Paths.{slash, last_part}
use p4sync_git.Perforce.Change.{P4FileAction, P4ChangeInfo, delete_actions}
use p4sync_git.State.Schema.{ConflictRow}
use p4sync_git.State.Connection.{StateStore}
use p4sync_git.State.Conflicts.{record_conflict}
use p4sync_git.Sync.World.{GitOperator, P4Client, SyncConfig, World, on_git, on_store}
use p4sync_git.Sync.Builder.{Contents}
use p4sync_git.Sync.Poll.{poll}
use p4sync_git.Sync.Reverse.{ConflictInfo}

-- `path.split("//")[-1].split("/", 1)[-1]`
abbrev after_first_slash : Str → Str
after_first_slash s = if any (λ c. c == slash) s then after_char slash s else s

unfoldable pub conflict_path : Str → Str
unfolding split_from last_part after_char
conflict_path path = after_first_slash (last_part (split_from (codes "//") 0 path))

unfoldable pub conflict_branch_name : Str → ℕ → Str
conflict_branch_name branch cl = codes "conflict/" ++ (branch ++ (codes "/CL" ++ show_nat cl))

unfoldable pub show_cls : List ℕ → List Str
show_cls [] = []
show_cls (cl ∷ cls) = show_nat cl ∷ show_cls cls

abbrev conflict_message : ConflictInfo → Str
conflict_message c =
    (codes "Conflict: P4 CL [" ++ (join (codes ", ") (show_cls c.p4_changelists) ++ codes "]"))
    ++ (codes " vs Git commits\n\nConflicting files:\n"
        ++ join (newline ∷ []) (map (λ f. codes "  - " ++ f) c.conflict_files))

abbrev conflict_metadata : ℕ → ℕ → ConflictInfo → CommitMetadata
conflict_metadata now primary_cl c = record {
  author_name = codes "P4GitSync";
  author_email = codes "p4gitsync@system";
  author_timestamp = now;
  message = conflict_message c;
  p4_changelist = primary_cl;
  integration_info = none;
}

-- the files that a changelist changes and deletes, onto those of the changelists before it
abbrev pub Gathered : Type 0
Gathered = List FileChange × List Str

abbrev add_printed : Str → Option (List ℕ) → Gathered → Gathered
add_printed path none (changes, deletes) = (changes, deletes)
add_printed path (some content) (changes, deletes) =
    (changes ++ ((record { path = path; content = content; mode = none }) ∷ []), deletes)

module _ (p4 : P4Client) (contents : Contents) where
  unfoldable pub gather_file : P4FileAction → Gathered → Result Gathered
  unfolding conflict_path contains
  gather_file fa (changes, deletes) =
      if contains delete_actions fa.action
      then ok (changes, deletes ++ (conflict_path fa.depot_path ∷ []))
      else elim (contents.print_file_to_bytes fa.depot_path fa.revision) [
        | ok content ↦ ok (add_printed (conflict_path fa.depot_path) content (changes, deletes))
        | err e ↦ err e
      ]

  unfoldable pub gather_files : List P4FileAction → Gathered → Result Gathered
  unfolding gather_file
  gather_files [] g = ok g
  gather_files (fa ∷ fas) g = and_then (gather_file fa g) (gather_files fas)

  unfoldable pub gather_changelists : List ℕ → Gathered → Result Gathered
  unfolding gather_files
  gather_changelists [] g = ok g
  gather_changelists (cl ∷ cls) g =
      and_then (p4.describe cl)
        (λ info. and_then (gather_files info.files g) (gather_changelists cls))

  -- `_collect_p4_changes_with_files`: what came from Git is left out
  abbrev with_files : ℕ → P4ChangeInfo → List (ℕ × List Str) → List (ℕ × List Str)
  with_files cl info changes =
      if is_some (parse_git_commit_from_description info.description)
      then changes
      else (cl, map (λ (fa : P4FileAction). fa.depot_path) info.files) ∷ changes

  unfoldable pub describe_each : List ℕ → Result (List (ℕ × List Str))
  describe_each [] = ok []
  describe_each (cl ∷ cls) =
      and_then (p4.describe cl)
        (λ info. and_then (describe_each cls) (λ changes. ok (with_files cl info changes)))

  unfoldable pub collect_p4_changes_with_files :
      SyncConfig → Str → Option Str → StateStore → Result (List (ℕ × List Str))
  unfolding describe_each poll
  collect_p4_changes_with_files cfg stream poll_stream s =
      and_then (poll p4 stream cfg.batch_size poll_stream s) describe_each

abbrev conflict_row : Str → ConflictInfo → ConflictRow
conflict_row conflict_branch c = record {
  branch = c.branch;
  conflict_branch = conflict_branch;
  p4_changelists = c.p4_changelists;
  git_commits = c.git_commits;
  conflict_files = c.conflict_files;
}

module _ {G : Type 0} (git : GitOperator G) (p4 : P4Client) (contents : Contents) (now : ℕ) where
  unfoldable pub commit_gathered :
      Str → Str → ℕ → ConflictInfo → Gathered → Exec (World G) (Unit {0})
  commit_gathered conflict_branch head_sha primary_cl c (changes, deletes) =
      if is_empty changes && is_empty deletes
      then pure tt
      else on_git (
          git.create_commit conflict_branch (some head_sha) (conflict_metadata now primary_cl c)
            changes deletes)
        >> pure tt

  unfoldable pub fill_conflict_branch : ConflictInfo → ℕ → Str → Exec (World G) (Unit {0})
  unfolding conflict_branch_name gather_changelists commit_gathered record_conflict
  fill_conflict_branch c primary_cl head_sha = do
    on_git (git.create_branch (conflict_branch_name c.branch primary_cl) head_sha)
    gathered ← lift (gather_changelists p4 contents c.p4_changelists ([], []))
    commit_gathered (conflict_branch_name c.branch primary_cl) head_sha primary_cl c gathered
    on_git (git.push (conflict_branch_name c.branch primary_cl))
    modify (on_store (record_conflict (conflict_row (conflict_branch_name c.branch primary_cl) c)))

  abbrev from_head : ConflictInfo → ℕ → Option Str → Exec (World G) (Unit {0})
  from_head c primary_cl none = raise (codes "branch '" ++ (c.branch ++ codes "'의 HEAD를 찾을 수 없음"))
  from_head c primary_cl (some head_sha) = fill_conflict_branch c primary_cl head_sha

  abbrev from_changelists : ConflictInfo → List ℕ → Exec (World G) (Unit {0})
  from_changelists c [] w = raise (codes "list index out of range") w
  from_changelists c (cl ∷ cls) w = from_head c cl (git.get_head_sha c.branch w.git) w

  unfoldable pub create_conflict_branch : ConflictInfo → Exec (World G) (Unit {0})
  unfolding fill_conflict_branch
  create_conflict_branch c = from_changelists c c.p4_changelists

  -- A failure is only logged.
  unfoldable pub handle_conflict : ConflictInfo → Exec (World G) (Unit {0})
  unfolding create_conflict_branch
  handle_conflict c = try_except (create_conflict_branch c) (λ e. pure tt)
