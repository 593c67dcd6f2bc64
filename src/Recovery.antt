-- ===== src/Recovery.antt =====
-- services/recovery.py: the state database rebuilt from the Git log, a range of changelists built
-- again, and the repository cloned again. `git log` and `git clone` are parameters, by what they
-- print and whether they succeed.
pub mod Laws
pub mod Log
use p4sync_git.Prelude.{
  ℕ, zero, suc, ◌-◌, ◌+◌, Bool, true, false, ◌&&◌, ◌||◌, not, Option, none, some, List, [], ◌∷◌,
  ◌++◌, leb, ◌==◌, if◌then◌else◌, length, drop, keep,
}
use p4sync_git.Text.{Str, codes, starts_with, split_from, before_char, after_char, is_space}
use p4sync_git.Text.Strip.{skip_spaces, strip_spaces}
use p4sync_git.Exec.{Result, ok, err, Exec, ◌>>=◌, ◌>>◌, pure, raise, lift, gets}
use p4sync_git.Git.Trailers.{parse_p4cl_from_message, newline}
use p4sync_git.State.Schema.{StreamMapping, p4_to_git}
use p4sync_git.State.Connection.{StateStore, transaction}
use p4sync_git.State.SyncState.{set_last_synced_cl}
use p4sync_git.State.CommitMap.{record_commit}
use p4sync_git.State.Streams.{get_stream_mapping}
use p4sync_git.Sync.World.{P4Client, SyncConfig, World}
use p4sync_git.Sync.Changelist.{Build}
use p4sync_git.Sync.Replay.{sync_each}

-- `_INTEGRATION_PATTERN`: `Integration:\s*(//\S+)\s*->\s*(//\S+)`, and whether it is found. The
-- first `\S+` gives back characters until an arrow follows it.
abbrev has_name : Str → Bool
has_name [] = false
has_name (c ∷ s) = not (is_space c)

unfoldable pub target_at : Str → Bool
unfolding starts_with
target_at s = starts_with s (codes "//") && has_name (drop 2 s)

unfoldable pub arrow_at : Str → Bool
unfolding skip_spaces target_at
arrow_at s =
    starts_with (skip_spaces s) (codes "->") && target_at (skip_spaces (drop 2 (skip_spaces s)))

unfoldable pub source_at : Str → Bool
unfolding arrow_at
source_at [] = false
source_at (c ∷ s) = not (is_space c) && (arrow_at s || source_at s)

unfoldable pub integration_at : Str → Bool
unfolding source_at skip_spaces
integration_at s =
    starts_with s (codes "Integration:")
    && (starts_with (skip_spaces (drop 12 s)) (codes "//")
        && source_at (drop 2 (skip_spaces (drop 12 s))))

unfoldable pub has_integration : Str → Bool
unfolding integration_at
has_integration [] = false
has_integration (c ∷ s) = integration_at (c ∷ s) || has_integration s

-- a commit of the log that has a changelist: its number, its sha and whether it is an integration
abbrev pub LogEntry : Type 0
LogEntry = ℕ × Str × Bool

abbrev pub entry_of : Str → Str → Option ℕ → Option LogEntry
entry_of sha body none = none
entry_of sha body (some cl) = some (cl, sha, has_integration body)

-- an entry whose first line ends is the sha and the message; any other one is passed over
unfoldable pub has_newline : Str → Bool
has_newline [] = false
has_newline (c ∷ s) = if c == newline then true else has_newline s

unfoldable pub parse_entry : Str → Option LogEntry
unfolding strip_spaces parse_p4cl_from_message has_newline
parse_entry text =
    let entry = strip_spaces text in
    if has_newline entry
    then entry_of (strip_spaces (before_char newline entry)) (after_char newline entry)
        (parse_p4cl_from_message (after_char newline entry))
    else none

abbrev cons_entry : Option LogEntry → List LogEntry → List LogEntry
cons_entry none es = es
cons_entry (some e) es = e ∷ es

unfoldable pub parse_entries : List Str → List LogEntry
unfolding parse_entry
parse_entries [] = []
parse_entries (text ∷ texts) = cons_entry (parse_entry text) (parse_entries texts)

unfoldable pub parse_log : Str → List LogEntry
unfolding parse_entries split_from
parse_log log = parse_entries (split_from (codes "---END---\n") zero log)

unfoldable pub recover_entry : ℕ → Str → Str → LogEntry → StateStore → StateStore
recover_entry now stream branch (cl, sha, integration) s =
    set_last_synced_cl stream cl sha
      (record_commit now cl sha stream branch integration p4_to_git s)

unfoldable pub recover : ℕ → Str → Str → List LogEntry → StateStore → StateStore
unfolding recover_entry
recover now stream branch [] s = s
recover now stream branch (e ∷ es) s =
    recover now stream branch es (recover_entry now stream branch e s)

-- `log` is what `git log` prints, or its error.
unfoldable pub rebuild_state_from_git : ℕ → Str → Str → Result Str → Exec StateStore ℕ
unfolding parse_log recover
rebuild_state_from_git now stream branch log = lift log >>= λ out.
    transaction (λ s. (ok (length (parse_log out)), recover now stream branch (parse_log out) s))

abbrev pub mapped_branch : Str → Option StreamMapping → Str
mapped_branch branch none = branch
mapped_branch branch (some m) = m.branch

abbrev pub within : ℕ → ℕ → List ℕ → List ℕ
within from_cl to_cl = keep (λ cl. leb from_cl cl && leb cl to_cl)

abbrev pub selected : ℕ → ℕ → Result (List ℕ) → Result (List ℕ)
selected from_cl to_cl (ok changes) = ok (within from_cl to_cl changes)
selected from_cl to_cl (err e) = err e

-- Changelists are numbered from 1 on.
module _ {G : Type 0} (p4 : P4Client) (build : Build G) (now : ℕ) (cfg : SyncConfig) where
  unfoldable pub resync_targets : ℕ → ℕ → Str → Result (List ℕ)
  resync_targets from_cl to_cl stream =
      selected from_cl to_cl (p4.get_changes_after stream (from_cl - 1))

  unfoldable pub resync_range : ℕ → ℕ → Str → Exec (World G) ℕ
  unfolding resync_targets sync_each
  resync_range from_cl to_cl stream = do
    branch ← gets (λ w. mapped_branch cfg.default_branch (get_stream_mapping stream w.store))
    targets ← lift (resync_targets from_cl to_cl stream)
    sync_each p4 build now stream branch (λ w. w.last_has_integration) targets
    pure (length targets)

-- the directories of the repository and of its backup, if they are there
pub record Clones (D : Type 0) : Type 0 where
  pub repo : Option D
  pub backup : Option D

abbrev set_aside : {D : Type 0} → Clones D → Clones D
set_aside {D} c = elim c.repo [ none ↦ c | some d ↦ record { repo = none; backup = some d } ]

abbrev restored : {D : Type 0} → Clones D → Clones D
restored {D} c = elim c.backup [ none ↦ c | some d ↦ record { repo = some d; backup = none } ]

-- A clone that fails leaves no directory.
unfoldable pub reinit_git : {D : Type 0} → Result D → Exec (Clones D) (Unit {0})
reinit_git (ok d) c = (ok tt, record (set_aside c) { repo = some d })
reinit_git (err e) c = (err (codes "git clone 실패: " ++ e), restored (set_aside c))
