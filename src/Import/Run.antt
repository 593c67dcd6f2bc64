-- ===== src/Import/Run.antt =====
-- `run` of services/initial_importer.py. What the extraction put into its queue is a list: the
-- extracted changelists in their order, up to where it stopped. `run_git` is what `git fast-import`
-- does; repacking, waiting for the server,
-- `git gc` and emptying the temporary directory of LFS change neither the store nor a branch.
pub mod Laws
pub mod Positions
pub mod Success
use p4sync_git.Prelude.{
  ℕ, suc, ◌+◌, ◌%◌, Bool, true, false, not, ◌&&◌, ◌||◌, Option, none, some, List, [], ◌∷◌, ltb,
  ◌==◌, if◌then◌else◌, is_empty, keep,
}
use p4sync_git.Text.{Str, codes, starts_with}
use p4sync_git.Exec.{Result, ok, err}
use p4sync_git.State.Schema.{p4_to_git}
use p4sync_git.State.Connection.{StateStore}
use p4sync_git.State.SyncState.{get_last_synced_cl, set_last_synced_cl}
use p4sync_git.State.CommitMap.{record_commit}
use p4sync_git.State.Users.{get_git_author}
use p4sync_git.Sync.Builder.{Contents, LfsSetup}
use p4sync_git.Import.Stream.{FastImporter, fast_importer, Exit, start, finish}
use p4sync_git.Import.Initial.{ClData, write_cl}

-- what `run` works on: the store, the repository, the importer, and its local `last_written_cl`
pub record Import (G : Type 0) : Type 0 where
  pub store : StateStore
  pub git : G
  pub importer : FastImporter
  pub last_written_cl : ℕ

pub record ImportConfig : Type 0 where
  pub stream : Str
  pub branch : Str
  pub checkpoint_interval : ℕ
  pub domain : Str

-- `all_changes`: what is not imported yet
unfoldable pub remaining : ℕ → List ℕ → List ℕ
remaining last_cl all = if ltb 0 last_cl then keep (λ c. ltb last_cl c) all else all

-- the classes that the loop catches
unfoldable pub is_caught : Str → Bool
unfolding starts_with
is_caught e = starts_with e (codes "OSError") || starts_with e (codes "ContentExtractionError")

module _ {G : Type 0} (broken : Str → Bool) (run_git : Str → G → Exit × G)
    (head_sha : Str → G → Str) (p4 : Contents) (lfs : Option LfsSetup) (cfg : ImportConfig)
    (now : ℕ) where
  unfoldable pub finish_importer : Import G → ℕ × Import G
  unfolding finish
  finish_importer s =
      let (rc, f, g) = finish run_git s.importer s.git in (rc, record s { importer = f; git = g })

  -- `set_last_synced_cl` and `record_commit` with the head of the branch
  unfoldable pub record_head : Import G → Import G
  record_head s =
      let sha = head_sha cfg.branch s.git in
      record s {
        store =
            record_commit now s.last_written_cl sha cfg.stream cfg.branch false p4_to_git
              (set_last_synced_cl cfg.stream s.last_written_cl sha s.store);
      }

  -- whether the loop goes on, with a new process
  abbrev after_finish : ℕ × Import G → Bool × Import G
  after_finish (rc, s) =
      if rc == 0
      then (true, record (record_head s) { importer = start fast_importer })
      else (false, s)

  -- for an interval of 1 or more
  unfoldable pub checkpoint_if_due : ℕ → Import G → Bool × Import G
  unfolding finish_importer record_head start
  checkpoint_if_due next_i s =
      if (next_i % cfg.checkpoint_interval == 0) && ltb 0 s.last_written_cl
      then after_finish (finish_importer s)
      else (true, s)

  abbrev go_on :
      Bool × Import G → (Import G → Result (Unit {0}) × Import G) → Result (Unit {0}) × Import G
  go_on (true, s) rest = rest s
  go_on (false, s) rest = (ok tt, s)

  -- A failure that is caught ends the loop. The test for a checkpoint divides by the interval.
  abbrev after_write :
      ℕ
      → ClData
      → Result (Unit {0})
      → (Import G → Result (Unit {0}) × Import G)
      → Import G
      → Result (Unit {0}) × Import G
  after_write next_i d (ok u) rest s =
      let t = record s { last_written_cl = d.cl } in
      if cfg.checkpoint_interval == 0
      then (err (codes "ZeroDivisionError"), t)
      else go_on (checkpoint_if_due next_i t) rest
  after_write next_i d (err e) rest s = (if is_caught e then ok tt else err e, s)

  unfoldable pub write_data : ℕ → ClData → Import G → Result (Unit {0}) × Import G
  unfolding write_cl get_git_author
  write_data index d s =
      let (author, store) = get_git_author now d.info.user cfg.domain s.store in
      let (r, f) = write_cl broken p4 lfs cfg.branch index d author s.importer in
      (r, record s { store = store; importer = f })

  unfoldable pub import_each : ℕ → List ClData → Import G → Result (Unit {0}) × Import G
  unfolding write_data checkpoint_if_due is_caught
  import_each i [] s = (ok tt, s)
  import_each i (d ∷ ds) s =
      if d.skipped
      then import_each (i + 1) ds s
      else (let (r, t) = write_data i d s in after_write (i + 1) d r (import_each (i + 1) ds) t)

  unfoldable pub post_import : Import G → Import G
  unfolding record_head
  post_import s = if is_empty (head_sha cfg.branch s.git) then s else record_head s

  -- the `finally` block and what follows it, which an exception that was not caught passes over
  abbrev pub conclude : Result (Unit {0}) → ℕ × Import G → Result (Unit {0}) × Import G
  conclude (err e) (rc, s) = (err e, s)
  conclude (ok u) (rc, s) =
      (ok tt, if ltb 0 s.last_written_cl && (rc == 0) then post_import s else s)

  -- what `run` starts with, for a process that the caller starts
  abbrev begin : FastImporter → StateStore → G → Import G
  begin f store g = record { store = store; git = g; importer = f; last_written_cl = 0 }

  -- `all` is what the server lists, `ds` what was extracted of what remains of it
  unfoldable pub run : List ℕ → List ClData → StateStore → G → Result (Unit {0}) × Import G
  unfolding import_each finish_importer post_import start remaining get_last_synced_cl
  run all ds store g =
      let (r, s) = import_each 0 ds (begin (start fast_importer) store g) in
      if is_empty (remaining (get_last_synced_cl cfg.stream store) all)
      then (ok tt, begin fast_importer store g)
      else conclude r (finish_importer s)
