-- ===== src/Tests/Import.antt =====
-- An import of two changelists.
use p4sync_git.Prelude.{ℕ, ◌+◌, ◌≡◌, ◌≢◌, refl, ◌⊎◌, false, none, some, [], ◌∷◌, ◌++◌, map, arith}
use p4sync_git.Text.{Str, str_eq, codes}
use p4sync_git.Sql.{fetch_one}
use p4sync_git.Exec.{ok}
use p4sync_git.Git.FileMode.{FileChange}
use p4sync_git.State.SyncState.{get_last_synced_cl, sync_row}
use p4sync_git.Import.Stream.{FastImporter, Exit, exited, write_files}
use p4sync_git.Import.Stream.Laws.{whole, read_of, read_files, read_files-write_files}
use p4sync_git.Import.Initial.{ClData}
use p4sync_git.Import.Run.{
  Import, ImportConfig, checkpoint_if_due, finish_importer, conclude, remaining, run,
}
use p4sync_git.Import.Run.Laws.{failed_checkpoint-recorded}
use p4sync_git.Import.Run.Success.{run_completes}
use p4sync_git.Import.Run.Positions.{Among, run-Among}
use p4sync_git.Tests.Data.{main, one_commit, contents, change}

abbrev item : FileChange
item = record { path = codes "a.txt"; content = codes "D b\ndata 9\n"; mode = none }

abbrev importer : FastImporter
importer = record { proc = some (codes "x"); mark = 3 }

read_files-write_files_example :
    (text : Str) × (write_files whole (item ∷ []) importer
      ≡ (ok tt, record importer { proc = some (codes "x" ++ text) }))
    × (read_files 1 (text ++ codes "\n") ≡ some (map read_of (item ∷ []), codes "\n"))
read_files-write_files_example =
    read_files-write_files (item ∷ []) (codes "x") (codes "\n") importer refl
      ((refl, (refl, (refl, (refl, (refl, tt))))), tt)

abbrev extracted : ℕ → ClData
extracted cl = record {
  cl = cl;
  info = change cl;
  normal_results = item ∷ [];
  lfs_results = [];
  deletes = [];
  skipped = false;
  streaming = false;
  normal_files = [];
  lfs_files = [];
}

abbrev config : ImportConfig
config = record {
  stream = main;
  branch = codes "main";
  checkpoint_interval = 2;
  domain = codes "company.com";
}

-- a process that fails
abbrev fails : Str → ℕ → Exit × ℕ
fails out g = (exited 1, g + 1)

abbrev head : Str → ℕ → Str
head branch g = codes "c0"

abbrev importing : Import ℕ
importing = record { store = one_commit; git = 0; importer = importer; last_written_cl = 9 }

failed_checkpoint-recorded_example :
    let (more, t) = checkpoint_if_due whole fails head contents none config 60 2 importing in
    let (r, u) =
      conclude whole fails head contents none config 60
        (ok tt)
        (finish_importer whole fails head contents none config 60 t) in
    (more ≡ false) × (r ≡ ok tt) × (get_last_synced_cl main u.store ≡ 9)
failed_checkpoint-recorded_example =
    failed_checkpoint-recorded whole fails head contents none config 60 2 importing (codes "x") 0 1
      refl refl refl (omega arith) (λ e. cc)

run-Among_example :
    let u =
      (run whole
        (λ out g. (exited 0, g + 1))
        head
        contents
        none
        config
        60
        (8 ∷ 9 ∷ [])
        (extracted 8 ∷ extracted 9 ∷ [])
        one_commit
        0).1 in
    (get_last_synced_cl main u.store ≡ get_last_synced_cl main one_commit)
    ⊎ Among (extracted 8 ∷ extracted 9 ∷ []) (get_last_synced_cl main u.store)
run-Among_example =
    run-Among whole (λ out g. (exited 0, g + 1)) head contents none config 60 (8 ∷ 9 ∷ [])
      (extracted 8 ∷ extracted 9 ∷ []) one_commit 0

at_seven : get_last_synced_cl main one_commit ≡ 7
unfolding get_last_synced_cl sync_row fetch_one str_eq
at_seven = refl

some_left : remaining (get_last_synced_cl main one_commit) (8 ∷ 9 ∷ []) ≢ []
unfolding remaining
some_left = rw at_seven (λ e. cc)

run_completes_example :
    let (r, u) =
      run whole
        (λ out g. (exited 0, g + 1))
        head
        contents
        none
        config
        60
        (8 ∷ 9 ∷ [])
        (extracted 8 ∷ extracted 9 ∷ [])
        one_commit
        0 in
    (r ≡ ok tt) × (get_last_synced_cl main u.store ≡ 9)
run_completes_example =
    run_completes (λ out g. (exited 0, g + 1)) head contents none config 60 (λ out g. refl)
      (8 ∷ 9 ∷ []) (extracted 8 ∷ extracted 9 ∷ []) one_commit 0 (omega arith) (λ g e. cc) some_left
      (refl, (refl, tt)) (omega arith)
