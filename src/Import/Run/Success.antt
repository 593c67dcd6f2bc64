-- ===== src/Import/Run/Success.antt =====
-- An import in which nothing fails.
use p4sync_git.Prelude.{
  ℕ, suc, ◌+◌, ◌%◌, ◌<◌, ◌≡◌, ◌≢◌, refl, ◌∙◌, true, false, Bool-cases, Option, none, some, List, [],
  ◌∷◌, ◌++◌, All, arith, ltb, ◌==◌, ◌&&◌, if◌then◌else◌, zero, inl, inr,
}
use p4sync_git.Text.{Str, codes}
use p4sync_git.Exec.{Result, ok, Exec, ◌>>=◌, ◌>>◌}
use p4sync_git.Git.FileMode.{FileChange, git_mode_file, unpack_change}
use p4sync_git.Git.Trailers.{CommitMetadata}
use p4sync_git.State.Connection.{StateStore}
use p4sync_git.State.SyncState.{get_last_synced_cl}
use p4sync_git.State.Users.{Author, get_git_author}
use p4sync_git.Sync.Builder.{Contents, LfsSetup}
use p4sync_git.Import.Stream.{
  FastImporter, Exit, exited, start, finish, fast_importer, write_bytes, begin_commit, write_file,
  write_files, write_deletes, end_commit, write_delete,
}
use p4sync_git.Import.Stream.Laws.{whole}
use p4sync_git.Import.Initial.{ClData, write_cl, optional_config, metadata_of, write_config}
use p4sync_git.Import.Run.Laws.{get_last_synced_cl-record_head, is_empty-ne}
use p4sync_git.Import.Run.{
  Import, ImportConfig, finish_importer, record_head, checkpoint_if_due, after_write, write_data,
  import_each, post_import, run, remaining,
}

abbrev Running : FastImporter → Type 0
Running f = (out : Str) × (f.proc ≡ some out)

-- It returns, with a process that still runs.
abbrev Runs : {A : Type 0} → Exec FastImporter A → Type 0
Runs {A} m = (f : FastImporter) → Running f → ((a : A) × ((m f).0 ≡ ok a)) × Running (m f).1

bind-Runs :
    {A B : Type 0} (m : Exec FastImporter A) (n : A → Exec FastImporter B)
    → Runs m
    → ((a : A) → Runs (n a))
    → Runs (m >>= n)
bind-Runs m n h k f p = let ((a, e), q) = h f p in rw e (k a (m f).1 q)

write_bytes-Runs : (bytes : Str) → Runs (write_bytes whole bytes)
unfolding write_bytes
write_bytes-Runs bytes f (out, e) = rw e ((tt, refl), (out ++ bytes, refl))

write_file-Runs : (path : Str) (c : List ℕ) (mode : ℕ) → Runs (write_file whole path c mode)
unfolding write_file write_bytes
write_file-Runs path c mode f (out, e) = rw e ((tt, refl), (_, refl))

write_files-Runs : (items : List FileChange) → Runs (write_files whole items)
unfolding write_files
write_files-Runs [] f p = ((tt, refl), p)
write_files-Runs (item ∷ items) f p =
    let (path, c, mode) = unpack_change item in
    bind-Runs (write_file whole path c mode) (λ u. write_files whole items)
      (write_file-Runs path c mode) (λ u. write_files-Runs items) f p

write_deletes-Runs : (paths : List Str) → Runs (write_deletes whole paths)
unfolding write_deletes write_delete
write_deletes-Runs [] f p = ((tt, refl), p)
write_deletes-Runs (path ∷ paths) f p =
    bind-Runs (write_delete whole path) (λ u. write_deletes whole paths)
      (λ f p. write_bytes-Runs _ f p) (λ u. write_deletes-Runs paths) f p

begin_commit-Runs : (branch : Str) (m : CommitMetadata) → Runs (begin_commit whole branch m)
unfolding begin_commit write_bytes
begin_commit-Runs branch m f (out, e) = rw e ((f.mark + 1, refl), (_, refl))

module _ (p4 : Contents) where
  optional_config-Runs : (c : Option (List ℕ)) → Runs (optional_config whole p4 c)
  optional_config-Runs none f p = ((tt, refl), p)
  optional_config-Runs (some c) f p = write_file-Runs (codes ".lfsconfig") c git_mode_file f p

  write_config-Runs : (i : ℕ) (lfs : Option LfsSetup) → Runs (write_config whole p4 i lfs)
  unfolding write_config
  write_config-Runs (suc i) lfs f p = ((tt, refl), p)
  write_config-Runs zero none f p = ((tt, refl), p)
  write_config-Runs zero (some l) f p = elim (Bool-cases l.config.enabled) [
    | inr e ↦ rw e ((tt, refl), p)
    | inl e ↦ rw e (
        bind-Runs (write_file whole (codes ".gitattributes") l.gitattributes git_mode_file)
          (λ u. optional_config whole p4 l.lfsconfig)
          (write_file-Runs (codes ".gitattributes") l.gitattributes git_mode_file)
          (λ u. optional_config-Runs l.lfsconfig) f p)
  ]

  write_cl-Runs :
      (lfs : Option LfsSetup) (branch : Str) (i : ℕ) (d : ClData) (author : Author)
      → d.streaming ≡ false
      → Runs (write_cl whole p4 lfs branch i d author)
  unfolding write_cl end_commit
  write_cl-Runs lfs branch i d author h = rw h (
      bind-Runs (begin_commit whole branch (metadata_of whole p4 d author)) _
        (begin_commit-Runs branch (metadata_of whole p4 d author))
        (λ u. bind-Runs (write_config whole p4 i lfs) _ (write_config-Runs i lfs) (λ u.
          bind-Runs (write_deletes whole d.deletes) _ (write_deletes-Runs d.deletes) (λ u.
            bind-Runs (write_files whole d.normal_results >> write_files whole d.lfs_results) _
              (bind-Runs (write_files whole d.normal_results) (λ u. write_files whole d.lfs_results)
                (write_files-Runs d.normal_results) (λ u. write_files-Runs d.lfs_results))
              (λ u. write_bytes-Runs (codes "\n"))))))

-- the last of the changelists that have files
abbrev pub last_written : ℕ → List ClData → ℕ
last_written n [] = n
last_written n (d ∷ ds) = last_written (if d.skipped then n else d.cl) ds

module _ {G : Type 0} (run_git : Str → G → Exit × G) (head_sha : Str → G → Str) (p4 : Contents)
    (lfs : Option LfsSetup) (cfg : ImportConfig) (now : ℕ)
    (succeeds : (out : Str) (g : G) → (run_git out g).0 ≡ exited 0) where
  checkpoint-Runs :
      (next_i : ℕ) (s : Import G)
      → Running s.importer
      → let (more, t) = checkpoint_if_due whole run_git head_sha p4 lfs cfg now next_i s in
        (more ≡ true) × Running t.importer × (t.last_written_cl ≡ s.last_written_cl)
  unfolding checkpoint_if_due finish_importer finish start record_head
  checkpoint-Runs next_i s (out, e) =
      elim (Bool-cases ((next_i % cfg.checkpoint_interval == 0) && ltb 0 s.last_written_cl)) [
        | inr d ↦ rw d (refl, (out, e), refl)
        | inl d ↦ rw (d, e, succeeds out s.git) (refl, ([], refl), refl)
      ]

  after_write-Runs :
      (next_i : ℕ) (d : ClData) (rest : Import G → Result (Unit {0}) × Import G) (s : Import G)
      (n : ℕ)
      → 0 < cfg.checkpoint_interval
      → Running s.importer
      → ((t : Import G)
          → Running t.importer
          → t.last_written_cl ≡ d.cl
          → ((rest t).0 ≡ ok tt) × Running (rest t).1.importer × ((rest t).1.last_written_cl ≡ n))
      → let (r', u) = after_write whole run_git head_sha p4 lfs cfg now next_i d (ok tt) rest s in
        (r' ≡ ok tt) × Running u.importer × (u.last_written_cl ≡ n)
  after_write-Runs next_i d rest s n pos p k =
      let t = record s { last_written_cl = d.cl } in
      let (a, b, c) = checkpoint-Runs next_i t p in
      let divides : (cfg.checkpoint_interval == 0) ≡ false = ground arith in
      rw (divides, a) (k (checkpoint_if_due whole run_git head_sha p4 lfs cfg now next_i t).1 b c)

  import_each-Runs :
      (i n : ℕ) (ds : List ClData) (s : Import G)
      → 0 < cfg.checkpoint_interval
      → All (λ (d : ClData). d.streaming ≡ false) ds
      → Running s.importer
      → s.last_written_cl ≡ n
      → let (r, u) = import_each whole run_git head_sha p4 lfs cfg now i ds s in
        (r ≡ ok tt) × Running u.importer × (u.last_written_cl ≡ last_written n ds)
  unfolding import_each write_data
  import_each-Runs i n [] s pos h p e = (refl, p, e)
  import_each-Runs i n (d ∷ ds) s pos h p e = elim (Bool-cases d.skipped) [
    | inl k ↦ rw k (import_each-Runs (i + 1) n ds s pos h.1 p e)
    | inr k ↦ rw k (
        let (author, store) = get_git_author now d.info.user cfg.domain s.store in
        let ((a, w), q) = write_cl-Runs p4 lfs cfg.branch i d author h.0 s.importer p in
        let f = (write_cl whole p4 lfs cfg.branch i d author s.importer).1 in
        rw w (
          after_write-Runs (i + 1) d (import_each whole run_git head_sha p4 lfs cfg now (i + 1) ds)
            (record s { store = store; importer = f }) (last_written d.cl ds) pos q
            (λ t b c. import_each-Runs (i + 1) d.cl ds t pos h.1 b c)))
  ]

  -- If something remains to import and it holds a changelist with files, none of them extracted while
  -- it is written, and neither the pipe nor a process fails and the branch has a head, an import
  -- returns, and the stream stands at the last changelist with files, for any interval of checkpoints
  -- of 1 or more.
  pub run_completes :
      (all : List ℕ) (ds : List ClData) (store : StateStore) (g : G)
      → 0 < cfg.checkpoint_interval
      → ((g : G) → head_sha cfg.branch g ≢ [])
      → remaining (get_last_synced_cl cfg.stream store) all ≢ []
      → All (λ (d : ClData). d.streaming ≡ false) ds
      → 0 < last_written 0 ds
      → let (r, u) = run whole run_git head_sha p4 lfs cfg now all ds store g in
        (r ≡ ok tt) × (get_last_synced_cl cfg.stream u.store ≡ last_written 0 ds)
  unfolding run finish_importer finish post_import start
  run_completes all ds store g pos head some_left h l =
      let init : Import G = record {
        store = store;
        git = g;
        importer = start fast_importer;
        last_written_cl = 0;
      } in
      let s = (import_each whole run_git head_sha p4 lfs cfg now 0 ds init).1 in
      let (a, (out, e), c) = import_each-Runs 0 0 ds init pos h ([], refl) refl in
      let positive : ltb 0 s.last_written_cl ≡ true = ground (arith, c) in
      let t = record s {
        importer = record s.importer { proc = none };
        git = (run_git out s.git).1;
      } in
      let not_empty =
        is_empty-ne (head_sha cfg.branch (run_git out s.git).1) (head (run_git out s.git).1) in
      rw
        (
          is_empty-ne (remaining (get_last_synced_cl cfg.stream store) all) some_left,
          a,
          e,
          succeeds out s.git,
          positive,
          not_empty,
        )
        (refl, get_last_synced_cl-record_head whole run_git head_sha p4 lfs cfg now t ∙ c)
