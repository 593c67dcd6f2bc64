-- ===== src/Tests/Service.antt =====
-- The start, the rounds, the cutover and the recovery of a store with one commit, and LFS files.
use p4sync_git.Prelude.{
  ℕ, ◌+◌, ◌≤◌, ◌≡◌, ◌≢◌, refl, ◌⊎◌, true, false, none, some, List, [], ◌∷◌, ◌++◌, arith, length,
  or_else,
}
use p4sync_git.Sql.{fetch_one, select_where}
use p4sync_git.Text.{Str, codes, str_eq, before_char, after_char, join}
use p4sync_git.Text.Decimal.{read_nat, show_nat}
use p4sync_git.Sync.Changelist.{Build}
use p4sync_git.Exec.{pure, Result, ok, err}
use p4sync_git.Git.Trailers.{CommitMetadata, format_message, parse_p4cl_from_message, newline}
use p4sync_git.Lfs.Pointer.{
  LfsPointer, format_lfs_pointer, is_lfs_pointer, parse_lfs_pointer, all_hex,
}
use p4sync_git.Lfs.Pointer.Laws.{parse_lfs_pointer-format_lfs_pointer}
use p4sync_git.Lfs.Store.{
  LfsObjectStore, Chunks, done, raises, chunk, store_from_stream, retrieve, object_path, file_at,
}
use p4sync_git.Lfs.Store.Laws.{
  whole_stream, store_from_stream_lem, store_from_stream-retrieve, IsAddressed,
}
use p4sync_git.State.Schema.{ConflictRow}
use p4sync_git.State.Connection.{StateStore, empty_store}
use p4sync_git.State.SyncState.{get_last_synced_cl, set_last_synced_cl}
use p4sync_git.State.CommitMap.{get_commit_sha, get_pending_pushes}
use p4sync_git.State.Conflicts.{get_conflict}
use p4sync_git.Monitor.Breaker.{IntegrityResult}
use p4sync_git.Sync.World.{World, GitOperator}
use p4sync_git.Sync.Poll.Laws.{last_or}
use p4sync_git.Sync.Startup.{verify_on_startup, mismatch_text}
use p4sync_git.Sync.Startup.Laws.{verify_on_startup_lem, StaysPut, pushed_each}
use p4sync_git.Sync.Rounds.{RemoteGit, RoundConfig, single_round, get_direction}
use p4sync_git.Sync.Rounds.Laws.{OnlyResolves, single_round-OnlyResolves}
use p4sync_git.Cutover.{CutoverManager, CutoverResult, not_started, execute}
use p4sync_git.Cutover.Laws.{IsDone, IsStopped, execute-IsDone}
use p4sync_git.Text.Strip.{rstrip}
use p4sync_git.Recovery.{
  rebuild_state_from_git, parse_log, resync_range, parse_entry, has_integration,
}
use p4sync_git.Recovery.Laws.{latest, changelists, rebuild_state_from_git_lem, resync_range_bound}
use p4sync_git.Recovery.Log.{parse_entry-format_message}
use p4sync_git.Tests.Data.{main, one_commit, git, p4, contents, build, cfg, world}

abbrev oid : Str
oid = codes "0123456789abcdef0123456789abcdef0123456789abcdef0123456789abcdef"

parse_lfs_pointer-format_lfs_pointer_example :
    (is_lfs_pointer (format_lfs_pointer oid 12) ≡ true)
    × (parse_lfs_pointer (format_lfs_pointer oid 12)
        ≡ ok (record { oid = oid; size = 12; pointer_bytes = format_lfs_pointer oid 12 }))
unfolding all_hex
parse_lfs_pointer-format_lfs_pointer_example = parse_lfs_pointer-format_lfs_pointer oid 12 refl refl

abbrev pointer : LfsPointer
pointer = record { oid = oid; size = 12; pointer_bytes = format_lfs_pointer oid 12 }

-- a sha_of that tells the lengths apart
abbrev sha_of : List ℕ → Str
sha_of [] = codes "0000"
sha_of (c ∷ s) = codes "1111"

abbrev lfs_store : LfsObjectStore
lfs_store = record { objects = []; tmp = [] }

abbrev two_chunks : Chunks
two_chunks = chunk (codes "he") (chunk (codes "llo") done)

store_from_stream_lem_example :
    store_from_stream sha_of (codes "tmp1") 9 (chunk (codes "he") (raises (codes "lost"))) lfs_store
    ≡ (err (codes "lost"), lfs_store)
unfolding whole_stream
store_from_stream_lem_example =
    store_from_stream_lem sha_of (codes "tmp1") 9 (chunk (codes "he") (raises (codes "lost")))
      lfs_store

store_from_stream-retrieve_example :
    let s' = (store_from_stream sha_of (codes "tmp1") 9 two_chunks lfs_store).1 in
    IsAddressed sha_of s'.objects
    × (retrieve (codes "1111") s' ≡ ok (object_path (codes "1111")))
    × ((d : List ℕ) × (file_at (object_path (codes "1111")) s'.objects ≡ some d)
        × (sha_of d ≡ codes "1111"))
unfolding whole_stream
store_from_stream-retrieve_example =
    store_from_stream-retrieve sha_of (codes "tmp1") 9 two_chunks lfs_store (codes "hello") tt refl

abbrev passes : World ℕ → Result IntegrityResult
passes w = ok (record {
  passed = true;
  checked_files = 1;
  mismatched_files = [];
  schedule = none;
  total_files = 1;
  strategy = codes "full";
})

abbrev manager : CutoverManager ℕ
manager = record {
  world = world;
  phase = not_started;
  has_notifier = false;
  infos_sent = [];
  details = [];
}

execute-IsDone_example :
    let (r, c') = execute git p4 build passes 60 cfg (pure tt) manager in
    (res : CutoverResult) × (r ≡ ok res)
    × (res.phase ≡ c'.phase)
    × (IsDone git p4 build passes 60 cfg res c' ⊎ IsStopped git p4 build passes 60 cfg res)
execute-IsDone_example = execute-IsDone git p4 build passes 60 cfg (pure tt) manager refl

-- a builder that always makes the same commit
abbrev plain : Build ℕ
plain info branch parent w = (ok (codes "c0"), w)

abbrev log : Str
log = codes "aa\nfix\n\nP4CL: 7\n\n---END---\nbb\nfix\n\nP4CL: 9\n\n---END---\n"

rebuild_state_from_git_lem_example :
    let (r, s') = rebuild_state_from_git 60 main (codes "main") (ok log) empty_store in
    (r ≡ ok (length (parse_log log)))
    × (s'.disk ≡ s'.conn)
    × ((n : ℕ)
        → get_commit_sha n main s'
          ≡ or_else (latest n (parse_log log)) (get_commit_sha n main empty_store))
    × (get_last_synced_cl main s'
        ≡ last_or (get_last_synced_cl main empty_store) (changelists (parse_log log)))
rebuild_state_from_git_lem_example =
    rebuild_state_from_git_lem 60 main (codes "main") log empty_store (λ e. cc) refl

parse_log_run : parse_log log ≡ (7, codes "aa", false) ∷ (9, codes "bb", false) ∷ []
unfolding parse_log after_char read_nat before_char has_integration
parse_log_run = refl

resync_range_bound_example :
    get_last_synced_cl main (resync_range p4 plain 60 cfg 1 2 main world).1.store ≤ 2
unfolding resync_range
resync_range_bound_example = resync_range_bound p4 plain 60 cfg 1 2 main world 2 refl (omega arith)

abbrev message : CommitMetadata
message = record {
  author_name = codes "Ann";
  author_email = codes "ann@company.com";
  author_timestamp = 100;
  message = codes "fix";
  p4_changelist = 12;
  integration_info = none;
}

parse_entry-format_message_example :
    parse_entry (codes "ab" ++ (newline ∷ (format_message message ++ codes "\n\n")))
    ≡ some (12, codes "ab", has_integration (format_message message))
unfolding rstrip format_message parse_p4cl_from_message join show_nat
parse_entry-format_message_example =
    parse_entry-format_message (codes "ab") (codes "\n\n") message ((λ e. cc), (refl, (refl, tt)))
      refl refl (refl, (refl, tt))

-- the registry knows the stream, and Git has a head
abbrev registered : StateStore
registered = record one_commit {
  conn = record one_commit.conn {
    stream_registry =
        record {
          stream = main;
          branch = codes "main";
          parent_stream = none;
          branch_point_cl = none;
        }
        ∷ [];
  };
}

abbrev git_at : Str → GitOperator ℕ
git_at head = record git { get_head_sha = λ branch n. some head }

abbrev after_empty : World ℕ
after_empty = record world { store = set_last_synced_cl main 8 [] registered }

verify_on_startup_lem_example :
    ([] ≢ codes "aa"
      → verify_on_startup (git_at (codes "aa")) cfg after_empty ≡ (err mismatch_text, after_empty))
    × ([] ≡ codes "aa"
        → (verify_on_startup (git_at (codes "aa")) cfg after_empty ≡ (
          ok tt,
          pushed_each (git_at (codes "aa")) cfg (get_pending_pushes after_empty.store) after_empty,
        ))
          × StaysPut
              (git_at (codes "aa"))
              cfg
              main
              after_empty
              (verify_on_startup (git_at (codes "aa")) cfg after_empty))
unfolding select_where str_eq
verify_on_startup_lem_example =
    verify_on_startup_lem (git_at (codes "aa")) cfg (codes "aa") main [] main 8 registered
      after_empty refl refl refl

abbrev conflict : ConflictRow
conflict = record {
  branch = codes "main";
  conflict_branch = codes "conflict/main/CL8";
  p4_changelists = 8 ∷ [];
  git_commits = codes "bb" ∷ [];
  conflict_files = codes "a.txt" ∷ [];
}

abbrev in_conflict : World ℕ
in_conflict = record world {
  store = record one_commit { conn = record one_commit.conn { conflict_state = conflict ∷ [] } };
}

abbrev remote : RemoteGit ℕ
remote = record {
  fetch = λ n. (ok tt, n + 1);
  get_log_after = λ n branch sha. [];
  get_commit_files = λ n sha. ([], []);
  list_remote_branches = λ n prefix. [];
}

abbrev rounds : RoundConfig
rounds = record {
  sync = cfg;
  sync_directions = (main, codes "bidirectional") ∷ [];
  has_remote_url = true;
  has_detectors = true;
}

single_round-OnlyResolves_example :
    OnlyResolves git remote p4 contents build
      (λ text sha user. ok 9)
      rounds
      60
      (codes "main")
      (codes "conflict/main/CL8")
      in_conflict
      (single_round git remote p4 contents build (λ text sha user. ok 9) rounds 60 in_conflict)
unfolding get_direction get_conflict str_eq fetch_one
single_round-OnlyResolves_example =
    single_round-OnlyResolves git remote p4 contents build (λ text sha user. ok 9) rounds 60
      conflict in_conflict refl refl refl refl
