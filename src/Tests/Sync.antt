-- ===== src/Tests/Sync.antt =====
-- The synchronisation of a store with one commit.
use p4sync_git.Prelude.{ℕ, ◌≡◌, ◌≢◌, refl, true, false, Option, none, some, [], ◌∷◌, arith, or_else}
use p4sync_git.Sql.{fetch_one}
use p4sync_git.Text.{Str, codes}
use p4sync_git.Exec.{Result, ok}
use p4sync_git.Git.Trailers.{parse_git_commit_from_description}
use p4sync_git.State.CommitMap.{get_commit_sha}
use p4sync_git.Monitor.Breaker.{allow_sync}
use p4sync_git.Sync.Changelist.{process_changelist}
use p4sync_git.Sync.Changelist.Laws.{KeepsTables, Advances, process_changelist-Advances}
use p4sync_git.Sync.Poll.{poll, poll_and_sync}
use p4sync_git.Sync.Poll.Laws.{Round, poll_and_sync-Round}
use p4sync_git.Sync.MultiStream.{handle_changelist_event}
use p4sync_git.Sync.MultiStream.Laws.{Positions, handle_changelist_event-Positions}
use p4sync_git.Sync.Builder.{build_commit}
use p4sync_git.Sync.Builder.Laws.{build_commit-KeepsTables}
use p4sync_git.Sync.Reverse.{GitCommit, detect, reverse_sync, build_description}
use p4sync_git.Sync.Reverse.Laws.{
  Detected, P4Changed, GitChanged, detect_lem, Processed, Submitted, reverse_sync_lem,
  parse_git_commit-build_description,
}
use p4sync_git.State.Streams.{get_stream_mapping}
use p4sync_git.Sync.Redis.{is_multi_stream, branch_or, on_redis_changelist}
use p4sync_git.Sync.Redis.Laws.{Jumps, on_redis_changelist_position}
use p4sync_git.State.SyncState.{get_last_reverse_sync_sha}
use p4sync_git.Perforce.Merge.{no_merge}
use p4sync_git.Tests.Data.{main, one_commit, git, p4, contents, builder, build, cfg, breaker, world}

build-KeepsTables : KeepsTables build
build-KeepsTables =
    build_commit-KeepsTables git contents (λ info. no_merge) (λ info. none) (codes "company.com")
      builder 50

process_changelist-Advances_example :
    Advances main 8 world (process_changelist git p4 build cfg 60 8 main (codes "main") world)
process_changelist-Advances_example =
    process_changelist-Advances git p4 build cfg build-KeepsTables 60 8 main (codes "main") world

poll_and_sync-Round_example :
    (allow_sync breaker ≡ false → poll_and_sync git p4 build cfg 60 world ≡ (ok tt, world))
    × (allow_sync breaker ≡ true
        → Round git p4 build cfg 60 world
            (poll p4 main 50 none one_commit)
            (poll_and_sync git p4 build cfg 60 world))
poll_and_sync-Round_example = poll_and_sync-Round git p4 build cfg build-KeepsTables 60 world

main-ne-nil : main ≢ []
main-ne-nil = λ e. ground (arith, e)

handle_changelist_event-Positions_example :
    Positions main 8 world
      (handle_changelist_event git p4 (λ stream. build) cfg 60 8 main (codes "main") world)
handle_changelist_event-Positions_example =
    handle_changelist_event-Positions git p4 (λ stream. build) cfg (λ other. build-KeepsTables) 60 8
      main (codes "main") world

build_commit-KeepsTables_example :
    KeepsTables
      (build_commit git contents (λ info. no_merge) (λ info. none) (codes "company.com") builder 50)
build_commit-KeepsTables_example =
    build_commit-KeepsTables git contents (λ info. no_merge) (λ info. none) (codes "company.com")
      builder 50

abbrev commit : GitCommit
commit = record {
  sha = codes "abc1";
  message = codes "fix";
  author_name = codes "Ann";
  author_email = codes "ann@company.com";
}

detect_lem_example :
    Detected
      (λ f.
        P4Changed ((8, codes "//depot/main/a.txt" ∷ []) ∷ []) f
        × GitChanged (λ sha. (codes "a.txt" ∷ [], [])) (commit ∷ []) f)
      (detect
        (λ sha. (codes "a.txt" ∷ [], []))
        (codes "main")
        ((8, codes "//depot/main/a.txt" ∷ []) ∷ [])
        (commit ∷ []))
detect_lem_example =
    detect_lem (λ sha. (codes "a.txt" ∷ [], [])) (codes "main")
      ((8, codes "//depot/main/a.txt" ∷ []) ∷ []) (commit ∷ [])

abbrev submit : Str → Str → Option Str → Result ℕ
submit description sha user = ok 9

reverse_sync_lem_example :
    Submitted submit 60 main
      (codes "main")
      (commit ∷ [])
      one_commit
      (reverse_sync submit 60 main (codes "main") (commit ∷ []) one_commit)
    × Processed submit
        (codes "main")
        (commit ∷ [])
        (get_last_reverse_sync_sha (codes "main") one_commit)
        (reverse_sync submit 60 main (codes "main") (commit ∷ []) one_commit)
reverse_sync_lem_example = reverse_sync_lem submit 60 main (codes "main") (commit ∷ []) one_commit

parse_git_commit-build_description_example :
    parse_git_commit_from_description (build_description commit)
    ≡ or_else (parse_git_commit_from_description (codes "fix")) (some (codes "abc1"))
parse_git_commit-build_description_example =
    parse_git_commit-build_description commit (λ e. ground (arith, e))
      (refl, (refl, (refl, (refl, tt))))

on_redis_changelist_position_example :
    let branch = branch_or (codes "main") (get_stream_mapping main one_commit) in
    Jumps git p4
      (λ stream. build)
      cfg
      main
      9
      world
      (process_changelist git p4 build cfg 60 9 main branch world).0
      (on_redis_changelist git p4 (λ stream. build) cfg 60 9 [] world).1
unfolding get_commit_sha is_multi_stream fetch_one
on_redis_changelist_position_example =
    on_redis_changelist_position git p4 (λ stream. build) cfg build-KeepsTables 60 9 world refl refl
