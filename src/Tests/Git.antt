-- ===== src/Tests/Git.antt =====
-- Paths, messages and routes.
use p4sync_git.Prelude.{◌≡◌, true, none, some, [], ◌∷◌, keep, length, or_else}
use p4sync_git.Text.{codes}
use p4sync_git.Git.Trailers.{CommitMetadata, format_message, parse_p4cl_from_message}
use p4sync_git.Git.Trailers.Laws.{parse_p4cl-format_message}
use p4sync_git.Lfs.Routing.{LfsConfig, partition_for_lfs}
use p4sync_git.Lfs.Routing.Laws.{RightlySplit, partition_for_lfs_lem}
use p4sync_git.Tests.Data.{file}

abbrev message : CommitMetadata
message = record {
  author_name = codes "Ann";
  author_email = codes "ann@company.com";
  author_timestamp = 100;
  message = codes "fix";
  p4_changelist = 12;
  integration_info = none;
}

parse_p4cl-format_message_example :
    parse_p4cl_from_message (format_message message)
    ≡ or_else (parse_p4cl_from_message (codes "fix")) (some 12)
parse_p4cl-format_message_example = parse_p4cl-format_message message

abbrev lfs : LfsConfig
lfs = record {
  enabled = true;
  extensions = codes ".png" ∷ [];
  size_threshold_bytes = 100;
  auto_detect_binary = true;
  binary_size_threshold_bytes = none;
}

partition_for_lfs_lem_example :
    RightlySplit
      (λ fa. none)
      (λ fa. none)
      lfs
      (λ p. length (keep p ((file, codes "a.txt") ∷ [])))
      (partition_for_lfs (λ fa. none) (λ fa. none) lfs ((file, codes "a.txt") ∷ []))
partition_for_lfs_lem_example =
    partition_for_lfs_lem (λ fa. none) (λ fa. none) lfs ((file, codes "a.txt") ∷ [])
