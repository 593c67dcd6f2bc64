-- ===== src/Tests/Verify.antt =====
-- Three files, one of which differs and one of which git does not show, compared over two connections.
use p4sync_git.Prelude.{
  ℕ, ◌≡◌, refl, ap, sym, true, Option, none, some, List, [], ◌∷◌, length, keep, is_empty, take,
  if◌then◌else◌, All, map, arith,
}
use p4sync_git.Text.{Str, codes, str_eq, contains}
use p4sync_git.Text.Dict.{dict_get}
use p4sync_git.Exec.{Result, ok}
use p4sync_git.Import.Tree.Order.{count}
use p4sync_git.Import.Initial.{chunks}
use p4sync_git.Perforce.Head.{
  HeadServer, HeadMeta, at_head, fstat_each, head_digests, print_file_to_bytes_head,
  iter_file_sizes, sizes_of,
}
use p4sync_git.Monitor.Breaker.{IntegrityResult, CheckSchedule}
use p4sync_git.Monitor.Verify.{Checker}
use p4sync_git.Monitor.Verify.Run.{
  compare_files, select_smart, verify_schedule, verify_cutover, is_mode, nothing_checked,
}
use p4sync_git.Monitor.Verify.Verdicts.{Heads, IsReporting}
use p4sync_git.Monitor.Verify.Reference.{is_checked, is_wrong}
use p4sync_git.Monitor.Verify.Laws.{compare_files_lem}
use p4sync_git.Monitor.Verify.Scope.{select_smart_large, verify_unlisted}

-- P4 has the content 1 in every file, and no digests
abbrev server : HeadServer
server = record {
  run_fstat = λ specs. ok (some []);
  run_print = λ spec. ok (some (codes "info" ∷ codes "1" ∷ []));
  print_to_file = λ depot. ok none;
  run_sizes = λ path. ok ((some (codes "//d/main/b"), some 10) ∷ (none, some 3) ∷ []);
}

abbrev blob_of : Str → Option Str
unfolding str_eq
blob_of g =
    if str_eq g (codes "a")
    then some (codes "1")
    else if str_eq g (codes "b")
    then some (codes "2")
    else none

abbrev checker : Checker
checker = record {
  p4 = server;
  stream = codes "//d/main";
  daily_sample_count = 100;
  lfs_store = none;
  create_client = some (λ i. ok server);
  max_workers = 2;
  ls_tree = none;
  git_blob = blob_of;
  sha256 = λ content. content;
  md5 = λ content. content;
  sample = λ n files. take n files;
  portion = λ n. n;
}

abbrev files : List Str
files = codes "a" ∷ codes "b" ∷ codes "c" ∷ []

abbrev heads : Heads
heads = record {
  meta = λ depot. none;
  printed = λ depot. some (codes "1");
  to_file = λ depot. none;
}

fstat_none : (cs : List (List Str)) → fstat_each server cs [] ≡ ok []
unfolding fstat_each
fstat_none [] = refl
fstat_none (c ∷ cs) = fstat_none cs

no_metas : (depots : List Str) → All (λ (x : Str). dict_get {A = HeadMeta} x [] ≡ none) depots
unfolding dict_get
no_metas [] = tt
no_metas (d ∷ depots) = (refl, no_metas depots)

no_digests : (depots : List Str) → head_digests server depots ≡ ok []
unfolding head_digests
no_digests [] = refl
no_digests (d ∷ depots) = fstat_none (chunks 200 (map at_head (d ∷ depots)))

server-IsReporting : IsReporting heads server
unfolding print_file_to_bytes_head
server-IsReporting = record {
  prints = λ depot. refl;
  writes = λ depot. refl;
  digests = λ depots. ([], no_digests depots, no_metas depots);
}

abbrev called : ℕ → Option (ℕ → Result HeadServer) → Result HeadServer
called i none = ok server
called i (some create) = create i

config_lem :
    (create : ℕ → Result HeadServer)
    → some (λ (i : ℕ). ok server) ≡ some create
    → (i : ℕ) → create i ≡ ok server
config_lem create e i = ap (called i) (sym e)

sizes_known :
    iter_file_sizes server (at_head (codes "//d/main/...")) ≡ ok ((codes "//d/main/b", 10) ∷ [])
unfolding iter_file_sizes sizes_of
sizes_known = refl

b_listed : contains files (codes "b") ≡ true
unfolding contains
b_listed = refl

compare_files_lem_example :
    (r : IntegrityResult) × (compare_files checker files ≡ ok r)
    × (r.checked_files ≡ length (keep (is_checked checker heads) files))
    × ((x : Str) → count x r.mismatched_files ≡ count x (keep (is_wrong checker heads) files))
    × (r.passed ≡ is_empty (keep (is_wrong checker heads) files))
compare_files_lem_example =
    compare_files_lem checker heads (λ i. server) server-IsReporting (λ i. server-IsReporting)
      config_lem files

select_smart_large_example : count (codes "b") (select_smart checker files 1 5) ≡ 1
select_smart_large_example =
    select_smart_large checker files 1 5 10 [] [] (codes "b") sizes_known tt (omega arith) b_listed

verify_unlisted_example :
    ((s : CheckSchedule)
      → (r : IntegrityResult) × (verify_schedule checker s ≡ ok r)
        × (r.passed ≡ true)
        × (r.checked_files ≡ 0))
    × ((mode : Str) (sample_count threshold : ℕ)
        → is_mode mode ≡ true
        → verify_cutover checker mode sample_count threshold ≡ ok (nothing_checked mode))
verify_unlisted_example = verify_unlisted checker refl
