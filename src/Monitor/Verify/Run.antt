-- ===== src/Monitor/Verify/Run.antt =====
-- services/integrity_checker.py: which files are compared, and the comparison over several connections.
-- The workers only read, each writes its own result, and all are waited for: their results stand in a
-- list.
use p4sync_git.Prelude.{
  ℕ, zero, suc, ◌+◌, ◌-◌, min, max, Bool, true, false, not, ◌&&◌, Option, none, some, List, [], ◌∷◌,
  ◌++◌, length, drop, keep, any, is_empty, leb, ltb, if◌then◌else◌,
}
use p4sync_git.Text.{Str, codes, str_eq, contains, split, starts_with}
use p4sync_git.Text.Strip.{strip_spaces}
use p4sync_git.Text.Decimal.{show_nat}
use p4sync_git.Text.Dict.{Dict, dict_get, dict_set}
use p4sync_git.Exec.{Result, ok, err, and_then}
use p4sync_git.Paths.{slash}
use p4sync_git.Perforce.Head.{HeadServer, at_head, iter_file_sizes}
use p4sync_git.Monitor.Breaker.{
  IntegrityResult, CheckSchedule, daily_sample, weekly_full, monthly_random,
}
use p4sync_git.Monitor.Verify.{Checker, verify_slice}

-- `git_paths[i::m + 1]`
unfoldable pub slice_from : ℕ → ℕ → List Str → List Str
slice_from m i [] = []
slice_from m zero (g ∷ gs) = g ∷ slice_from m m gs
slice_from m (suc i) (g ∷ gs) = slice_from m i gs

abbrev pub is_err : Result (ℕ × List Str) → Bool
is_err (ok t) = false
is_err (err e) = true

-- A worker that raised leaves its result as it was, `(0, [])`.
abbrev pub merge : List (Result (ℕ × List Str)) → ℕ × List Str
merge [] = (0, [])
merge (ok t ∷ rs) = let (k, ns) = merge rs in (t.0 + k, t.1 ++ ns)
merge (err e ∷ rs) = merge rs

abbrev workers_error : ℕ → Str
workers_error n = codes "병렬 무결성 검증 중 " ++ (show_nat n ++ codes "개 워커 예외 발생 — 검증 실패")

unfoldable pub gather_results : List (Result (ℕ × List Str)) → Result (ℕ × List Str)
gather_results rs =
    if any is_err rs then err (workers_error (length (keep is_err rs))) else ok (merge rs)

-- the clients `i`, `i + 1`, ..., `k` of them
unfoldable pub clients : (ℕ → Result HeadServer) → ℕ → ℕ → Result (List HeadServer)
clients create_client zero i = ok []
clients create_client (suc k) i =
    and_then (create_client i) (λ p. and_then (clients create_client k (suc i)) (λ ps. ok (p ∷ ps)))

abbrev pub result_of : ℕ × List Str → IntegrityResult
result_of (checked, mismatched) = record {
  passed = is_empty mismatched;
  checked_files = checked;
  mismatched_files = mismatched;
  schedule = none;
  total_files = 0;
  strategy = [];
}

-- the result when there is nothing to compare
abbrev pub nothing_checked : Str → IntegrityResult
nothing_checked strategy = record {
  passed = true;
  checked_files = 0;
  mismatched_files = [];
  schedule = none;
  total_files = 0;
  strategy = strategy;
}

abbrev is_listed : Str → Bool
is_listed f = not (is_empty f) && not (starts_with f (codes "."))

abbrev pub listed : Option Str → List Str
unfolding split strip_spaces starts_with
listed none = []
listed (some out) = keep is_listed (split b'\n' (strip_spaces out))

abbrev pub size_or_zero : Option ℕ → ℕ
size_or_zero none = 0
size_or_zero (some n) = n

abbrev pub is_large_file : ℕ → Dict ℕ → Str → Bool
is_large_file threshold sizes g = leb threshold (size_or_zero (dict_get g sizes))

-- `list(dict.fromkeys(xs))`, where `seen` stands before
unfoldable pub from_keys : List Str → List Str → List Str
unfolding contains
from_keys seen [] = []
from_keys seen (x ∷ xs) = if contains seen x then from_keys seen xs else x ∷ from_keys (x ∷ seen) xs

abbrev pub is_mode : Str → Bool
is_mode mode = contains (codes "full" ∷ codes "sample" ∷ codes "smart" ∷ []) mode

module _ (c : Checker) where
  unfoldable pub work_each : ℕ → ℕ → List Str → List HeadServer → List (Result (ℕ × List Str))
  unfolding slice_from verify_slice
  work_each m i git_paths [] = []
  work_each m i git_paths (p ∷ ps) =
      verify_slice c p (slice_from m i git_paths) ∷ work_each m (suc i) git_paths ps

  unfoldable pub compare_parallel : (ℕ → Result HeadServer) → List Str → Result (ℕ × List Str)
  unfolding clients work_each gather_results
  compare_parallel create_client git_paths =
      let n = min (max 1 c.max_workers) (length git_paths) in
      and_then (clients create_client n 0) (λ ps. gather_results (work_each (n - 1) 0 git_paths ps))

  unfoldable pub dispatch : Option (ℕ → Result HeadServer) → List Str → Result (ℕ × List Str)
  unfolding compare_parallel verify_slice
  dispatch none git_paths = verify_slice c c.p4 git_paths
  dispatch (some create_client) git_paths =
      if ltb 1 (max 1 c.max_workers) && ltb 1 (length git_paths)
      then compare_parallel create_client git_paths
      else verify_slice c c.p4 git_paths

  unfoldable pub compare_files : List Str → Result IntegrityResult
  unfolding dispatch
  compare_files git_paths = and_then (dispatch c.create_client git_paths) (λ t. ok (result_of t))

  unfoldable pub list_git_files : List Str
  unfolding split strip_spaces starts_with
  list_git_files = listed c.ls_tree

  abbrev pub with_total : List Str → Str → IntegrityResult → Result IntegrityResult
  with_total git_files strategy res =
      ok (record res { total_files = length git_files; strategy = strategy })

  -- the comparison of some of the files, under the name of the strategy
  abbrev pub compare_targets : List Str → Str → List Str → Result IntegrityResult
  unfolding compare_files
  compare_targets git_files strategy targets =
      and_then (compare_files targets) (with_total git_files strategy)

  unfoldable pub verify_sample : ℕ → Result IntegrityResult
  unfolding list_git_files compare_files
  verify_sample sample_count =
      let git_files = list_git_files in
      if is_empty git_files
      then ok (nothing_checked [])
      else compare_targets git_files (codes "sample")
          (c.sample (min sample_count (length git_files)) git_files)

  unfoldable pub verify_full : Result IntegrityResult
  unfolding list_git_files compare_files
  verify_full = compare_targets list_git_files (codes "full") list_git_files

  unfoldable pub verify_random : Result IntegrityResult
  unfolding list_git_files compare_files
  verify_random =
      let git_files = list_git_files in
      if is_empty git_files
      then ok (nothing_checked [])
      else (let count = max 1 (c.portion (length git_files)) in
          compare_targets git_files (codes "random")
            (c.sample (min count (length git_files)) git_files))

  -- the verification of a schedule
  unfoldable pub verify_schedule : CheckSchedule → Result IntegrityResult
  unfolding verify_sample verify_full verify_random
  verify_schedule daily_sample = verify_sample c.daily_sample_count
  verify_schedule weekly_full = verify_full
  verify_schedule monthly_random = verify_random

  abbrev depot_prefix : Str
  depot_prefix = c.stream ++ (slash ∷ [])

  unfoldable pub size_by_git : List (Str × ℕ) → Dict ℕ → Dict ℕ
  unfolding dict_set starts_with
  size_by_git [] sizes = sizes
  size_by_git ((depot, size) ∷ rows) sizes =
      if starts_with depot depot_prefix
      then size_by_git rows (dict_set (drop (length depot_prefix) depot) size sizes)
      else size_by_git rows sizes

  abbrev pub sampled : ℕ → List Str → List Str
  sampled sample_count rest =
      if is_empty rest then [] else c.sample (min sample_count (length rest)) rest

  abbrev pub smart : List Str → ℕ → ℕ → Result (List (Str × ℕ)) → List Str
  unfolding size_by_git from_keys
  smart git_files sample_count threshold (err e) =
      c.sample (min sample_count (length git_files)) git_files
  smart git_files sample_count threshold (ok rows) =
      let sizes = size_by_git rows [] in
      let large = keep (is_large_file threshold sizes) git_files in
      let rest = keep (λ g. not (is_large_file threshold sizes g)) git_files in
      from_keys [] (large ++ sampled sample_count rest)

  unfoldable pub select_smart : List Str → ℕ → ℕ → List Str
  unfolding size_by_git from_keys iter_file_sizes
  select_smart git_files sample_count threshold =
      smart git_files sample_count threshold
        (iter_file_sizes c.p4 (at_head (c.stream ++ codes "/...")))

  -- the files of a mode
  abbrev pub targets : Str → List Str → ℕ → ℕ → List Str
  unfolding select_smart
  targets mode git_files sample_count threshold =
      if str_eq mode (codes "full")
      then git_files
      else if str_eq mode (codes "sample")
      then c.sample (min sample_count (length git_files)) git_files
      else select_smart git_files sample_count threshold

  unfoldable pub verify_cutover : Str → ℕ → ℕ → Result IntegrityResult
  unfolding list_git_files compare_files select_smart str_eq contains
  verify_cutover mode sample_count large_threshold_bytes =
      let git_files = list_git_files in
      if is_mode mode
      then (if is_empty git_files
          then ok (nothing_checked mode)
          else compare_targets git_files mode
              (targets mode git_files sample_count large_threshold_bytes))
      else err (codes "잘못된 verify_mode: '" ++ (mode ++ codes "' (유효값: full, sample, smart)"))
