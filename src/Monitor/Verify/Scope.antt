-- ===== src/Monitor/Verify/Scope.antt =====
-- Which files a verification compares.
use mathlib.Core.List.{append_assoc}
use p4sync_git.Prelude.{
  ◌≤◌, ◌≢◌, leb, All, drop, length, drop-append, ap, ◌∙◌, sym, Bool-cases, inl, inr, ℕ, ◌≡◌, refl,
  max, Bool, true, not, Option, none, some, List, [], ◌∷◌, ◌++◌, arith, keep, if◌then◌else◌, ltb,
}
use p4sync_git.Text.{starts_with, Str, contains, codes, str_eq}
use p4sync_git.Text.Dict.{Dict, dict_get, dict_set}
use p4sync_git.Text.Dict.Laws.{dict_get-dict_set}
use p4sync_git.Paths.{slash}
use p4sync_git.Text.Laws.{starts_with-append, append-drop, str_eq→eq, str_eq_iff, str_eq_refl}
use p4sync_git.Exec.{Result, ok, and_then}
use p4sync_git.Import.Tree.Order.{count}
use p4sync_git.Perforce.Head.{HeadServer, at_head, iter_file_sizes}
use p4sync_git.Monitor.Breaker.{
  IntegrityResult, CheckSchedule, daily_sample, weekly_full, monthly_random,
}
use p4sync_git.Monitor.Verify.{Checker, classify, verify_slice, lfs_each, normal_each}
use p4sync_git.Monitor.Verify.Run.{
  dispatch, compare_files, list_git_files, listed, verify_sample, verify_full, verify_random,
  verify_schedule, verify_cutover, is_mode, nothing_checked, from_keys, select_smart, size_by_git,
  is_large_file, size_or_zero, sampled, result_of,
}

count-from_keys :
    (g : Str) (seen xs : List Str)
    → count g (from_keys seen xs) ≡ (if contains seen g then 0 else if contains xs g then 1 else 0)
unfolding from_keys contains
count-from_keys g seen [] = ground arith
count-from_keys g seen (x ∷ xs) =
    ground (arith, count-from_keys g seen xs, count-from_keys g (x ∷ seen) xs, str_eq_iff x g)

contains-keep :
    (p : Str → Bool) (g : Str) (xs : List Str)
    → contains xs g ≡ true
    → p g ≡ true
    → contains (keep p xs) g ≡ true
unfolding contains
contains-keep p g [] h t = cc
contains-keep p g (x ∷ xs) h t = ground (arith, contains-keep p g xs, str_eq_iff x g, h, t)

contains-append : (g : Str) (xs ys : List Str) → contains xs g ≡ true → contains (xs ++ ys) g ≡ true
unfolding contains
contains-append g [] ys h = cc
contains-append g (x ∷ xs) ys h = ground (arith, contains-append g xs ys, h)

module _ (c : Checker) where
  in_stream : (g : Str) → c.stream ++ (slash ∷ g) ≡ (c.stream ++ (slash ∷ [])) ++ g
  in_stream g = sym (append_assoc c.stream (slash ∷ []) g)

  size_by_git-append :
      (rows more : List (Str × ℕ)) (d : Dict ℕ)
      → size_by_git c (rows ++ more) d ≡ size_by_git c more (size_by_git c rows d)
  unfolding size_by_git
  size_by_git-append [] more d = refl
  size_by_git-append ((depot, size) ∷ rows) more d =
      elim (Bool-cases (starts_with depot (c.stream ++ (slash ∷ [])))) [
        | inl e ↦ rw e (size_by_git-append rows more _)
        | inr e ↦ rw e (size_by_git-append rows more d)
      ]

  -- rows of other files do not change the size of a file
  size_by_git-others :
      (g : Str) (rows : List (Str × ℕ)) (d : Dict ℕ)
      → All (λ (r : Str × ℕ). r.0 ≢ c.stream ++ (slash ∷ g)) rows
      → dict_get g (size_by_git c rows d) ≡ dict_get g d
  unfolding size_by_git
  size_by_git-others g [] d h = refl
  size_by_git-others g ((depot, size) ∷ rows) d h =
      let prefix = c.stream ++ (slash ∷ []) in
      let path = drop (length prefix) depot in
      elim (Bool-cases (starts_with depot prefix)) [
        | inr e ↦ rw e (size_by_git-others g rows d h.1)
        | inl e ↦ elim (Bool-cases (str_eq path g)) [
          | inl q ↦ absurd (
              h.0 (
                sym (append-drop depot prefix e)
                ∙ ap (λ t. prefix ++ t) (str_eq→eq path g q)
                ∙ sym (in_stream g)))
          | inr q ↦ rw e (
              size_by_git-others g rows (dict_set path size d) h.1
              ∙ dict_get-dict_set g path size d
              ∙ rw q refl)
        ]
      ]

  size_by_git-row :
      (g : Str) (size : ℕ) (after : List (Str × ℕ)) (d : Dict ℕ)
      → size_by_git c (((c.stream ++ (slash ∷ [])) ++ g, size) ∷ after) d
        ≡ size_by_git c after (dict_set g size d)
  unfolding size_by_git
  size_by_git-row g size after d =
      rw (starts_with-append (c.stream ++ (slash ∷ [])) g, drop-append (c.stream ++ (slash ∷ [])) g)
        refl

  -- the size that the last row of a file gives
  dict_get-size_by_git :
      (g : Str) (size : ℕ) (before after : List (Str × ℕ))
      → All (λ (r : Str × ℕ). r.0 ≢ c.stream ++ (slash ∷ g)) after
      → dict_get g (size_by_git c (before ++ ((c.stream ++ (slash ∷ g), size) ∷ after)) [])
        ≡ some size
  dict_get-size_by_git g size before after h =
      let prefix = c.stream ++ (slash ∷ []) in
      let d = size_by_git c before [] in
      ap (dict_get g) (size_by_git-append before ((c.stream ++ (slash ∷ g), size) ∷ after) [])
      ∙ ap (λ depot. dict_get g (size_by_git c ((depot, size) ∷ after) d)) (in_stream g)
      ∙ ap (dict_get g) (size_by_git-row g size after d)
      ∙ size_by_git-others g after (dict_set g size d) h
      ∙ dict_get-dict_set g g size d
      ∙ rw (str_eq_refl g) refl

  -- When P4 gives the sizes, and the last of a file of the list is the threshold or more, then the
  -- smart choice has the file, and has it once.
  pub select_smart_large :
      (git_files : List Str) (sample_count threshold size : ℕ) (before after : List (Str × ℕ))
      (g : Str)
      → iter_file_sizes c.p4 (at_head (c.stream ++ codes "/..."))
        ≡ ok (before ++ ((c.stream ++ (slash ∷ g), size) ∷ after))
      → All (λ (r : Str × ℕ). r.0 ≢ c.stream ++ (slash ∷ g)) after
      → threshold ≤ size
      → contains git_files g ≡ true
      → count g (select_smart c git_files sample_count threshold) ≡ 1
  unfolding select_smart contains
  select_smart_large git_files sample_count threshold size before after g e last l h =
      let rows = before ++ ((c.stream ++ (slash ∷ g), size) ∷ after) in
      let large = is_large_file threshold (size_by_git c rows []) in
      let big : large g ≡ true =
        ap (λ o. leb threshold (size_or_zero o)) (dict_get-size_by_git g size before after last)
        ∙ ground (arith, l) in
      let others = sampled c sample_count (keep (λ g. not (large g)) git_files) in
      let there =
        contains-append g (keep large git_files) others (contains-keep large g git_files h big) in
      rw e (count-from_keys g [] (keep large git_files ++ others) ∙ rw there refl)

dispatch_nothing : (c : Checker) (o : Option (ℕ → Result HeadServer)) → dispatch c o [] ≡ ok (0, [])
unfolding dispatch verify_slice classify lfs_each normal_each
dispatch_nothing c none = refl
dispatch_nothing c (some create) = elim (Bool-cases (ltb 1 (max 1 c.max_workers))) [
  | inl e ↦ rw e refl
  | inr e ↦ rw e refl
]

compare_nothing : (c : Checker) → compare_files c [] ≡ ok (result_of (0, []))
unfolding compare_files
compare_nothing c =
    ap (λ r. and_then r (λ t. ok (result_of t))) (dispatch_nothing c c.create_client)

no_files : (c : Checker) → c.ls_tree ≡ none → list_git_files c ≡ []
unfolding list_git_files
no_files c h = ap listed h

schedule_unlisted :
    (c : Checker)
    → list_git_files c ≡ []
    → (s : CheckSchedule)
    → (r : IntegrityResult) × (verify_schedule c s ≡ ok r)
      × (r.passed ≡ true)
      × (r.checked_files ≡ 0)
unfolding verify_schedule verify_sample verify_full verify_random
schedule_unlisted c h daily_sample = rw h (nothing_checked [], refl, refl, refl)
schedule_unlisted c h weekly_full =
    rw (h, compare_nothing c) (nothing_checked (codes "full"), refl, refl, refl)
schedule_unlisted c h monthly_random = rw h (nothing_checked [], refl, refl, refl)

-- When git cannot list the files, every verification passes: no file was compared.
pub verify_unlisted :
    (c : Checker)
    → c.ls_tree ≡ none
    → ((s : CheckSchedule)
        → (r : IntegrityResult) × (verify_schedule c s ≡ ok r)
          × (r.passed ≡ true)
          × (r.checked_files ≡ 0))
      × ((mode : Str) (sample_count threshold : ℕ)
          → is_mode mode ≡ true
          → verify_cutover c mode sample_count threshold ≡ ok (nothing_checked mode))
unfolding verify_cutover
verify_unlisted c h =
    (schedule_unlisted c (no_files c h), λ mode sample_count threshold m. rw (m, no_files c h) refl)
