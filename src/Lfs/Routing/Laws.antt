-- ===== src/Lfs/Routing/Laws.antt =====
-- The two passes of the partition send every file where the rule for one file sends it.
use p4sync_git.Prelude.{
  ℕ, ◌+◌, ◌≡◌, refl, ◌↔◌, inl, inr, Bool, true, false, Option, List, [], ◌∷◌, ◌++◌, arith, All,
  All-append, keep, length, length-append, Bool-cases,
}
use p4sync_git.Text.{Str}
use p4sync_git.Perforce.Change.{P4FileAction}
use p4sync_git.Lfs.Routing.{
  LfsConfig, binary, Target, Sort, to_lfs, to_normal, sort_of, is_lfs_target_ext,
  classify_p4_file_type, effective_binary_threshold, decide_lfs_route, resolve_class, is_large,
  goes_to_lfs, select_sort, route, is_lfs, is_normal, is_ambiguous, partition_for_lfs,
}

-- With binary detection on and no extension of the list, a file goes to LFS exactly if its class,
-- resolved by head or size, is binary and its size is at the threshold or above, or not known.
pub decide_lfs_route_binary :
    (git_path file_type : Str) (size : Option ℕ) (cfg : LfsConfig) (head : Option (List ℕ))
    → is_lfs_target_ext cfg git_path ≡ false
    → cfg.auto_detect_binary ≡ true
    → (decide_lfs_route git_path file_type size cfg head ≡ true) ↔ (
        (resolve_class (classify_p4_file_type file_type) (effective_binary_threshold cfg) size head
          ≡ binary)
        × (is_large (effective_binary_threshold cfg) size ≡ true))
unfolding decide_lfs_route
decide_lfs_route_binary git_path file_type size cfg head h a = ground arith

is_lfs→eq : (x : Sort) → is_lfs x ≡ true → x ≡ to_lfs
is_lfs→eq to_lfs h = refl
is_lfs→eq _ h = cc

is_normal→eq : (x : Sort) → is_normal x ≡ true → x ≡ to_normal
is_normal→eq to_normal h = refl
is_normal→eq _ h = cc

-- the three lists of the first pass hold every file once
length-select_sort :
    (cfg : LfsConfig) (p : Target → Bool) (ts : List Target)
    → length (keep p (select_sort cfg is_lfs ts))
        + length (keep p (select_sort cfg is_normal ts))
        + length (keep p (select_sort cfg is_ambiguous ts))
      ≡ length (keep p ts)
unfolding select_sort
length-select_sort cfg p [] = refl
length-select_sort cfg p (t ∷ ts) = ground (arith, length-select_sort cfg p ts)

keep-append : (p : Target → Bool) (xs ys : List Target) → keep p (xs ++ ys) ≡ keep p xs ++ keep p ys
keep-append p [] ys = refl
keep-append p (x ∷ xs) ys = ground (arith, keep-append p xs ys)

module _ (size_of : P4FileAction → Option ℕ) (read_head : P4FileAction → Option (List ℕ))
    (cfg : LfsConfig) where
  abbrev Routed : Bool → List Target → Type 0
  Routed b = All (λ t. goes_to_lfs size_of read_head cfg t ≡ b)

  -- the first pass decides as the rule does
  sorted_to_lfs : (t : Target) → sort_of cfg t ≡ to_lfs → goes_to_lfs size_of read_head cfg t ≡ true
  unfolding decide_lfs_route
  sorted_to_lfs t h = ground arith

  sorted_to_normal :
      (t : Target) → sort_of cfg t ≡ to_normal → goes_to_lfs size_of read_head cfg t ≡ false
  unfolding decide_lfs_route
  sorted_to_normal t h = ground arith

  select_sort-Routed_lfs : (ts : List Target) → Routed true (select_sort cfg is_lfs ts)
  unfolding select_sort
  select_sort-Routed_lfs [] = tt
  select_sort-Routed_lfs (t ∷ ts) = elim (Bool-cases (is_lfs (sort_of cfg t))) [
    | inl e ↦ rw e (sorted_to_lfs t (is_lfs→eq _ e), select_sort-Routed_lfs ts)
    | inr e ↦ rw e (select_sort-Routed_lfs ts)
  ]

  select_sort-Routed_normal : (ts : List Target) → Routed false (select_sort cfg is_normal ts)
  unfolding select_sort
  select_sort-Routed_normal [] = tt
  select_sort-Routed_normal (t ∷ ts) = elim (Bool-cases (is_normal (sort_of cfg t))) [
    | inl e ↦ rw e (sorted_to_normal t (is_normal→eq _ e), select_sort-Routed_normal ts)
    | inr e ↦ rw e (select_sort-Routed_normal ts)
  ]

  -- Two lists of files rightly routed, with a given number of files of each kind in all.
  abbrev pub RightlySplit : ((Target → Bool) → ℕ) → List Target × List Target → Type 0
  RightlySplit n (lfs, normal) =
      Routed true lfs
      × Routed false normal
      × ((p : Target → Bool) → length (keep p lfs) + length (keep p normal) ≡ n p)

  length-keep-snoc :
      (p : Target → Bool) (ts : List Target) (t : Target)
      → length (keep p (ts ++ (t ∷ []))) ≡ length (keep p ts) + length (keep p (t ∷ []))
  length-keep-snoc p ts t = rw keep-append (length-append (keep p ts) (keep p (t ∷ [])))

  route_lem :
      (ts lfs normal : List Target) (n : (Target → Bool) → ℕ)
      → RightlySplit n (lfs, normal)
      → RightlySplit (λ p. length (keep p ts) + n p) (route size_of read_head cfg ts lfs normal)
  unfolding route
  route_lem [] lfs normal n h = (h.0, h.1, λ p. omega (arith, h.2 p))
  route_lem (t ∷ ts) lfs normal n h = elim (Bool-cases (goes_to_lfs size_of read_head cfg t)) [
    | inl e ↦
        let ih =
          route_lem ts (lfs ++ (t ∷ [])) normal (λ p. length (keep p (t ∷ [])) + n p)
            (
              All-append _ lfs (t ∷ []) h.0 (e, tt),
              h.1,
              λ p. omega (arith, length-keep-snoc p lfs t, h.2 p),
            ) in
        rw (e, route) (ih.0, ih.1, λ p. ground (arith, ih.2 p))
    | inr e ↦
        let ih =
          route_lem ts lfs (normal ++ (t ∷ [])) (λ p. length (keep p (t ∷ [])) + n p)
            (
              h.0,
              All-append _ normal (t ∷ []) h.1 (e, tt),
              λ p. omega (arith, length-keep-snoc p normal t, h.2 p),
            ) in
        rw (e, route) (ih.0, ih.1, λ p. ground (arith, ih.2 p))
  ]

  -- The partition of a changelist's files sends each where the rule for one file sends it, given
  -- its size and, if its type is unknown, its head; and it loses and repeats none: of the files of
  -- any kind, the two lists hold together as many as the changelist.
  pub partition_for_lfs_lem :
      (actions : List Target)
      → RightlySplit
          (λ p. length (keep p actions))
          (partition_for_lfs size_of read_head cfg actions)
  unfolding partition_for_lfs
  partition_for_lfs_lem actions =
      let r =
        route_lem (select_sort cfg is_ambiguous actions) (select_sort cfg is_lfs actions)
          (select_sort cfg is_normal actions)
          (λ p.
            length (keep p (select_sort cfg is_lfs actions))
            + length (keep p (select_sort cfg is_normal actions)))
          (select_sort-Routed_lfs actions, select_sort-Routed_normal actions, λ p. refl) in
      (r.0, r.1, λ p. omega (arith, r.2 p, length-select_sort cfg p actions))
