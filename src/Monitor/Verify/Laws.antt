-- ===== src/Monitor/Verify/Laws.antt =====
-- What a comparison finds, over any number of connections, and what a verification passes over.
use p4sync_git.Prelude.{
  is_some, ℕ, zero, suc, ◌-◌, ◌≡◌, refl, ap, ◌∙◌, inl, inr, min, max, Bool, false, ◌&&◌, Bool-cases,
  Option, none, some, List, [], ◌∷◌, arith, length, keep, if◌then◌else◌, any, is_empty, ltb,
}
use p4sync_git.Text.{Str, str_eq}
use p4sync_git.Text.Laws.{str_eq_refl}
use p4sync_git.Exec.{Result, ok}
use p4sync_git.Import.Tree.Order.{count, count-append}
use p4sync_git.Perforce.Head.{HeadServer}
use p4sync_git.Monitor.Breaker.{IntegrityResult}
use p4sync_git.Monitor.Verify.{Checker, classify}
use p4sync_git.Monitor.Verify.Run.{
  slice_from, is_err, merge, gather_results, clients, work_each, compare_parallel, dispatch,
  compare_files, result_of,
}
use p4sync_git.Monitor.Verify.Slices.{sum_of, sum_from, sum_from-slice_from}
use p4sync_git.Monitor.Verify.Verdicts.{
  Heads, IsReporting, own_verdict, is_counted, is_named, is_true, one_if, both, weight, naming,
  verify_slice_lem, classify_checked, classify_named,
}
use p4sync_git.Monitor.Verify.Reference.{verdict_on, is_checked, is_wrong, own_verdict_lem}

-- the clients from the `i`-th on
abbrev client_list : (ℕ → HeadServer) → ℕ → ℕ → List HeadServer
client_list client zero i = []
client_list client (suc k) i = client i ∷ client_list client k (suc i)

clients_lem :
    (create_client : ℕ → Result HeadServer) (client : ℕ → HeadServer)
    → ((i : ℕ) → create_client i ≡ ok (client i))
    → (k i : ℕ) → clients create_client k i ≡ ok (client_list client k i)
unfolding clients
clients_lem create_client client h zero i = refl
clients_lem create_client client h (suc k) i =
    rw (h i, clients_lem create_client client h k (suc i)) refl

module _ (c : Checker) (heads : Heads) where
  -- a tally that counts every file of the list that is checked, and names those that differ
  pub record IsTally (gs : List Str) (t : ℕ × List Str) : Type 0 where
    pub checked : t.0 ≡ sum_of (weight c heads) gs
    pub names : (x : Str) → count x t.1 ≡ sum_of (naming c heads x) gs

  slice-IsTally : (gs : List Str) → IsTally gs (both c heads (classify c gs))
  slice-IsTally gs = record {
    checked = classify_checked c heads gs;
    names = λ x. classify_named c heads x gs;
  }

  module _ (client : ℕ → HeadServer) (r : (i : ℕ) → IsReporting heads (client i)) where
    work_each_checked :
        (m : ℕ) (gs : List Str) (k i : ℕ)
        → let rs = work_each c m i gs (client_list client k i) in
          (any is_err rs ≡ false)
          × ((merge rs).0 ≡ sum_from (λ i. sum_of (weight c heads) (slice_from m i gs)) i k)
          × ((x : Str)
              → count x (merge rs).1
                ≡ sum_from (λ i. sum_of (naming c heads x) (slice_from m i gs)) i k)
    unfolding work_each
    work_each_checked m gs zero i = (refl, refl, λ x. refl)
    work_each_checked m gs (suc k) i =
        let (e, n, ms) = work_each_checked m gs k (suc i) in
        let part = slice_from m i gs in
        let t = both c heads (classify c part) in
        rw (verify_slice_lem c heads (client i) (r i) part) (
          e,
          omega (arith, n, classify_checked c heads part),
          λ x. omega (
            arith,
            ms x,
            classify_named c heads x part,
            count-append x t.1 (merge (work_each c m (suc i) gs (client_list client k (suc i)))).1,
          ),
        )

    compare_parallel_lem :
        (create_client : ℕ → Result HeadServer)
        → ((i : ℕ) → create_client i ≡ ok (client i))
        → (g : Str) (gs : List Str)
        → (t : ℕ × List Str) × (compare_parallel c create_client (g ∷ gs) ≡ ok t)
          × IsTally (g ∷ gs) t
    unfolding compare_parallel gather_results
    compare_parallel_lem create_client h g gs =
        let n = min (max 1 c.max_workers) (suc (length gs)) in
        let some_worker : n ≡ suc (n - 1) = omega arith in
        let (e, checked, names) = work_each_checked (n - 1) (g ∷ gs) n 0 in
        let t = merge (work_each c (n - 1) 0 (g ∷ gs) (client_list client n 0)) in
        rw (clients_lem create_client client h n 0, e)
          (
            t,
            refl,
            record {
              checked =
                  checked
                  ∙ ap (sum_from (λ i. sum_of (weight c heads) (slice_from (n - 1) i (g ∷ gs))) 0)
                      some_worker
                  ∙ sum_from-slice_from (weight c heads) (n - 1) (g ∷ gs);
              names = λ x.
                  names x
                  ∙ ap (sum_from (λ i. sum_of (naming c heads x) (slice_from (n - 1) i (g ∷ gs))) 0)
                      some_worker
                  ∙ sum_from-slice_from (naming c heads x) (n - 1) (g ∷ gs);
            },
          )

  dispatch_lem :
      (client : ℕ → HeadServer)
      → IsReporting heads c.p4
      → ((i : ℕ) → IsReporting heads (client i))
      → (o : Option (ℕ → Result HeadServer))
      → ((create : ℕ → Result HeadServer) → o ≡ some create → (i : ℕ) → create i ≡ ok (client i))
      → (gs : List Str) → (t : ℕ × List Str) × (dispatch c o gs ≡ ok t) × IsTally gs t
  unfolding dispatch
  dispatch_lem client own r none h gs =
      (both c heads (classify c gs), verify_slice_lem c heads c.p4 own gs, slice-IsTally gs)
  dispatch_lem client own r (some create) h [] = elim (Bool-cases (ltb 1 (max 1 c.max_workers))) [
    | inl e ↦
        rw e (both c heads (classify c []), verify_slice_lem c heads c.p4 own [], slice-IsTally [])
    | inr e ↦
        rw e (both c heads (classify c []), verify_slice_lem c heads c.p4 own [], slice-IsTally [])
  ]
  dispatch_lem client own r (some create) h (g ∷ gs) =
      elim (Bool-cases (ltb 1 (max 1 c.max_workers) && ltb 1 (length (g ∷ gs)))) [
        | inl e ↦ rw e (compare_parallel_lem client r create (h create refl) g gs)
        | inr e ↦ rw e (
          both c heads (classify c (g ∷ gs)),
          verify_slice_lem c heads c.p4 own (g ∷ gs),
          slice-IsTally (g ∷ gs),
        )
      ]

sum_of-keep : (p : Str → Bool) (gs : List Str) → sum_of (λ g. one_if (p g)) gs ≡ length (keep p gs)
sum_of-keep p [] = refl
sum_of-keep p (g ∷ gs) = ground (arith, sum_of-keep p gs)

sum_of-count :
    (p : Str → Bool) (x : Str) (gs : List Str)
    → sum_of (λ g. if p g then one_if (str_eq g x) else 0) gs ≡ count x (keep p gs)
sum_of-count p x [] = refl
sum_of-count p x (g ∷ gs) = ground (arith, sum_of-count p x gs)

same-is_empty :
    (xs ys : List Str) → ((x : Str) → count x xs ≡ count x ys) → is_empty xs ≡ is_empty ys
same-is_empty [] [] h = refl
same-is_empty (x ∷ xs) (y ∷ ys) h = refl
same-is_empty [] (y ∷ ys) h = absurd (ground (arith, h y, str_eq_refl y))
same-is_empty (x ∷ xs) [] h = absurd (ground (arith, h x, str_eq_refl x))

-- If the connection of the checker and those of its workers are made and report the heads of P4, a
-- comparison returns, with any number of workers: it counts the files that can be compared and names,
-- as often as they are given, the wrong ones: those with another digest or size than in P4, and those
-- whose LFS object is missing from the store; it passes just if there are none.
pub compare_files_lem :
    (c : Checker) (heads : Heads) (client : ℕ → HeadServer)
    → IsReporting heads c.p4
    → ((i : ℕ) → IsReporting heads (client i))
    → ((create : ℕ → Result HeadServer)
        → c.create_client ≡ some create
        → (i : ℕ) → create i ≡ ok (client i))
    → (gs : List Str)
    → (r : IntegrityResult) × (compare_files c gs ≡ ok r)
      × (r.checked_files ≡ length (keep (is_checked c heads) gs))
      × ((x : Str) → count x r.mismatched_files ≡ count x (keep (is_wrong c heads) gs))
      × (r.passed ≡ is_empty (keep (is_wrong c heads) gs))
unfolding compare_files
compare_files_lem c heads client own r h gs =
    let (t, e, tally) = dispatch_lem c heads client own r c.create_client h gs in
    let same : own_verdict c heads ≡ verdict_on c heads = λ i g. own_verdict_lem c heads g i in
    let named : (x : Str) → count x t.1 ≡ count x (keep (is_wrong c heads) gs) = λ x.
      tally.names x
      ∙ sum_of-count (is_named c heads) x gs
      ∙ ap (λ (v : Str → Option Bool). count x (keep (λ g. is_true (v g)) gs)) same in
    rw e (
      result_of t,
      refl,
      tally.checked
          ∙ sum_of-keep (is_counted c heads) gs
          ∙ ap (λ (v : Str → Option Bool). length (keep (λ g. is_some (v g)) gs)) same,
      named,
      same-is_empty t.1 (keep (is_wrong c heads) gs) named,
    )
