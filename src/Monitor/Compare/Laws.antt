-- ===== src/Monitor/Compare/Laws.antt =====
-- When an LFS file passes.
use p4sync_git.Prelude.{
  ℕ, ◌≡◌, ◌↔◌, refl, Bool, true, false, Option, none, some, arith, if◌then◌else◌,
}
use p4sync_git.Text.{Str}
use p4sync_git.Text.Laws.{str_eq_iff}
use p4sync_git.Monitor.Compare.{
  Verdict, matches, mismatch, is_missing, has_size, digest, compare_digests, decide_lfs,
}

compare_digests_iff :
    (a b : Option Str) → (compare_digests a b ≡ matches) ↔ ((d : Str) × (a ≡ some d) × (b ≡ some d))
compare_digests_iff none b = (λ h. ground (arith, h), λ h. ground (arith, h))
compare_digests_iff (some x) none =
    (λ h. ground (arith, h), λ h. let (d, p, q) = h in ground (arith, q))
compare_digests_iff (some x) (some y) = (
  λ h. (x, refl, ground (arith, h, str_eq_iff y x)),
  λ h. let (d, p, q) = h in ground (arith, p, q, str_eq_iff y x),
)

-- a verdict behind two tests
behind_tests :
    (missing sized : Bool) (v : Verdict) (P : Type 0)
    → (v ≡ matches) ↔ P
    → ((if missing then mismatch else if sized then v else mismatch) ≡ matches)
      ↔ ((missing ≡ false) × (sized ≡ true) × P)
behind_tests true sized v P k = (λ h. ground (arith, h), λ h. ground (arith, h.0))
behind_tests false true v P k = (λ h. (refl, refl, k.0 h), λ h. k.1 h.2)
behind_tests false false v P k = (λ h. ground (arith, h), λ h. ground (arith, h.1))

-- An LFS file matches exactly if its object is not known to be missing, its size is the one of the
-- pointer or not known, and both digests are known and equal up to case; a digest that is not known
-- never lets it pass.
pub decide_lfs-matches :
    (ptr_size : ℕ) (object_exists : Option Bool) (p4_size : Option ℕ)
    (p4_md5 local_md5 : Option Str)
    → (decide_lfs ptr_size object_exists p4_size p4_md5 local_md5 ≡ matches) ↔ (
        (is_missing object_exists ≡ false)
        × (has_size ptr_size p4_size ≡ true)
        × ((d : Str) × (digest p4_md5 ≡ some d) × (digest local_md5 ≡ some d)))
unfolding decide_lfs
decide_lfs-matches n o s a b =
    behind_tests (is_missing o) (has_size n s) (compare_digests (digest a) (digest b)) _
      (compare_digests_iff (digest a) (digest b))
