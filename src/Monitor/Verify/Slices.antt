-- ===== src/Monitor/Verify/Slices.antt =====
-- The slices `git_paths[i::n]` that the workers get, for all `i` below `n`, hold every file once.
use p4sync_git.Prelude.{ℕ, zero, suc, ◌+◌, ◌≡◌, refl, List, [], ◌∷◌, arith, ap}
use p4sync_git.Text.{Str}
use p4sync_git.Monitor.Verify.Run.{slice_from}

abbrev pub sum_of : (Str → ℕ) → List Str → ℕ
sum_of w [] = 0
sum_of w (x ∷ xs) = w x + sum_of w xs

-- `f i + f (i + 1) + ...`, `k` of them
abbrev pub sum_from : (ℕ → ℕ) → ℕ → ℕ → ℕ
sum_from f i zero = 0
sum_from f i (suc k) = f i + sum_from f (suc i) k

sum_from-shift :
    (f g : ℕ → ℕ) → ((i : ℕ) → f (suc i) ≡ g i) → (i k : ℕ) → sum_from f (suc i) k ≡ sum_from g i k
sum_from-shift f g h i zero = refl
sum_from-shift f g h i (suc k) = omega (arith, h i, sum_from-shift f g h (suc i) k)

sum_from-snoc : (f : ℕ → ℕ) (i k : ℕ) → sum_from f i (suc k) ≡ sum_from f i k + f (k + i)
sum_from-snoc f i zero = let same : zero + i ≡ i = omega arith in omega (arith, ap f same)
sum_from-snoc f i (suc k) =
    let same : k + suc i ≡ suc k + i = omega arith in
    omega (arith, sum_from-snoc f (suc i) k, ap f same)

sum_from-zero : (f : ℕ → ℕ) → ((i : ℕ) → f i ≡ 0) → (i k : ℕ) → sum_from f i k ≡ 0
sum_from-zero f h i zero = refl
sum_from-zero f h i (suc k) = omega (arith, h i, sum_from-zero f h (suc i) k)

pub sum_from-slice_from :
    (w : Str → ℕ) (m : ℕ) (xs : List Str)
    → sum_from (λ i. sum_of w (slice_from m i xs)) 0 (suc m) ≡ sum_of w xs
unfolding slice_from
sum_from-slice_from w m [] = sum_from-zero (λ i. sum_of w (slice_from m i [])) (λ i. refl) 0 (suc m)
sum_from-slice_from w m (x ∷ xs) =
    let f : ℕ → ℕ = λ i. sum_of w (slice_from m i (x ∷ xs)) in
    let g : ℕ → ℕ = λ i. sum_of w (slice_from m i xs) in
    let end : m + 0 ≡ m = omega arith in
    let rest = sum_from-slice_from w m xs in
    omega (arith, sum_from-shift f g (λ i. refl) 0 m, sum_from-snoc g 0 m, ap g end, rest)
