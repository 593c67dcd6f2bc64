-- ===== src/Import/Initial/Laws.antt =====
-- The chunks in which files are printed.
use p4sync_git.Prelude.{
  ℕ, zero, suc, ◌+◌, ◌≤◌, ◌<◌, ◌≡◌, refl, ap, ◌∙◌, List, [], ◌∷◌, ◌++◌, arith, length,
  length-append, All,
}
use mathlib.Core.List.{append_assoc}
use p4sync_git.Import.Initial.{chunks_from, chunks}

abbrev pub flatten : {A : Type 0} → List (List A) → List A
flatten [] = []
flatten (xs ∷ xss) = xs ++ flatten xss

flatten-chunks_from :
    {A : Type 0} (n k : ℕ) (cur xs : List A) → flatten (chunks_from n k cur xs) ≡ cur ++ xs
unfolding chunks_from
flatten-chunks_from n k [] [] = refl
flatten-chunks_from n k (c ∷ cur) [] = refl
flatten-chunks_from n zero cur (x ∷ xs) = ap (λ t. cur ++ t) (flatten-chunks_from n n (x ∷ []) xs)
flatten-chunks_from n (suc k) cur (x ∷ xs) =
    flatten-chunks_from n k (cur ++ (x ∷ [])) xs ∙ append_assoc cur (x ∷ []) xs

chunks_from-le :
    {A : Type 0} (n k : ℕ) (cur xs : List A)
    → k + length cur ≡ suc n
    → All (λ (c : List A). length c ≤ suc n) (chunks_from n k cur xs)
unfolding chunks_from
chunks_from-le n k [] [] h = tt
chunks_from-le n k (c ∷ cur) [] h = (omega (arith, h), tt)
chunks_from-le n zero cur (x ∷ xs) h =
    (omega (arith, h), chunks_from-le n n (x ∷ []) xs (omega arith))
chunks_from-le n (suc k) cur (x ∷ xs) h =
    chunks_from-le n k (cur ++ (x ∷ [])) xs (omega (arith, h, length-append cur (x ∷ [])))

-- Files printed in chunks of at most `n`, with `n` at least 1, are all of them, in their order, and
-- no chunk is larger.
pub chunks_bound :
    {A : Type 0} (n : ℕ) (xs : List A)
    → 0 < n
    → (flatten (chunks n xs) ≡ xs) × All (λ (c : List A). length c ≤ n) (chunks n xs)
unfolding chunks
chunks_bound zero xs h = absurd (omega arith)
chunks_bound (suc n) xs h =
    (flatten-chunks_from n (suc n) [] xs, chunks_from-le n (suc n) [] xs (omega arith))
