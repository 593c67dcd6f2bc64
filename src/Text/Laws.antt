-- ===== src/Text/Laws.antt =====
-- Equality, prefixes, and splitting against joining.
use p4sync_git.Prelude.{ℕ, ◌≡◌, refl, ◌↔◌, true, [], ◌∷◌, ◌++◌, arith, length, drop}
use p4sync_git.Text.{Str, str_eq, starts_with, split}

pub str_eq→eq : (s t : Str) → str_eq s t ≡ true → s ≡ t
unfolding str_eq
str_eq→eq [] [] h = refl
str_eq→eq [] (y ∷ ys) h = ground arith
str_eq→eq (x ∷ xs) [] h = ground arith
str_eq→eq (x ∷ xs) (y ∷ ys) h = ground (arith, str_eq→eq xs ys)

pub str_eq_refl : (s : Str) → str_eq s s ≡ true
unfolding str_eq
str_eq_refl [] = refl
str_eq_refl (x ∷ xs) = ground (arith, str_eq_refl xs)

pub str_eq_iff : (s t : Str) → (str_eq s t ≡ true) ↔ (s ≡ t)
str_eq_iff s t = (str_eq→eq s t, λ e. ground (arith, str_eq_refl s))

pub starts_with-append : (p s : Str) → starts_with (p ++ s) p ≡ true
unfolding starts_with
starts_with-append [] [] = refl
starts_with-append [] (c ∷ s) = refl
starts_with-append (c ∷ p) s = ground (arith, starts_with-append p s)

-- What starts with `p` is `p` and the rest of it.
pub append-drop : (s p : Str) → starts_with s p ≡ true → p ++ drop (length p) s ≡ s
unfolding starts_with
append-drop s [] h = refl
append-drop [] (p ∷ ps) h = ground arith
append-drop (c ∷ s) (p ∷ ps) h = ground (arith, append-drop s ps)

pub split-ne-nil : (sep : ℕ) (s : Str) → split sep s ≡ [] → ⊥
unfolding split
split-ne-nil sep [] h = cc
split-ne-nil sep (c ∷ s) h = ground (arith, split-ne-nil sep s)
