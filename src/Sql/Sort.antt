-- ===== src/Sql/Sort.antt =====
-- Sorting by a key, as `ORDER BY` and Python's stable `list.sort` do.
use p4sync_git.Prelude.{
  ◌≡◌, refl, Bool, true, false, List, [], ◌∷◌, arith, if◌then◌else◌, keep, All, length, Bool-cases,
  inl, inr, suc, ◌∙◌,
}

module _ {ℓ} {A : Type ℓ} (leq : A → A → Bool) where
  unfoldable pub insert_by : A → List A → List A
  insert_by x [] = x ∷ []
  insert_by x (y ∷ ys) = if leq x y then x ∷ y ∷ ys else y ∷ insert_by x ys

  unfoldable pub sort_by : List A → List A
  unfolding insert_by
  sort_by [] = []
  sort_by (x ∷ xs) = insert_by x (sort_by xs)

  -- Each element comes before all that follow it.
  abbrev pub IsSorted : List A → Type ℓ
  IsSorted [] = Unit
  IsSorted (x ∷ xs) = All (λ y. leq x y ≡ true) xs × IsSorted xs

  -- The order is transitive and total.
  pub record IsOrder : Type ℓ where
    pub trans : (x y z : A) → leq x y ≡ true → leq y z ≡ true → leq x z ≡ true
    pub total : (x y : A) → leq x y ≡ false → leq y x ≡ true

  All-trans :
      (o : IsOrder) (x y : A) (zs : List A)
      → leq x y ≡ true
      → All (λ z. leq y z ≡ true) zs
      → All (λ z. leq x z ≡ true) zs
  All-trans o x y [] h a = tt
  All-trans o x y (z ∷ zs) h a = (o.trans x y z h a.0, All-trans o x y zs h a.1)

  All-insert_by :
      (x y : A) (zs : List A)
      → leq x y ≡ true
      → All (λ z. leq x z ≡ true) zs
      → All (λ z. leq x z ≡ true) (insert_by y zs)
  unfolding insert_by
  All-insert_by x y [] h a = (h, tt)
  All-insert_by x y (z ∷ zs) h a = ground (arith, All-insert_by x y zs h a.1)

  insert_by-IsSorted : (o : IsOrder) (x : A) (ys : List A) → IsSorted ys → IsSorted (insert_by x ys)
  unfolding insert_by
  insert_by-IsSorted o x [] s = (tt, tt)
  insert_by-IsSorted o x (y ∷ ys) s = elim (Bool-cases (leq x y)) [
    | inl h ↦ rw h ((h, All-trans o x y ys h s.0), s)
    | inr h ↦ rw h (All-insert_by y x ys (o.total x y h) s.0, insert_by-IsSorted o x ys s.1)
  ]

  pub sort_by-IsSorted : (o : IsOrder) (xs : List A) → IsSorted (sort_by xs)
  unfolding sort_by
  sort_by-IsSorted o [] = tt
  sort_by-IsSorted o (x ∷ xs) = insert_by-IsSorted o x (sort_by xs) (sort_by-IsSorted o xs)

  keep-insert_by :
      (p : A → Bool) (x : A) (ys : List A)
      → ((a b : A) → p a ≡ true → p b ≡ true → leq a b ≡ true)
      → keep p (insert_by x ys) ≡ keep p (x ∷ ys)
  unfolding insert_by
  keep-insert_by p x [] k = refl
  keep-insert_by p x (y ∷ ys) k = ground (arith, k x y, keep-insert_by p x ys k)

  -- Sorting moves nothing past its equals, and loses and adds nothing: what one class of equals
  -- holds, in its order, is what it held.
  pub keep-sort_by :
      (p : A → Bool) (xs : List A)
      → ((a b : A) → p a ≡ true → p b ≡ true → leq a b ≡ true)
      → keep p (sort_by xs) ≡ keep p xs
  unfolding sort_by
  keep-sort_by p [] k = refl
  keep-sort_by p (x ∷ xs) k =
      keep-insert_by p x (sort_by xs) k ∙ ground (arith, keep-sort_by p xs k)

  length-insert_by : (x : A) (ys : List A) → length (insert_by x ys) ≡ suc (length ys)
  unfolding insert_by
  length-insert_by x [] = refl
  length-insert_by x (y ∷ ys) = ground (arith, length-insert_by x ys)

  pub length-sort_by : (xs : List A) → length (sort_by xs) ≡ length xs
  unfolding sort_by
  length-sort_by [] = refl
  length-sort_by (x ∷ xs) = omega (arith, length-insert_by x (sort_by xs), length-sort_by xs)

  pub All-sort_by {κ} : (P : A → Type κ) (xs : List A) → All P xs → All P (sort_by xs)
  unfolding sort_by
  All-sort_by P [] h = tt
  All-sort_by P (x ∷ xs) h = go x (sort_by xs) h.0 (All-sort_by P xs h.1)
    where
      go : (y : A) (ys : List A) → P y → All P ys → All P (insert_by y ys)
      go y [] hy hys = (hy, tt)
      go y (z ∷ zs) hy hys = elim (Bool-cases (leq y z)) [
        | inl e ↦ rw e (hy, hys)
        | inr e ↦ rw e (hys.0, go y zs hy hys.1)
      ]
