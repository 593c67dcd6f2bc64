-- ===== src/Sql/Laws.antt =====
-- What a query finds after a statement, and that statements keep a primary key unique.
use mathlib.Core.Option
use p4sync_git.Prelude.{
  ◌≡◌, refl, ◌↔◌, Bool, true, false, List, [], ◌∷◌, Option, none, some, arith, if◌then◌else◌,
}
use p4sync_git.Sql.{fetch_one, upsert, update_where, delete_where}

module _ {ℓ} {A : Type ℓ} where
  -- the row that an upsert leaves, from the one that it found
  abbrev pub upserted : (A → A) → A → Option A → A
  upserted change r none = r
  upserted change r (some x) = change x

  -- The row of the key is the one changed, or the new one.
  pub fetch_one-upsert_self :
      (p : A → Bool) (change : A → A) (r : A) (rs : List A)
      → p r ≡ true
      → ((x : A) → p x ≡ true → p (change x) ≡ true)
      → fetch_one p (upsert p change r rs) ≡ some (upserted change r (fetch_one p rs))
  unfolding fetch_one upsert
  fetch_one-upsert_self p change r [] h k = ground arith
  fetch_one-upsert_self p change r (x ∷ rs) h k =
      ground (arith, k x, fetch_one-upsert_self p change r rs h k)

  -- A query that no row of the key meets finds what it found.
  pub fetch_one-upsert_ne :
      (q p : A → Bool) (change : A → A) (r : A) (rs : List A)
      → q r ≡ false
      → ((x : A) → p x ≡ true → (q x ≡ false) × (q (change x) ≡ false))
      → fetch_one q (upsert p change r rs) ≡ fetch_one q rs
  unfolding fetch_one upsert
  fetch_one-upsert_ne q p change r [] h k = ground arith
  fetch_one-upsert_ne q p change r (x ∷ rs) h k =
      ground (arith, k x, fetch_one-upsert_ne q p change r rs h k)

  pub fetch_one-eq-some :
      (p : A → Bool) (rs : List A) (r : A) → fetch_one p rs ≡ some r → p r ≡ true
  unfolding fetch_one
  fetch_one-eq-some p [] r h = ground arith
  fetch_one-eq-some p (x ∷ rs) r h = ground (arith, fetch_one-eq-some p rs r)

-- A table by its primary key, whose equality is a test of the queries.
module _ {ℓ κ} {A : Type ℓ} {K : Type κ} (same : K → K → Bool)
    (same_iff : (a b : K) → (same a b ≡ true) ↔ (a ≡ b)) (key : A → K) where
  -- A query by key, after an upsert by key.
  pub fetch_one-upsert :
      (k j : K) (change : A → A) (r : A) (rs : List A)
      → key r ≡ k
      → ((x : A) → key (change x) ≡ key x)
      → fetch_one (λ x. same (key x) j) (upsert (λ x. same (key x) k) change r rs) ≡ (
          if same k j
          then some (upserted change r (fetch_one (λ x. same (key x) k) rs))
          else fetch_one (λ x. same (key x) j) rs)
  unfolding fetch_one upsert
  fetch_one-upsert k j change r [] e keeps = ground (arith, same_iff (key r) j, same_iff k j)
  fetch_one-upsert k j change r (x ∷ rs) e keeps = ground (
    arith,
    keeps x,
    same_iff (key x) k,
    same_iff (key x) j,
    same_iff (key (change x)) j,
    same_iff k j,
    fetch_one-upsert k j change r rs e keeps,
  )

  -- No two rows have the same key.
  abbrev pub HasUniqueKeys : List A → Type ℓ
  HasUniqueKeys [] = Unit
  HasUniqueKeys (r ∷ rs) = (fetch_one (λ x. same (key x) (key r)) rs ≡ none) × HasUniqueKeys rs

  pub upsert-HasUniqueKeys :
      (k : K) (change : A → A) (r : A) (rs : List A)
      → key r ≡ k
      → ((x : A) → key (change x) ≡ key x)
      → HasUniqueKeys rs
      → HasUniqueKeys (upsert (λ x. same (key x) k) change r rs)
  unfolding fetch_one upsert
  upsert-HasUniqueKeys k change r [] e keeps u = (refl, tt)
  upsert-HasUniqueKeys k change r (x ∷ rs) e keeps u = ground (
    arith,
    keeps x,
    same_iff (key x) k,
    same_iff k (key x),
    fetch_one-upsert k (key x) change r rs e keeps,
    upsert-HasUniqueKeys k change r rs e keeps u.1,
  )

  pub fetch_one-update_where :
      (j : K) (p : A → Bool) (change : A → A) (rs : List A)
      → ((x : A) → key (change x) ≡ key x)
      → fetch_one (λ x. same (key x) j) (update_where p change rs)
        ≡ Option.map (λ x. if p x then change x else x) (fetch_one (λ x. same (key x) j) rs)
  unfolding fetch_one update_where
  fetch_one-update_where j p change [] keeps = refl
  fetch_one-update_where j p change (x ∷ rs) keeps =
      ground (arith, keeps x, fetch_one-update_where j p change rs keeps)

  pub update_where-HasUniqueKeys :
      (p : A → Bool) (change : A → A) (rs : List A)
      → ((x : A) → key (change x) ≡ key x)
      → HasUniqueKeys rs
      → HasUniqueKeys (update_where p change rs)
  unfolding update_where
  update_where-HasUniqueKeys p change [] keeps u = tt
  update_where-HasUniqueKeys p change (x ∷ rs) keeps u = ground (
    arith,
    keeps x,
    fetch_one-update_where (key x) p change rs keeps,
    update_where-HasUniqueKeys p change rs keeps u.1,
  )

  -- Where the keys are unique, a row is found after a deletion if it is there and was not deleted.
  abbrev pub unless_deleted : (A → Bool) → Option A → Option A
  unless_deleted p none = none
  unless_deleted p (some x) = if p x then none else some x

  pub fetch_one-delete_where :
      (j : K) (p : A → Bool) (rs : List A)
      → HasUniqueKeys rs
      → fetch_one (λ x. same (key x) j) (delete_where p rs)
        ≡ unless_deleted p (fetch_one (λ x. same (key x) j) rs)
  unfolding fetch_one delete_where
  fetch_one-delete_where j p [] u = refl
  fetch_one-delete_where j p (x ∷ rs) u =
      ground (arith, same_iff (key x) j, fetch_one-delete_where j p rs u.1)

  pub delete_where-HasUniqueKeys :
      (p : A → Bool) (rs : List A) → HasUniqueKeys rs → HasUniqueKeys (delete_where p rs)
  unfolding delete_where
  delete_where-HasUniqueKeys p [] u = tt
  delete_where-HasUniqueKeys p (x ∷ rs) u =
      ground (arith, fetch_one-delete_where (key x) p rs u.1, delete_where-HasUniqueKeys p rs u.1)
