-- ===== src/Sql.antt =====
-- The SQL statements that state/state_store.py executes, on a table as the list of its rows.
pub mod Laws
pub mod Sort
use p4sync_git.Prelude.{Bool, true, false, List, [], ◌∷◌, Option, none, some, if◌then◌else◌}

module _ {ℓ} {A : Type ℓ} where
  -- SELECT ... WHERE p, and `fetchone`: the first row, in the order of the table.
  unfoldable pub fetch_one : (A → Bool) → List A → Option A
  fetch_one p [] = none
  fetch_one p (r ∷ rs) = if p r then some r else fetch_one p rs

  -- INSERT r ... ON CONFLICT DO UPDATE SET: the row in conflict is changed in its place.
  unfoldable pub upsert : (A → Bool) → (A → A) → A → List A → List A
  upsert conflict change r [] = r ∷ []
  upsert conflict change r (x ∷ rs) =
      if conflict x then change x ∷ rs else x ∷ upsert conflict change r rs

  -- UPDATE ... SET ... WHERE p
  unfoldable pub update_where : (A → Bool) → (A → A) → List A → List A
  update_where p change [] = []
  update_where p change (r ∷ rs) = (if p r then change r else r) ∷ update_where p change rs

  -- DELETE ... WHERE p
  unfoldable pub delete_where : (A → Bool) → List A → List A
  delete_where p [] = []
  delete_where p (r ∷ rs) = let rest = delete_where p rs in if p r then rest else r ∷ rest

  -- SELECT ... WHERE p, all rows
  unfoldable pub select_where : (A → Bool) → List A → List A
  select_where p [] = []
  select_where p (r ∷ rs) = let rest = select_where p rs in if p r then r ∷ rest else rest
