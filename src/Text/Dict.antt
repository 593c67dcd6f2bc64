-- ===== src/Text/Dict.antt =====
-- Python dictionaries with texts as keys: the pairs in the order in which their keys were first set.
pub mod Laws
use p4sync_git.Prelude.{Bool, Option, none, some, List, [], ◌∷◌, if◌then◌else◌}
use p4sync_git.Text.{Str, str_eq}

abbrev pub Dict {ℓ} : Type ℓ → Type ℓ
Dict A = List (Str × A)

module _ {ℓ} {A : Type ℓ} where
  -- `d.get(k)`
  unfoldable pub dict_get : Str → Dict A → Option A
  dict_get k [] = none
  dict_get k ((j, v) ∷ d) = if str_eq j k then some v else dict_get k d

  -- `d[k] = v`
  unfoldable pub dict_set : Str → A → Dict A → Dict A
  dict_set k v [] = (k, v) ∷ []
  dict_set k v ((j, w) ∷ d) = if str_eq j k then (j, v) ∷ d else (j, w) ∷ dict_set k v d

  -- `d.pop(k, None)`; a key that is set twice, which `dict_set` never makes, is removed altogether
  unfoldable pub dict_pop : Str → Dict A → Dict A
  dict_pop k [] = []
  dict_pop k ((j, w) ∷ d) = let rest = dict_pop k d in if str_eq j k then rest else (j, w) ∷ rest
