-- ===== src/Text/Dict/Laws.antt =====
-- A dictionary after an update.
use p4sync_git.Prelude.{◌≡◌, none, some, [], ◌∷◌, arith, if◌then◌else◌}
use p4sync_git.Text.{Str, str_eq}
use p4sync_git.Text.Laws.{str_eq_iff}
use p4sync_git.Text.Dict.{Dict, dict_get, dict_set, dict_pop}

module _ {ℓ} {A : Type ℓ} where
  pub dict_get-dict_set :
      (j k : Str) (v : A) (d : Dict A)
      → dict_get j (dict_set k v d) ≡ (if str_eq k j then some v else dict_get j d)
  unfolding dict_get dict_set
  dict_get-dict_set j k v [] = ground arith
  dict_get-dict_set j k v ((i, w) ∷ d) =
      ground (arith, dict_get-dict_set j k v d, str_eq_iff i k, str_eq_iff i j, str_eq_iff k j)

  pub dict_get-dict_pop :
      (j k : Str) (d : Dict A)
      → dict_get j (dict_pop k d) ≡ (if str_eq k j then none else dict_get j d)
  unfolding dict_get dict_pop
  dict_get-dict_pop j k [] = ground arith
  dict_get-dict_pop j k ((i, w) ∷ d) =
      ground (arith, dict_get-dict_pop j k d, str_eq_iff i k, str_eq_iff i j, str_eq_iff k j)
