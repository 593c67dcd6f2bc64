-- ===== src/Perforce/Change.antt =====
-- p4/p4_file_action.py, p4/p4_change_info.py and errors.py. A description of a file carries the
-- size that `fill_sizes` may fill in.
use p4sync_git.Prelude.{ℕ, Option, List, [], ◌∷◌}
use p4sync_git.Text.{Str, codes}

pub record P4FileAction : Type 0 where
  pub depot_path : Str
  pub action : Str
  pub file_type : Str
  pub revision : ℕ
  pub size : Option ℕ

pub record P4ChangeInfo : Type 0 where
  pub changelist : ℕ
  pub user : Str
  pub description : Str
  pub timestamp : ℕ
  pub files : List P4FileAction
  pub workspace : Str

abbrev pub delete_actions : List Str
delete_actions = codes "delete" ∷ codes "move/delete" ∷ codes "purge" ∷ []

abbrev pub add_edit_actions : List Str
add_edit_actions =
    codes "add" ∷ codes "edit" ∷ codes "branch" ∷ codes "integrate" ∷ codes "move/add" ∷ []

abbrev pub integration_actions : List Str
integration_actions = codes "integrate" ∷ codes "branch" ∷ codes "copy" ∷ codes "merge" ∷ []
