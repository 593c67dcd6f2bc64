-- ===== src/Git/FileMode/Laws.antt =====
-- The modes that Git knows.
use p4sync_git.Prelude.{◌≡◌, refl, ◌⊎◌, inr, true, false, [], ◌∷◌, arith}
use p4sync_git.Text.{Str, codes, has_substring, lower}
use p4sync_git.Git.FileMode.{git_mode_file, git_mode_exec, git_mode_symlink, git_mode_from_p4_type}

-- Every P4 type has one of the three modes, and has that of a link exactly if it names a symlink.
pub git_mode_from_p4_type_lem :
    (t : Str)
    → (has_substring (codes "symlink") (lower t) ≡ true
        → git_mode_from_p4_type t ≡ git_mode_symlink)
      × (has_substring (codes "symlink") (lower t) ≡ false
          → (git_mode_from_p4_type t ≡ git_mode_exec) ⊎ (git_mode_from_p4_type t ≡ git_mode_file))
unfolding git_mode_from_p4_type has_substring
git_mode_from_p4_type_lem [] = (λ h. cc, λ h. inr refl)
git_mode_from_p4_type_lem (c ∷ t) = ground arith
