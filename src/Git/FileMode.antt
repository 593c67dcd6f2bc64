-- ===== src/Git/FileMode.antt =====
-- git/file_mode.py
pub mod Laws
use p4sync_git.Prelude.{ℕ, Bool, ◌||◌, Option, none, some, List, [], ◌∷◌, if◌then◌else◌}
use p4sync_git.Text.{Str, codes, starts_with, has_substring, lower, before_char, after_char}

-- the octal modes 0o100644, 0o100755 and 0o120000
abbrev pub git_mode_file : ℕ
git_mode_file = 0o100644

abbrev pub git_mode_exec : ℕ
git_mode_exec = 0o100755

abbrev pub git_mode_symlink : ℕ
git_mode_symlink = 0o120000

unfoldable pub git_mode_from_p4_type : Str → ℕ
unfolding lower has_substring starts_with before_char after_char
git_mode_from_p4_type [] = git_mode_file
git_mode_from_p4_type (c ∷ file_type) =
    let ft = lower (c ∷ file_type) in
    if has_substring (codes "symlink") ft
    then git_mode_symlink
    else if starts_with (before_char b'+' ft) (codes "x")
        || has_substring (codes "x") (after_char b'+' ft)
    then git_mode_exec
    else git_mode_file

-- `(path, content)` or `(path, content, mode)`
pub record FileChange : Type 0 where
  pub path : Str
  pub content : List ℕ
  pub mode : Option ℕ

abbrev mode_or_file : Option ℕ → ℕ
mode_or_file none = git_mode_file
mode_or_file (some m) = m

unfoldable pub unpack_change : FileChange → Str × List ℕ × ℕ
unpack_change item = (item.path, item.content, mode_or_file item.mode)
