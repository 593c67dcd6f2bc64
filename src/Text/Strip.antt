-- ===== src/Text/Strip.antt =====
-- `s.lstrip()`, `s.rstrip()` and `s.strip()`.
use p4sync_git.Prelude.{[], ◌∷◌, if◌then◌else◌, ℕ}
use p4sync_git.Text.{Str, is_space}

-- `\s*`
unfoldable pub skip_spaces : Str → Str
skip_spaces [] = []
skip_spaces (c ∷ s) = if is_space c then skip_spaces s else c ∷ s

-- `s.strip()`
abbrev pub snoc_unless_space : ℕ → Str → Str
snoc_unless_space c [] = if is_space c then [] else c ∷ []
snoc_unless_space c (d ∷ s) = c ∷ d ∷ s

unfoldable pub rstrip : Str → Str
rstrip [] = []
rstrip (c ∷ s) = snoc_unless_space c (rstrip s)

unfoldable pub strip_spaces : Str → Str
unfolding rstrip skip_spaces
strip_spaces s = rstrip (skip_spaces s)
