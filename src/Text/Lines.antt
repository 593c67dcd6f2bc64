-- ===== src/Text/Lines.antt =====
-- `s.splitlines()` and `s.split()`.
use p4sync_git.Prelude.{
  ℕ, Bool, false, not, ◌&&◌, ◌||◌, List, [], ◌∷◌, leb, ◌==◌, if◌then◌else◌, keep, is_empty,
}
use p4sync_git.Text.{Str, push_head, is_space}

abbrev pub is_line_end : ℕ → Bool
is_line_end c =
    (leb 10 c && leb c 13) || (leb 28 c && leb c 30) || (c == 133) || (c == 8232) || (c == 8233)

-- `cr`: the character before was a carriage return, with which a newline is one line end
unfoldable pub splitlines_from : Bool → Str → List Str
splitlines_from cr [] = []
splitlines_from cr (c ∷ s) =
    let rest = splitlines_from (c == 13) s in
    if cr && (c == 10) then rest else if is_line_end c then [] ∷ rest else push_head c rest

unfoldable pub splitlines : Str → List Str
unfolding splitlines_from
splitlines s = splitlines_from false s

unfoldable pub pieces : Str → List Str
pieces [] = [] ∷ []
pieces (c ∷ s) = let rest = pieces s in if is_space c then [] ∷ rest else push_head c rest

-- `s.split()`
unfoldable pub words : Str → List Str
unfolding pieces
words s = keep (λ w. not (is_empty w)) (pieces s)
