-- ===== src/Lfs/Pointer.antt =====
-- lfs/lfs_pointer_utils.py: the text that stands in Git for a large file. A decoded pointer is read
-- byte by byte, and `\d` is a digit of ASCII.
pub mod Laws
use p4sync_git.Prelude.{
  ℕ, Bool, true, ◌&&◌, Option, none, some, List, [], ◌∷◌, ◌++◌, ◌==◌, if◌then◌else◌, or_else,
  length, take, drop,
}
use p4sync_git.Text.{Str, codes, starts_with, is_digit, is_hex}
use p4sync_git.Text.Decimal.{show_nat, read_nat}
use p4sync_git.Exec.{Result, ok, err}

pub record LfsPointer : Type 0 where
  pub oid : Str
  pub size : ℕ
  pub pointer_bytes : Str

abbrev pub lfs_pointer_prefix : Str
lfs_pointer_prefix = codes "version https://git-lfs.github.com/spec/v1"

unfoldable pub format_lfs_pointer : Str → ℕ → Str
format_lfs_pointer oid size =
    codes "version https://git-lfs.github.com/spec/v1\noid sha256:"
    ++ (oid ++ (codes "\nsize " ++ (show_nat size ++ codes "\n")))

unfoldable pub is_lfs_pointer : Str → Bool
unfolding starts_with
is_lfs_pointer content = starts_with content (lfs_pointer_prefix ++ codes "\n")

-- the first match of a pattern, by the group it captures
unfoldable pub search_from : (Str → Option Str) → Str → Option Str
search_from pat [] = pat []
search_from pat (c ∷ s) = or_else (pat (c ∷ s)) (search_from pat s)

-- `\d+`
unfoldable pub take_digits : Str → Str
take_digits [] = []
take_digits (c ∷ s) = let rest = take_digits s in if is_digit c then c ∷ rest else []

abbrev pub some_digits : Str → Option Str
some_digits [] = none
some_digits (c ∷ s) = some (c ∷ s)

-- `size (\d+)`
unfoldable pub size_re : Str → Option Str
unfolding starts_with take_digits
size_re s = if starts_with s (codes "size ") then some_digits (take_digits (drop 5 s)) else none

unfoldable pub all_hex : Str → Bool
all_hex [] = true
all_hex (c ∷ s) = is_hex c && all_hex s

abbrev pub hex64 : Str → Option Str
hex64 s = if (length s == 64) && all_hex s then some s else none

-- `oid sha256:([0-9a-f]{64})`
unfoldable pub oid_re : Str → Option Str
unfolding starts_with all_hex
oid_re s = if starts_with s (codes "oid sha256:") then hex64 (take 64 (drop 11 s)) else none

abbrev pub with_oid : Str → Str → Option Str → Result LfsPointer
with_oid content digits none = err (codes "LFS pointer에 oid가 없습니다: " ++ take 80 content)
with_oid content digits (some oid) =
    ok (record { oid = oid; size = read_nat digits; pointer_bytes = content })

abbrev pub with_size : Str → Option Str → Result LfsPointer
with_size content none = err (codes "LFS pointer에 size가 없습니다: " ++ take 80 content)
with_size content (some digits) = with_oid content digits (search_from oid_re content)

unfoldable pub parse_lfs_pointer : Str → Result LfsPointer
unfolding search_from size_re oid_re
parse_lfs_pointer content = with_size content (search_from size_re content)
