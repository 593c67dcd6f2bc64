-- ===== src/Git/Output.antt =====
-- What both Git operators read from the output of Git: its log, the files of a commit, its branches.
use p4sync_git.Prelude.{
  ℕ, zero, suc, ◌+◌, Bool, true, false, not, ◌&&◌, ◌||◌, Option, none, some, List, [], ◌∷◌, ◌++◌,
  length, drop, is_empty, if◌then◌else◌, ◌==◌,
}
use p4sync_git.Text.{Str, codes, split, str_eq, starts_with, before_char, after_char, is_digit}
use p4sync_git.Text.Decimal.{read_nat}
use p4sync_git.Text.Lines.{words}
use p4sync_git.Text.Strip.{strip_spaces}
use p4sync_git.Exec.{Result, ok, err}

pub record LogCommit : Type 0 where
  pub sha : Str
  pub author_name : Str
  pub author_email : Str
  pub timestamp : ℕ
  pub parents : List Str
  pub message : Str

unfoldable pub has_char : ℕ → Str → Bool
has_char sep [] = false
has_char sep (c ∷ s) = if c == sep then true else has_char sep s

-- `s.split(sep, n)`
unfoldable pub split_at_most : ℕ → ℕ → Str → List Str
unfolding has_char before_char after_char
split_at_most sep zero s = s ∷ []
split_at_most sep (suc n) s =
    let rest = split_at_most sep n (after_char sep s) in
    if has_char sep s then before_char sep s ∷ rest else s ∷ []

unfoldable pub all_digits : Str → Bool
all_digits [] = true
all_digits (c ∷ s) = is_digit c && all_digits s

-- `int(s)`, which Git prints in digits
abbrev pub int_of : Str → Result ℕ
int_of s = if not (is_empty s) && all_digits s then ok (read_nat s) else err (codes "ValueError")

abbrev pub log_commit : Str → Str → Str → Str → Str → Result ℕ → Result (Option LogCommit)
log_commit sha name email parents message (err e) = err e
log_commit sha name email parents message (ok at_time) = ok (
    some (record {
      sha = sha;
      author_name = name;
      author_email = email;
      timestamp = at_time;
      parents = words parents;
      message = strip_spaces message;
    }))

-- an entry with too few lines is passed over
abbrev pub commit_of : List Str → Result (Option LogCommit)
commit_of (sha ∷ name ∷ email ∷ at_time ∷ parents ∷ message ∷ []) =
    log_commit sha name email parents message (int_of at_time)
commit_of lines = ok none

abbrev pub newline : ℕ
newline = 10

abbrev pub read_entry : Str → Result (Option LogCommit)
read_entry entry =
    if is_empty (strip_spaces entry)
    then ok none
    else commit_of (split_at_most newline 5 (strip_spaces entry))

abbrev pub with_entry :
    Result (Option LogCommit) → Result (List LogCommit) → Result (List LogCommit)
with_entry (err e) rest = err e
with_entry (ok none) rest = rest
with_entry (ok (some c)) (err e) = err e
with_entry (ok (some c)) (ok rest) = ok (c ∷ rest)

unfoldable pub read_entries : List Str → Result (List LogCommit)
unfolding split_at_most all_digits words strip_spaces
read_entries [] = ok []
read_entries (entry ∷ entries) = with_entry (read_entry entry) (read_entries entries)

-- the log, whose entries a character 0 ends
unfoldable pub read_log : Str → Result (List LogCommit)
unfolding read_entries split
read_log out = read_entries (split 0 out)

abbrev with_content :
    Str → Option (List ℕ) → List (Str × List ℕ) × List Str → List (Str × List ℕ) × List Str
with_content path none rest = rest
with_content path (some content) (files, deletes) = ((path, content) ∷ files, deletes)

-- the files of a commit with their contents, of which `show` gives those that it can, and the deletions
abbrev pub file_line :
    (Str → Option (List ℕ))
    → List Str
    → List (Str × List ℕ) × List Str
    → List (Str × List ℕ) × List Str
file_line show (status ∷ path ∷ []) (files, deletes) =
    if str_eq status (codes "D")
    then (files, path ∷ deletes)
    else with_content path (show path) (files, deletes)
file_line show parts rest = rest

unfoldable pub read_name_status :
    (Str → Option (List ℕ)) → List Str → List (Str × List ℕ) × List Str
unfolding split_at_most
read_name_status show [] = ([], [])
read_name_status show (line ∷ lines) =
    file_line show (split_at_most 9 1 line) (read_name_status show lines)

abbrev pub branch_line : Str → Str → Str → List Str → List Str
branch_line remote prefix line rest =
    let name = drop (length remote + 1) line in
    if starts_with line (remote ++ (b'/' ∷ []))
    then (if is_empty prefix || starts_with name prefix then name ∷ rest else rest)
    else rest

unfoldable pub read_branches : Str → Str → List Str → List Str
unfolding strip_spaces
read_branches remote prefix [] = []
read_branches remote prefix (line ∷ lines) =
    branch_line remote prefix (strip_spaces line) (read_branches remote prefix lines)
