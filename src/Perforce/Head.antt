-- ===== src/Perforce/Head.antt =====
-- The head revisions that p4/p4_client.py reports without or with their contents. The answers of the
-- server are parameters: `none` where it refuses the command, which the client catches, and an error
-- where the connection cannot be made again.
use p4sync_git.Prelude.{ℕ, Option, none, some, List, [], ◌∷◌, ◌++◌, map, if◌then◌else◌, is_empty}
use p4sync_git.Text.{Str, codes, lower, has_substring}
use p4sync_git.Text.Dict.{Dict, dict_set}
use p4sync_git.Exec.{Result, ok, and_then}
use p4sync_git.Import.Initial.{chunks}

pub record FstatRow : Type 0 where
  pub depot_file : Option Str
  pub head_action : Option Str
  pub digest : Option Str
  pub file_size : Option ℕ
  pub head_type : Option Str

-- `print_to_file` is what `p4 print -o` left in the file, if it wrote one
pub record HeadServer : Type 0 where
  pub run_fstat : List Str → Result (Option (List FstatRow))
  pub run_print : Str → Result (Option (List Str))
  pub print_to_file : Str → Result (Option Str)
  pub run_sizes : Str → Result (List (Option Str × Option ℕ))

-- the digest, the size and the type
abbrev pub HeadMeta : Type 0
HeadMeta = Str × ℕ × Str

abbrev pub text_or_empty : Option Str → Str
text_or_empty none = []
text_or_empty (some s) = s

abbrev row_meta : FstatRow → Option Str → Option Str → Option ℕ → Option (Str × HeadMeta)
row_meta d (some depot) (some digest) (some size) =
    if has_substring (codes "delete") (text_or_empty d.head_action)
    then none
    else some (depot, (lower digest, size, text_or_empty d.head_type))
row_meta d _ _ _ = none

abbrev set_meta : Option (Str × HeadMeta) → Dict HeadMeta → Dict HeadMeta
set_meta none out = out
set_meta (some (depot, m)) out = dict_set depot m out

unfoldable add_rows : List FstatRow → Dict HeadMeta → Dict HeadMeta
unfolding dict_set has_substring lower
add_rows [] out = out
add_rows (d ∷ rows) out =
    add_rows rows (set_meta (row_meta d d.depot_file d.digest d.file_size) out)

abbrev add_batch : Option (List FstatRow) → Dict HeadMeta → Dict HeadMeta
unfolding add_rows
add_batch none out = out
add_batch (some rows) out = add_rows rows out

abbrev pub at_head : Str → Str
at_head depot = depot ++ codes "#head"

-- the size of a batch, the default of `batch_size`
abbrev digest_batch_size : ℕ
digest_batch_size = 200

abbrev second_of : Option (List Str) → Option Str
second_of (some (info ∷ content ∷ rest)) = some content
second_of _ = none

module _ (p4 : HeadServer) where
  unfoldable pub fstat_each : List (List Str) → Dict HeadMeta → Result (Dict HeadMeta)
  unfolding add_rows
  fstat_each [] out = ok out
  fstat_each (chunk ∷ rest) out =
      and_then (p4.run_fstat chunk) (λ results. fstat_each rest (add_batch results out))

  unfoldable pub head_digests : List Str → Result (Dict HeadMeta)
  unfolding fstat_each chunks
  head_digests depot_paths =
      if is_empty depot_paths
      then ok []
      else fstat_each (chunks digest_batch_size (map at_head depot_paths)) []

  unfoldable pub print_file_to_bytes_head : Str → Result (Option Str)
  print_file_to_bytes_head depot_path =
      and_then (p4.run_print (at_head depot_path)) (λ results. ok (second_of results))

  abbrev file_size_of : Option ℕ → ℕ
  file_size_of none = 0
  file_size_of (some n) = n

  unfoldable pub sizes_of : List (Option Str × Option ℕ) → List (Str × ℕ)
  sizes_of [] = []
  sizes_of ((none, size) ∷ rows) = sizes_of rows
  sizes_of ((some depot, size) ∷ rows) = (depot, file_size_of size) ∷ sizes_of rows

  unfoldable pub iter_file_sizes : Str → Result (List (Str × ℕ))
  unfolding sizes_of
  iter_file_sizes path = and_then (p4.run_sizes path) (λ results. ok (sizes_of results))
