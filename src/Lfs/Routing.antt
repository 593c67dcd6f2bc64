-- ===== src/Lfs/Routing.antt =====
-- lfs/lfs_routing.py, with the settings of config/lfs_config.py that it reads.
pub mod Laws
use p4sync_git.Prelude.{
  ℕ, Bool, true, false, ◌&&◌, not, Option, none, some, List, [], ◌∷◌, ◌++◌, leb, ltb, ◌==◌,
  if◌then◌else◌, any, is_some,
}
use p4sync_git.Text.{Str, codes, contains, has_substring, starts_with, lower, before_char}
use p4sync_git.Perforce.Change.{P4FileAction}

-- `enabled`, `extensions`, `size_threshold_bytes`, `auto_detect_binary` and
-- `binary_size_threshold_bytes` of `LfsConfig`
pub record LfsConfig : Type 0 where
  pub enabled : Bool
  pub extensions : List Str
  pub size_threshold_bytes : ℕ
  pub auto_detect_binary : Bool
  pub binary_size_threshold_bytes : Option ℕ

-- `os.path.splitext(path)[1]`: from the last dot of the last component, unless only dots stand
-- before it there.
unfoldable pub extension_from : Str → Bool → Str → Str
extension_from ext seen [] = ext
extension_from ext seen (c ∷ s) =
    if c == b'/'
    then extension_from [] false s
    else if c == b'.'
    then extension_from (if seen then c ∷ s else []) seen s
    else extension_from ext true s

unfoldable pub splitext_ext : Str → Str
unfolding extension_from
splitext_ext path = extension_from [] false path

unfoldable pub is_lfs_target_ext : LfsConfig → Str → Bool
unfolding splitext_ext lower contains
is_lfs_target_ext cfg path = contains cfg.extensions (lower (splitext_ext path))

abbrev threshold_or : Option ℕ → ℕ → ℕ
threshold_or (some n) _ = n
threshold_or none n = n

unfoldable pub effective_binary_threshold : LfsConfig → ℕ
effective_binary_threshold cfg =
    threshold_or cfg.binary_size_threshold_bytes cfg.size_threshold_bytes

abbrev text_base_types : List Str
text_base_types =
    codes "text" ∷ codes "unicode" ∷ codes "utf8" ∷ codes "utf16" ∷ codes "symlink" ∷ []

abbrev binary_base_types : List Str
binary_base_types = codes "binary" ∷ codes "apple" ∷ codes "resource" ∷ codes "ubinary" ∷ []

pub data P4TypeClass : Type 0 where
  text binary unknown : P4TypeClass

-- `base[1:]` of a legacy executable type
abbrev without_x : Str → Str
without_x [] = []
without_x (c ∷ base) =
    if (starts_with (c ∷ base) (codes "x") && not (contains binary_base_types (c ∷ base)))
      && not (contains text_base_types (c ∷ base))
    then base
    else c ∷ base

abbrev class_of_base : Str → P4TypeClass
class_of_base base =
    if contains text_base_types base
    then text
    else if contains binary_base_types base
    then binary
    else unknown

unfoldable pub classify_p4_file_type : Str → P4TypeClass
unfolding lower has_substring before_char contains starts_with
classify_p4_file_type [] = unknown
classify_p4_file_type (c ∷ file_type) =
    let ft = lower (c ∷ file_type) in
    if has_substring (codes "symlink") ft
    then text
    else class_of_base (without_x (before_char b'+' ft))

-- `b"\x00" in head`
unfoldable pub sniff_is_binary : List ℕ → Bool
sniff_is_binary head = any (λ c. c == 0) head

-- the class of a file of unknown type: from its head if that was read, else from its size
abbrev pub resolve_unknown : ℕ → Option ℕ → Option (List ℕ) → P4TypeClass
resolve_unknown threshold size (some head) = if sniff_is_binary head then binary else text
resolve_unknown threshold none none = binary
resolve_unknown threshold (some n) none = if ltb n threshold then text else binary

abbrev pub resolve_class : P4TypeClass → ℕ → Option ℕ → Option (List ℕ) → P4TypeClass
resolve_class text _ _ _ = text
resolve_class binary _ _ _ = binary
resolve_class unknown threshold size head = resolve_unknown threshold size head

abbrev pub is_large : ℕ → Option ℕ → Bool
is_large threshold none = true
is_large threshold (some n) = leb threshold n

abbrev pub is_large_binary : P4TypeClass → ℕ → Option ℕ → Bool
is_large_binary binary threshold size = is_large threshold size
is_large_binary _ threshold size = false

unfoldable pub decide_lfs_route : Str → Str → Option ℕ → LfsConfig → Option (List ℕ) → Bool
unfolding sniff_is_binary effective_binary_threshold
decide_lfs_route git_path file_type size cfg sniff_head =
    if is_lfs_target_ext cfg git_path
    then true
    else if not cfg.auto_detect_binary
    then false
    else (let threshold = effective_binary_threshold cfg in
        is_large_binary (resolve_class (classify_p4_file_type file_type) threshold size sniff_head)
          threshold size)

-- a file of a changelist with its git path
abbrev pub Target : Type 0
Target = P4FileAction × Str

pub data Sort : Type 0 where
  to_lfs to_normal ambiguous : Sort

abbrev pub sort_of : LfsConfig → Target → Sort
sort_of cfg (fa, git_path) =
    if is_lfs_target_ext cfg git_path
    then to_lfs
    else if not cfg.auto_detect_binary
    then to_normal
    else elim (classify_p4_file_type fa.file_type) [ text ↦ to_normal | _ ↦ ambiguous ]

abbrev pub is_lfs : Sort → Bool
is_lfs to_lfs = true
is_lfs _ = false

abbrev pub is_normal : Sort → Bool
is_normal to_normal = true
is_normal _ = false

abbrev pub is_ambiguous : Sort → Bool
is_ambiguous ambiguous = true
is_ambiguous _ = false

-- one of the three lists that the first pass keeps
unfoldable pub select_sort : LfsConfig → (Sort → Bool) → List Target → List Target
select_sort cfg p [] = []
select_sort cfg p (t ∷ ts) =
    let rest = select_sort cfg p ts in if p (sort_of cfg t) then t ∷ rest else rest

-- The size of a file after `fill_sizes` of `P4Client`, and what its `read_head_prefix` returns.
module _ (size_of : P4FileAction → Option ℕ) (read_head : P4FileAction → Option (List ℕ)) where
  abbrev pub head_if_unknown : P4FileAction → Option (List ℕ)
  head_if_unknown fa = elim (classify_p4_file_type fa.file_type) [
    | unknown ↦ read_head fa
    | _ ↦ none
  ]

  abbrev pub goes_to_lfs : LfsConfig → Target → Bool
  goes_to_lfs cfg (fa, git_path) =
      decide_lfs_route git_path fa.file_type (size_of fa) cfg (head_if_unknown fa)

  -- the second pass, on what is ambiguous
  unfoldable pub route :
      LfsConfig → List Target → List Target → List Target → List Target × List Target
  route cfg [] lfs normal = (lfs, normal)
  route cfg (t ∷ ts) lfs normal =
      route cfg ts (if goes_to_lfs cfg t then lfs ++ (t ∷ []) else lfs)
        (if goes_to_lfs cfg t then normal else normal ++ (t ∷ []))

  unfoldable pub partition_for_lfs : LfsConfig → List Target → List Target × List Target
  unfolding route select_sort
  partition_for_lfs cfg actions =
      route cfg (select_sort cfg is_ambiguous actions) (select_sort cfg is_lfs actions)
        (select_sort cfg is_normal actions)
