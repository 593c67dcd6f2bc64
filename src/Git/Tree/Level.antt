-- ===== src/Git/Tree/Level.antt =====
-- What `_rebuild_tree` makes of one name.
use p4sync_git.Prelude.{
  ◌≡◌, refl, Bool, false, Option, none, some, List, [], ◌∷◌, arith, if◌then◌else◌,
}
use p4sync_git.Text.{Str, contains, str_eq}
use p4sync_git.Text.Laws.{str_eq_iff}
use p4sync_git.Text.Dict.{Dict, dict_get}
use p4sync_git.Git.Tree.{
  Blob, TreeEntry, blob, tree, gitlink, Tree, leaf, entry, Rebuilders, kept_entry,
  is_processed_entry, kept_entries, processed_names, insert_blobs, insert_dirs, insert_entry,
  rebuild_level, entry_at, or_none, dir_of, or_leaf, tree_unless_empty, is_leaf, IsTree,
}

entry_at-insert_entry :
    (x n : Str) (e : TreeEntry) (t : Tree)
    → entry_at x (insert_entry n e t) ≡ (if str_eq n x then some e else entry_at x t)
unfolding entry_at insert_entry
entry_at-insert_entry x n e leaf = ground arith
entry_at-insert_entry x n e (entry m d es) =
    ground (arith, entry_at-insert_entry x n e es, str_eq_iff m n, str_eq_iff m x, str_eq_iff n x)

abbrev pub blob_or : Option Blob → Option TreeEntry → Option TreeEntry
blob_or (some b) e = some (blob b)
blob_or none e = e

entry_at-insert_blobs :
    (x : Str) (processed : List Str) (bs : Dict Blob) (t : Tree)
    → entry_at x (insert_blobs processed bs t)
      ≡ (if contains processed x then entry_at x t else blob_or (dict_get x bs) (entry_at x t))
unfolding insert_blobs dict_get
entry_at-insert_blobs x processed [] t = ground arith
entry_at-insert_blobs x processed ((n, b) ∷ bs) t = ground (
  arith,
  entry_at-insert_blobs x processed bs t,
  entry_at-insert_entry x n (blob b) (insert_blobs processed bs t),
  str_eq_iff n x,
)

-- The names are distinct.
abbrev pub AreDistinct : Rebuilders → Type 0
AreDistinct [] = Unit
AreDistinct ((n, r) ∷ rs) = (dict_get n rs ≡ none) × AreDistinct rs

abbrev tree_or : Option (Option Tree → Tree) → Option TreeEntry → Option TreeEntry
tree_or none e = e
tree_or (some r) e = if is_leaf (r none) then e else some (tree (r none))

entry_at-insert_dirs :
    (x : Str) (processed : List Str) (rs : Rebuilders) (t : Tree)
    → AreDistinct rs
    → entry_at x (insert_dirs processed rs t)
      ≡ (if contains processed x then entry_at x t else tree_or (dict_get x rs) (entry_at x t))
unfolding insert_dirs dict_get
entry_at-insert_dirs x processed [] t h = ground arith
entry_at-insert_dirs x processed ((n, r) ∷ rs) t h = ground (
  arith,
  entry_at-insert_dirs x processed rs t h.1,
  entry_at-insert_entry x n (tree (r none)) (insert_dirs processed rs t),
  str_eq_iff n x,
)

module _ (bs : Dict Blob) (ds : List Str) (rs : Rebuilders) where
  entry_at-kept_entries :
      (x : Str) (t : Tree)
      → IsTree t
      → entry_at x (kept_entries bs ds rs t) ≡ or_none (kept_entry bs ds rs x) (entry_at x t)
  unfolding entry_at kept_entries IsTree
  entry_at-kept_entries x leaf h = refl
  entry_at-kept_entries x (entry n e es) h =
      ground (arith, entry_at-kept_entries x es h.2, str_eq_iff n x)

  abbrev is_processed : Str → Option TreeEntry → Bool
  is_processed x none = false
  is_processed x (some e) = is_processed_entry bs ds rs x e

  contains-processed_names :
      (x : Str) (t : Tree)
      → IsTree t
      → contains (processed_names bs ds rs t) x ≡ is_processed x (entry_at x t)
  unfolding entry_at processed_names contains IsTree
  contains-processed_names x leaf h = refl
  contains-processed_names x (entry n e es) h =
      ground (arith, contains-processed_names x es h.2, str_eq_iff n x)

  unchanged :
      (x : Str) (old : Option TreeEntry)
      → dict_get x rs ≡ none
      → let kept = or_none (kept_entry bs ds rs x) old in
        let new = if is_processed x old then kept else blob_or (dict_get x bs) kept in
        (if is_processed x old then new else new) ≡ blob_or (dict_get x bs) kept
  unfolding kept_entry is_processed_entry
  unchanged x none h = refl
  unchanged x (some (blob b)) h = ground arith
  unchanged x (some (tree t)) h = ground arith
  unchanged x (some (gitlink sha)) h = refl

  rebuilt :
      (x : Str) (old : Option TreeEntry) (r : Option Tree → Tree)
      → dict_get x rs ≡ some r
      → dict_get x bs ≡ none
      → let kept = or_none (kept_entry bs ds rs x) old in
        let new = if is_processed x old then kept else kept in
        dir_of (if is_processed x old then new else tree_or (some r) new)
        ≡ dir_of (tree_unless_empty (r (dir_of old)))
  unfolding kept_entry is_processed_entry
  rebuilt x none r h k = ground arith
  rebuilt x (some (blob b)) r h k = ground arith
  rebuilt x (some (tree t)) r h k = rw h refl
  rebuilt x (some (gitlink sha)) r h k = ground arith

  -- A name that is no directory of the change.
  pub entry_at-rebuild_level :
      (x : Str) (prev : Option Tree)
      → IsTree (or_leaf prev)
      → AreDistinct rs
      → dict_get x rs ≡ none
      → entry_at x (rebuild_level bs ds rs prev)
        ≡ blob_or (dict_get x bs) (or_none (kept_entry bs ds rs x) (entry_at x (or_leaf prev)))
  unfolding rebuild_level
  entry_at-rebuild_level x prev t d h =
      let processed = processed_names bs ds rs (or_leaf prev) in
      let kept = kept_entries bs ds rs (or_leaf prev) in
      rw (entry_at-insert_dirs x processed rs (insert_blobs processed bs kept) d, h)
        (rw
          (
            entry_at-insert_blobs x processed bs kept,
            entry_at-kept_entries x (or_leaf prev) t,
            contains-processed_names x (or_leaf prev) t,
          )
          (unchanged x (entry_at x (or_leaf prev)) h))

  -- A directory of the change that is no file of it: what it holds is built from what it held.
  pub dir_of-rebuild_level :
      (x : Str) (prev : Option Tree) (r : Option Tree → Tree)
      → IsTree (or_leaf prev)
      → AreDistinct rs
      → dict_get x rs ≡ some r
      → dict_get x bs ≡ none
      → dir_of (entry_at x (rebuild_level bs ds rs prev))
        ≡ dir_of (tree_unless_empty (r (dir_of (entry_at x (or_leaf prev)))))
  unfolding rebuild_level
  dir_of-rebuild_level x prev r t d h k =
      let processed = processed_names bs ds rs (or_leaf prev) in
      let kept = kept_entries bs ds rs (or_leaf prev) in
      rw (entry_at-insert_dirs x processed rs (insert_blobs processed bs kept) d, h)
        (rw
          (
            entry_at-insert_blobs x processed bs kept,
            entry_at-kept_entries x (or_leaf prev) t,
            contains-processed_names x (or_leaf prev) t,
            k,
          )
          (rebuilt x (entry_at x (or_leaf prev)) r h k))

  -- A directory of the change that was one before is what was rebuilt, whatever file the change
  -- puts in its place.
  pub entry_at-processed :
      (x : Str) (prev t : Tree) (r : Option Tree → Tree)
      → IsTree prev
      → AreDistinct rs
      → dict_get x rs ≡ some r
      → entry_at x prev ≡ some (tree t)
      → entry_at x (rebuild_level bs ds rs (some prev)) ≡ tree_unless_empty (r (some t))
  unfolding rebuild_level kept_entry is_processed_entry
  entry_at-processed x prev t r i d h e =
      let processed = processed_names bs ds rs prev in
      let kept = kept_entries bs ds rs prev in
      rw (entry_at-insert_dirs x processed rs (insert_blobs processed bs kept) d) (
        rw
          (
            entry_at-insert_blobs x processed bs kept,
            entry_at-kept_entries x prev i,
            contains-processed_names x prev i,
            e,
            h,
          )
          refl)
