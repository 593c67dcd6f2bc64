-- ===== src/Git/Tree/Find.antt =====
-- The file at a path of the tree that `_rebuild_tree` builds.
use p4sync_git.Prelude.{
  ◌≡◌, refl, ap, subst, ◌∙◌, sym, inl, inr, Bool, true, false, not, ◌&&◌, Bool-cases, Option-cases,
  both_true, Option, none, some, List, [], ◌∷◌, arith, is_some,
}
use mathlib.Core.Option
use p4sync_git.Text.{Str, contains, str_eq}
use p4sync_git.Text.Dict.{Dict, dict_get}
use p4sync_git.Git.Tree.Level.{AreDistinct, blob_or, entry_at-rebuild_level, dir_of-rebuild_level}
use p4sync_git.Git.Tree.{
  Blob, TreeEntry, blob, tree, gitlink, Tree, leaf, entry, TreeNode, Children, node, no_child,
  child, Rebuilders, kept_entry, rebuild, rebuilders, child_at, entry_at, or_none, dir_of, file_of,
  or_leaf, find, tree_unless_empty, IsTree, IsEntry, IsNode, AreChildren,
}

-- what a node says of a path: its new file, whether it is deleted
unfoldable pub blob_at : List Str → TreeNode → Option Blob
unfolding dict_get child_at
blob_at [] n = none
blob_at (x ∷ []) (node bs ds cs) = dict_get x bs
blob_at (x ∷ y ∷ ys) (node bs ds cs) = or_none (blob_at (y ∷ ys)) (child_at x cs)

abbrev pub in_child : (TreeNode → Bool) → Option TreeNode → Bool → Bool
in_child f none b = b
in_child f (some c) b = f c

unfoldable pub deleted_at : List Str → TreeNode → Bool
unfolding contains child_at
deleted_at [] n = false
deleted_at (x ∷ []) (node bs ds cs) = contains ds x
deleted_at (x ∷ y ∷ ys) (node bs ds cs) = in_child (deleted_at (y ∷ ys)) (child_at x cs) false

-- It is no directory of the node, and none of its own directories is a new file of it.
unfoldable pub is_clear : List Str → TreeNode → Bool
unfolding dict_get child_at
is_clear [] n = true
is_clear (x ∷ []) (node bs ds cs) = not (is_some (child_at x cs))
is_clear (x ∷ y ∷ ys) (node bs ds cs) =
    not (is_some (dict_get x bs)) && in_child (is_clear (y ∷ ys)) (child_at x cs) true

abbrev pub changed : Option Blob → Bool → Option Blob → Option Blob
changed (some b) d old = some b
changed none true old = none
changed none false old = old

dict_get-rebuilders :
    (x : Str) (cs : Children) → dict_get x (rebuilders cs) ≡ Option.map rebuild (child_at x cs)
unfolding dict_get rebuild child_at
dict_get-rebuilders x no_child = refl
dict_get-rebuilders x (child n c cs) = elim (Bool-cases (str_eq n x)) [
  | inl e ↦ rw e refl
  | inr e ↦ rw e (dict_get-rebuilders x cs)
]

rebuilders-AreDistinct : (cs : Children) → AreChildren cs → AreDistinct (rebuilders cs)
unfolding rebuild IsNode
rebuilders-AreDistinct no_child h = tt
rebuilders-AreDistinct (child n c cs) h =
    (dict_get-rebuilders n cs ∙ ap (Option.map rebuild) h.0, rebuilders-AreDistinct cs h.2)

none_of : {A : Type 0} (o : Option A) → not (is_some o) ≡ true → o ≡ none
none_of none h = refl
none_of (some c) h = cc

abbrev IsChild : Option TreeNode → Type 0
IsChild none = Unit
IsChild (some c) = IsNode c

child_at-IsNode : (x : Str) (cs : Children) → AreChildren cs → IsChild (child_at x cs)
unfolding child_at IsNode
child_at-IsNode x no_child h = tt
child_at-IsNode x (child n d cs) h = elim (Bool-cases (str_eq n x)) [
  | inl k ↦ rw k h.1
  | inr k ↦ rw k (child_at-IsNode x cs h.2)
]

entry-IsTree : (e : TreeEntry) → IsEntry e → IsTree (or_leaf (dir_of (some e)))
unfolding IsTree
entry-IsTree (blob b) h = tt
entry-IsTree (tree t) h = h
entry-IsTree (gitlink sha) h = tt

dir_of-IsTree : (x : Str) (t : Tree) → IsTree t → IsTree (or_leaf (dir_of (entry_at x t)))
unfolding entry_at IsTree
dir_of-IsTree x leaf h = tt
dir_of-IsTree x (entry n e es) h = elim (Bool-cases (str_eq n x)) [
  | inl k ↦ rw k (entry-IsTree e h.1)
  | inr k ↦ rw k (dir_of-IsTree x es h.2)
]

find-unless_empty :
    (q : List Str) (t : Tree) → or_none (find q) (dir_of (tree_unless_empty t)) ≡ find q t
unfolding find entry_at
find-unless_empty [] leaf = refl
find-unless_empty (n ∷ []) leaf = refl
find-unless_empty (n ∷ m ∷ ns) leaf = refl
find-unless_empty q (entry n e es) = refl

find-or_leaf : (q : List Str) (o : Option Tree) → or_none (find q) o ≡ find q (or_leaf o)
unfolding find entry_at
find-or_leaf q (some t) = refl
find-or_leaf [] none = refl
find-or_leaf (n ∷ []) none = refl
find-or_leaf (n ∷ m ∷ ns) none = refl

-- of a name that is no directory of the change
kept_dir :
    (x : Str) (bs : Dict Blob) (ds : List Str) (rs : Rebuilders) (old : Option TreeEntry)
    → dict_get x rs ≡ none
    → dict_get x bs ≡ none
    → dir_of (or_none (kept_entry bs ds rs x) old) ≡ dir_of old
unfolding kept_entry
kept_dir x bs ds rs none h k = refl
kept_dir x bs ds rs (some (blob b)) h k = ground arith
kept_dir x bs ds rs (some (tree t)) h k = rw h refl
kept_dir x bs ds rs (some (gitlink sha)) h k = refl

kept_file :
    (x : Str) (bs : Dict Blob) (ds : List Str) (rs : Rebuilders) (old : Option TreeEntry)
    → dict_get x rs ≡ none
    → file_of (blob_or (dict_get x bs) (or_none (kept_entry bs ds rs x) old))
      ≡ changed (dict_get x bs) (contains ds x) (file_of old)
unfolding kept_entry
kept_file x bs ds rs none h = ground arith
kept_file x bs ds rs (some (blob b)) h = ground arith
kept_file x bs ds rs (some (tree t)) h = ground arith
kept_file x bs ds rs (some (gitlink sha)) h = ground arith

-- A path that is no directory of the change, and none of whose directories becomes a file, holds
-- its new file if it has one, nothing if it is deleted, and otherwise what it held.
pub find-rebuild :
    (p : List Str) (n : TreeNode) (prev : Option Tree)
    → IsNode n
    → IsTree (or_leaf prev)
    → is_clear p n ≡ true
    → find p (rebuild n prev) ≡ changed (blob_at p n) (deleted_at p n) (find p (or_leaf prev))
unfolding find rebuild IsNode blob_at deleted_at is_clear
find-rebuild [] (node bs ds cs) prev h t c = refl
find-rebuild (x ∷ []) (node bs ds cs) prev h t c =
    let no_dir : dict_get x (rebuilders cs) ≡ none =
      dict_get-rebuilders x cs ∙ ap (Option.map rebuild) (none_of (child_at x cs) c) in
    rw (entry_at-rebuild_level bs ds (rebuilders cs) x prev t (rebuilders-AreDistinct cs h) no_dir)
      (kept_file x bs ds (rebuilders cs) (entry_at x (or_leaf prev)) no_dir)
find-rebuild (x ∷ y ∷ ys) (node bs ds cs) prev h t c =
    let rs = rebuilders cs in
    let old = entry_at x (or_leaf prev) in
    let q = y ∷ ys in
    let (a, b) =
      both_true (not (is_some (dict_get x bs))) (in_child (is_clear q) (child_at x cs) true) c in
    let no_file = none_of (dict_get x bs) a in
    let distinct = rebuilders-AreDistinct cs h in
    elim (Option-cases (child_at x cs)) [
      | inl e ↦
          let no_dir = dict_get-rebuilders x cs ∙ ap (Option.map rebuild) e in
          rw (entry_at-rebuild_level bs ds rs x prev t distinct no_dir, no_file, e)
            (ap (or_none (find q)) (kept_dir x bs ds rs old no_dir no_file))
      | inr (d, e) ↦
          let dir = dict_get-rebuilders x cs ∙ ap (Option.map rebuild) e in
          let below =
            find-rebuild (y ∷ ys) d (dir_of old) (subst IsChild e (child_at-IsNode x cs h))
              (dir_of-IsTree x (or_leaf prev) t) (rw e at b) in
          rw (dir_of-rebuild_level bs ds rs x prev (rebuild d) t distinct dir no_file, e)
            (find-unless_empty q (rebuild d (dir_of old))
              ∙ below
              ∙ ap (changed (blob_at q d) (deleted_at q d)) (sym (find-or_leaf q (dir_of old))))
    ]
