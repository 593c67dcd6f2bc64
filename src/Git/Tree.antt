-- ===== src/Git/Tree.antt =====
-- The trees that git/pygit2_git_operator.py builds. The object id of a blob or tree stands here for
-- what it identifies; `create_blob` gives the id of a content. Names in a tree and
-- keys of a dictionary are distinct, so that a loop over them is taken from its end.
pub mod Level
pub mod Find
pub mod Build
pub mod Laws
use p4sync_git.Prelude.{
  ℕ, ◌≡◌, Bool, true, false, not, ◌&&◌, Option, none, some, List, [], ◌∷◌, if◌then◌else◌, is_some,
}
use p4sync_git.Text.{Str, contains, split, str_eq}
use p4sync_git.Text.Dict.{Dict, dict_get, dict_set}
use p4sync_git.Git.FileMode.{FileChange, unpack_change}

-- the id of a blob, and its mode
abbrev pub Blob : Type 0
Blob = Str × ℕ

mutual
  pub data TreeEntry : Type 0 where
    blob : Blob → TreeEntry
    tree : Tree → TreeEntry
    gitlink : Str → TreeEntry

  pub data Tree : Type 0 where
    leaf : Tree
    entry : Str → TreeEntry → Tree → Tree

-- `_TreeNode`: its blobs, the names to delete, and its children
mutual
  pub data TreeNode : Type 0 where
    node : Dict Blob → List Str → Children → TreeNode

  pub data Children : Type 0 where
    no_child : Children
    child : Str → TreeNode → Children → Children

abbrev pub empty_node : TreeNode
empty_node = node [] [] no_child

-- the child of a name, made if it is missing, changed by `f`
unfoldable pub at_child : Str → (TreeNode → TreeNode) → Children → Children
at_child p f no_child = child p (f empty_node) no_child
at_child p f (child q n cs) = if str_eq q p then child q (f n) cs else child q n (at_child p f cs)

-- the parts of a path are never empty
unfoldable pub add_blob : List Str → Blob → TreeNode → TreeNode
unfolding dict_set at_child
add_blob [] b n = n
add_blob (p ∷ []) b (node bs ds cs) = node (dict_set p b bs) ds cs
add_blob (p ∷ q ∷ ps) b (node bs ds cs) = node bs ds (at_child p (add_blob (q ∷ ps) b) cs)

unfoldable pub add_delete : List Str → TreeNode → TreeNode
unfolding at_child
add_delete [] n = n
add_delete (p ∷ []) (node bs ds cs) = node bs (p ∷ ds) cs
add_delete (p ∷ q ∷ ps) (node bs ds cs) = node bs ds (at_child p (add_delete (q ∷ ps)) cs)

abbrev pub slash : ℕ
slash = b'/'

unfoldable pub add_blobs : Dict Blob → TreeNode → TreeNode
unfolding add_blob split
add_blobs [] n = n
add_blobs ((path, b) ∷ ps) n = add_blob (split slash path) b (add_blobs ps n)

unfoldable pub add_deletes : List Str → TreeNode → TreeNode
unfolding add_delete split
add_deletes [] n = n
add_deletes (path ∷ ps) n = add_delete (split slash path) (add_deletes ps n)

-- `_TreeNode.build`
unfoldable pub build : Dict Blob → List Str → TreeNode
unfolding add_blobs add_deletes
build path_blobs delete_set = add_deletes delete_set (add_blobs path_blobs empty_node)

abbrev pub is_leaf : Tree → Bool
is_leaf leaf = true
is_leaf (entry n e es) = false

-- `tb.insert`
unfoldable pub insert_entry : Str → TreeEntry → Tree → Tree
insert_entry n e leaf = entry n e leaf
insert_entry n e (entry m d es) =
    if str_eq m n then entry m e es else entry m d (insert_entry n e es)

abbrev insert_option : Str → Option TreeEntry → Tree → Tree
insert_option n none es = es
insert_option n (some e) es = entry n e es

-- an empty tree is not inserted
abbrev pub tree_unless_empty : Tree → Option TreeEntry
tree_unless_empty t = if is_leaf t then none else some (tree t)

-- what is to be made of the directories that change, by their names
abbrev pub Rebuilders : Type 0
Rebuilders = Dict (Option Tree → Tree)

module _ (bs : Dict Blob) (ds : List Str) (rs : Rebuilders) where
  abbrev pub new_or_old : Option Blob → Blob → Option TreeEntry
  new_or_old (some b) old = some (blob b)
  new_or_old none old = some (blob old)

  abbrev pub rebuilt_or_old : Option (Option Tree → Tree) → Tree → Option TreeEntry
  rebuilt_or_old (some r) old = tree_unless_empty (r (some old))
  rebuilt_or_old none old = some (tree old)

  -- what becomes of an entry of the previous tree
  unfoldable pub kept_entry : Str → TreeEntry → Option TreeEntry
  unfolding contains dict_get
  kept_entry n (blob b) = if contains ds n then none else new_or_old (dict_get n bs) b
  kept_entry n (tree t) = rebuilt_or_old (dict_get n rs) t
  kept_entry n (gitlink sha) = none

  -- whether its name is then in `processed_names`
  unfoldable pub is_processed_entry : Str → TreeEntry → Bool
  unfolding contains dict_get
  is_processed_entry n (blob b) = not (contains ds n) && is_some (dict_get n bs)
  is_processed_entry n (tree t) = is_some (dict_get n rs)
  is_processed_entry n (gitlink sha) = false

  unfoldable pub kept_entries : Tree → Tree
  unfolding kept_entry
  kept_entries leaf = leaf
  kept_entries (entry n e es) = insert_option n (kept_entry n e) (kept_entries es)

  unfoldable pub processed_names : Tree → List Str
  unfolding is_processed_entry
  processed_names leaf = []
  processed_names (entry n e es) =
      let rest = processed_names es in if is_processed_entry n e then n ∷ rest else rest

unfoldable pub insert_blobs : List Str → Dict Blob → Tree → Tree
unfolding contains insert_entry
insert_blobs processed [] t = t
insert_blobs processed ((n, b) ∷ bs) t =
    let rest = insert_blobs processed bs t in
    if contains processed n then rest else insert_entry n (blob b) rest

abbrev insert_unless_empty : Str → Tree → Tree → Tree
insert_unless_empty n s t = if is_leaf s then t else insert_entry n (tree s) t

unfoldable pub insert_dirs : List Str → Rebuilders → Tree → Tree
unfolding contains insert_entry
insert_dirs processed [] t = t
insert_dirs processed ((n, r) ∷ rs) t =
    let rest = insert_dirs processed rs t in
    if contains processed n then rest else insert_unless_empty n (r none) rest

abbrev pub or_leaf : Option Tree → Tree
or_leaf none = leaf
or_leaf (some t) = t

-- `_rebuild_tree` at one level; no previous tree has the entries of an empty one
unfoldable pub rebuild_level : Dict Blob → List Str → Rebuilders → Option Tree → Tree
unfolding kept_entries processed_names insert_blobs insert_dirs
rebuild_level bs ds rs prev =
    let processed = processed_names bs ds rs (or_leaf prev) in
    insert_dirs processed rs (insert_blobs processed bs (kept_entries bs ds rs (or_leaf prev)))

unfoldable mutual
  unfolding rebuild_level

  pub rebuild : TreeNode → Option Tree → Tree
  rebuild (node bs ds cs) prev = rebuild_level bs ds (rebuilders cs) prev

  pub rebuilders : Children → Rebuilders
  rebuilders no_child = []
  rebuilders (child n c cs) = (n, rebuild c) ∷ rebuilders cs

-- the child of a name
unfoldable pub child_at : Str → Children → Option TreeNode
child_at n no_child = none
child_at n (child m c cs) = if str_eq m n then some c else child_at n cs

module _ (create_blob : List ℕ → Str) where
  unfoldable pub blobs_of : List FileChange → Dict Blob → Dict Blob
  unfolding unpack_change dict_set
  blobs_of [] d = d
  blobs_of (item ∷ items) d =
      let (path, content, mode) = unpack_change item in
      blobs_of items (dict_set path (create_blob content, mode) d)

  -- `_build_tree_incremental`, from the tree of the branch
  unfoldable pub build_tree_incremental : Option Tree → List FileChange → List Str → Tree
  unfolding rebuild build blobs_of
  build_tree_incremental prev changes deletes = rebuild (build (blobs_of changes []) deletes) prev

-- the entry of a name, and the file at a path
unfoldable pub entry_at : Str → Tree → Option TreeEntry
entry_at n leaf = none
entry_at n (entry m e es) = if str_eq m n then some e else entry_at n es

abbrev pub file_of : Option TreeEntry → Option Blob
file_of (some (blob b)) = some b
file_of (some (tree t)) = none
file_of (some (gitlink sha)) = none
file_of none = none

abbrev pub dir_of : Option TreeEntry → Option Tree
dir_of (some (blob b)) = none
dir_of (some (tree t)) = some t
dir_of (some (gitlink sha)) = none
dir_of none = none

abbrev pub or_none : {A B : Type 0} → (A → Option B) → Option A → Option B
or_none f none = none
or_none f (some a) = f a

unfoldable pub find : List Str → Tree → Option Blob
unfolding entry_at
find [] t = none
find (n ∷ []) t = file_of (entry_at n t)
find (n ∷ m ∷ ns) t = or_none (find (m ∷ ns)) (dir_of (entry_at n t))

-- distinct names, at each level
unfoldable mutual
  unfolding entry_at

  pub IsTree : Tree → Type 0
  IsTree leaf = Unit
  IsTree (entry n e es) = (entry_at n es ≡ none) × IsEntry e × IsTree es

  pub IsEntry : TreeEntry → Type 0
  IsEntry (blob b) = Unit
  IsEntry (tree t) = IsTree t
  IsEntry (gitlink sha) = Unit

unfoldable mutual
  unfolding child_at

  pub IsNode : TreeNode → Type 0
  IsNode (node bs ds cs) = AreChildren cs

  pub AreChildren : Children → Type 0
  AreChildren no_child = Unit
  AreChildren (child n c cs) = (child_at n cs ≡ none) × IsNode c × AreChildren cs
