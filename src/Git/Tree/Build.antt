-- ===== src/Git/Tree/Build.antt =====
-- What `_TreeNode.build` keeps of one path.
use p4sync_git.Prelude.{
  ◌≡◌, refl, ◌∙◌, sym, Bool, true, false, not, ◌&&◌, Option, none, some, get_or, List, [], ◌∷◌,
  arith, if◌then◌else◌, inl, inr, Bool-cases,
}
use p4sync_git.Text.{Str, contains, str_eq}
use p4sync_git.Text.Laws.{str_eq_iff}
use p4sync_git.Text.Dict.{dict_get}
use p4sync_git.Text.Dict.Laws.{dict_get-dict_set}
use p4sync_git.Git.Tree.Find.{blob_at, deleted_at, is_clear, in_child}
use p4sync_git.Git.Tree.{
  Blob, TreeNode, Children, node, no_child, child, empty_node, at_child, add_blob, add_delete,
  child_at, or_none, IsNode, AreChildren,
}

unfoldable pub parts_eq : List Str → List Str → Bool
parts_eq [] [] = true
parts_eq (x ∷ xs) (y ∷ ys) = if str_eq x y then parts_eq xs ys else false
parts_eq _ _ = false

-- whether the first path is a directory of the second
unfoldable pub is_above : List Str → List Str → Bool
is_above [] [] = false
is_above [] (y ∷ ys) = true
is_above (x ∷ xs) [] = false
is_above (x ∷ xs) (y ∷ ys) = if str_eq x y then is_above xs ys else false

child_at-at_child :
    (x y : Str) (f : TreeNode → TreeNode) (cs : Children)
    → child_at x (at_child y f cs)
      ≡ (if str_eq y x then some (f (get_or (child_at x cs) empty_node)) else child_at x cs)
unfolding child_at at_child
child_at-at_child x y f no_child = ground arith
child_at-at_child x y f (child m c cs) =
    ground (arith, child_at-at_child x y f cs, str_eq_iff m y, str_eq_iff m x, str_eq_iff y x)

at_child-AreChildren :
    (y : Str) (f : TreeNode → TreeNode) (cs : Children)
    → ((c : TreeNode) → IsNode c → IsNode (f c))
    → AreChildren cs
    → AreChildren (at_child y f cs)
unfolding at_child IsNode child_at
at_child-AreChildren y f no_child k h = (refl, k empty_node tt, tt)
at_child-AreChildren y f (child m c cs) k h = elim (Bool-cases (str_eq m y)) [
  | inl e ↦ rw e (h.0, k c h.1, h.2)
  | inr e ↦ rw e (
    child_at-at_child m y f cs ∙ ground (arith, h.0, str_eq_iff m y, str_eq_iff y m),
    h.1,
    at_child-AreChildren y f cs k h.2,
  )
]

pub add_blob-IsNode : (q : List Str) (b : Blob) (n : TreeNode) → IsNode n → IsNode (add_blob q b n)
unfolding add_blob IsNode
add_blob-IsNode [] b n h = h
add_blob-IsNode (y ∷ []) b (node bs ds cs) h = h
add_blob-IsNode (y ∷ z ∷ zs) b (node bs ds cs) h =
    at_child-AreChildren y (add_blob (z ∷ zs) b) cs (add_blob-IsNode (z ∷ zs) b) h

pub add_delete-IsNode : (q : List Str) (n : TreeNode) → IsNode n → IsNode (add_delete q n)
unfolding add_delete IsNode
add_delete-IsNode [] n h = h
add_delete-IsNode (y ∷ []) (node bs ds cs) h = h
add_delete-IsNode (y ∷ z ∷ zs) (node bs ds cs) h =
    at_child-AreChildren y (add_delete (z ∷ zs)) cs (add_delete-IsNode (z ∷ zs)) h

pub blob_at-empty : (p : List Str) → blob_at p empty_node ≡ none
unfolding blob_at dict_get child_at
blob_at-empty [] = refl
blob_at-empty (x ∷ []) = refl
blob_at-empty (x ∷ y ∷ ys) = refl

pub deleted_at-empty : (p : List Str) → deleted_at p empty_node ≡ false
unfolding deleted_at contains child_at
deleted_at-empty [] = refl
deleted_at-empty (x ∷ []) = refl
deleted_at-empty (x ∷ y ∷ ys) = refl

pub is_clear-empty : (p : List Str) → is_clear p empty_node ≡ true
unfolding is_clear dict_get child_at
is_clear-empty [] = refl
is_clear-empty (x ∷ []) = refl
is_clear-empty (x ∷ y ∷ ys) = refl

-- a name without a child is one with an empty child
or_none-empty :
    (p : List Str) (o : Option TreeNode) → or_none (blob_at p) o ≡ blob_at p (get_or o empty_node)
or_none-empty p none = sym (blob_at-empty p)
or_none-empty p (some c) = refl

deleted-empty :
    (p : List Str) (o : Option TreeNode)
    → in_child (deleted_at p) o false ≡ deleted_at p (get_or o empty_node)
deleted-empty p none = sym (deleted_at-empty p)
deleted-empty p (some c) = refl

clear-empty :
    (p : List Str) (o : Option TreeNode)
    → in_child (is_clear p) o true ≡ is_clear p (get_or o empty_node)
clear-empty p none = sym (is_clear-empty p)
clear-empty p (some c) = refl

pub blob_at-add_blob :
    (x y : Str) (xs ys : List Str) (b : Blob) (n : TreeNode)
    → blob_at (x ∷ xs) (add_blob (y ∷ ys) b n)
      ≡ (if parts_eq (y ∷ ys) (x ∷ xs) then some b else blob_at (x ∷ xs) n)
unfolding blob_at add_blob parts_eq
blob_at-add_blob x y [] [] b (node bs ds cs) = dict_get-dict_set x y b bs ∙ ground arith
blob_at-add_blob x y (w ∷ ws) [] b (node bs ds cs) = ground arith
blob_at-add_blob x y [] (z ∷ zs) b (node bs ds cs) = ground arith
blob_at-add_blob x y (w ∷ ws) (z ∷ zs) b (node bs ds cs) = ground (
  arith,
  child_at-at_child x y (add_blob (z ∷ zs) b) cs,
  blob_at-add_blob w z ws zs b (get_or (child_at x cs) empty_node),
  or_none-empty (w ∷ ws) (child_at x cs),
)

pub deleted_at-add_blob :
    (x y : Str) (xs ys : List Str) (b : Blob) (n : TreeNode)
    → deleted_at (x ∷ xs) (add_blob (y ∷ ys) b n) ≡ deleted_at (x ∷ xs) n
unfolding deleted_at add_blob
deleted_at-add_blob x y [] [] b (node bs ds cs) = refl
deleted_at-add_blob x y (w ∷ ws) [] b (node bs ds cs) = refl
deleted_at-add_blob x y [] (z ∷ zs) b (node bs ds cs) = refl
deleted_at-add_blob x y (w ∷ ws) (z ∷ zs) b (node bs ds cs) = ground (
  arith,
  child_at-at_child x y (add_blob (z ∷ zs) b) cs,
  deleted_at-add_blob w z ws zs b (get_or (child_at x cs) empty_node),
  deleted-empty (w ∷ ws) (child_at x cs),
)

pub is_clear-add_blob :
    (x y : Str) (xs ys : List Str) (b : Blob) (n : TreeNode)
    → is_clear (x ∷ xs) (add_blob (y ∷ ys) b n) ≡ (
        is_clear (x ∷ xs) n
        && (not (is_above (x ∷ xs) (y ∷ ys)) && not (is_above (y ∷ ys) (x ∷ xs))))
unfolding is_clear add_blob is_above
is_clear-add_blob x y [] [] b (node bs ds cs) = ground arith
is_clear-add_blob x y (w ∷ ws) [] b (node bs ds cs) =
    ground (arith, dict_get-dict_set x y b bs, str_eq_iff x y, str_eq_iff y x)
is_clear-add_blob x y [] (z ∷ zs) b (node bs ds cs) =
    ground (arith, child_at-at_child x y (add_blob (z ∷ zs) b) cs, str_eq_iff x y, str_eq_iff y x)
is_clear-add_blob x y (w ∷ ws) (z ∷ zs) b (node bs ds cs) = ground (
  arith,
  child_at-at_child x y (add_blob (z ∷ zs) b) cs,
  is_clear-add_blob w z ws zs b (get_or (child_at x cs) empty_node),
  clear-empty (w ∷ ws) (child_at x cs),
  str_eq_iff x y,
  str_eq_iff y x,
)

pub blob_at-add_delete :
    (x y : Str) (xs ys : List Str) (n : TreeNode)
    → blob_at (x ∷ xs) (add_delete (y ∷ ys) n) ≡ blob_at (x ∷ xs) n
unfolding blob_at add_delete
blob_at-add_delete x y [] [] (node bs ds cs) = refl
blob_at-add_delete x y (w ∷ ws) [] (node bs ds cs) = refl
blob_at-add_delete x y [] (z ∷ zs) (node bs ds cs) = refl
blob_at-add_delete x y (w ∷ ws) (z ∷ zs) (node bs ds cs) = ground (
  arith,
  child_at-at_child x y (add_delete (z ∷ zs)) cs,
  blob_at-add_delete w z ws zs (get_or (child_at x cs) empty_node),
  or_none-empty (w ∷ ws) (child_at x cs),
)

pub deleted_at-add_delete :
    (x y : Str) (xs ys : List Str) (n : TreeNode)
    → deleted_at (x ∷ xs) (add_delete (y ∷ ys) n)
      ≡ (if parts_eq (y ∷ ys) (x ∷ xs) then true else deleted_at (x ∷ xs) n)
unfolding deleted_at add_delete parts_eq contains
deleted_at-add_delete x y [] [] (node bs ds cs) = ground arith
deleted_at-add_delete x y (w ∷ ws) [] (node bs ds cs) = ground arith
deleted_at-add_delete x y [] (z ∷ zs) (node bs ds cs) = ground arith
deleted_at-add_delete x y (w ∷ ws) (z ∷ zs) (node bs ds cs) = ground (
  arith,
  child_at-at_child x y (add_delete (z ∷ zs)) cs,
  deleted_at-add_delete w z ws zs (get_or (child_at x cs) empty_node),
  deleted-empty (w ∷ ws) (child_at x cs),
)

pub is_clear-add_delete :
    (x y : Str) (xs ys : List Str) (n : TreeNode)
    → is_clear (x ∷ xs) (add_delete (y ∷ ys) n)
      ≡ (is_clear (x ∷ xs) n && not (is_above (x ∷ xs) (y ∷ ys)))
unfolding is_clear add_delete is_above
is_clear-add_delete x y [] [] (node bs ds cs) = ground arith
is_clear-add_delete x y (w ∷ ws) [] (node bs ds cs) = ground arith
is_clear-add_delete x y [] (z ∷ zs) (node bs ds cs) =
    ground (arith, child_at-at_child x y (add_delete (z ∷ zs)) cs, str_eq_iff x y, str_eq_iff y x)
is_clear-add_delete x y (w ∷ ws) (z ∷ zs) (node bs ds cs) = ground (
  arith,
  child_at-at_child x y (add_delete (z ∷ zs)) cs,
  is_clear-add_delete w z ws zs (get_or (child_at x cs) empty_node),
  clear-empty (w ∷ ws) (child_at x cs),
  str_eq_iff x y,
  str_eq_iff y x,
)
