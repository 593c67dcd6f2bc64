-- ===== src/Git/Tree/Laws.antt =====
-- The file at a path of the tree that `_build_tree_incremental` builds.
use p4sync_git.Prelude.{
  ℕ, ◌≡◌, ◌≢◌, refl, ap, subst, ◌∙◌, sym, inl, inr, Bool, true, false, not, ◌&&◌, Option, some,
  List, [], ◌∷◌, arith, if◌then◌else◌, Bool-cases, ◌==◌,
}
use p4sync_git.Text.{Str, contains, str_eq, split, join, push_head}
use p4sync_git.Text.Laws.{str_eq_iff, str_eq_refl, str_eq→eq, split-ne-nil}
use p4sync_git.Text.Dict.{Dict, dict_get}
use p4sync_git.Git.FileMode.{FileChange}
use p4sync_git.Git.Tree.Find.{blob_at, deleted_at, is_clear, changed, find-rebuild}
use p4sync_git.Git.Tree.Build.{
  parts_eq, is_above, blob_at-empty, deleted_at-empty, is_clear-empty, blob_at-add_blob,
  deleted_at-add_blob, is_clear-add_blob, blob_at-add_delete, deleted_at-add_delete,
  is_clear-add_delete, add_blob-IsNode, add_delete-IsNode,
}
use p4sync_git.Git.Tree.{
  Blob, Tree, TreeNode, empty_node, add_blob, add_delete, add_blobs, add_deletes, build, slash,
  blobs_of, build_tree_incremental, or_leaf, find, IsTree, IsNode,
}

-- The parts of a path joined again.
rejoin : List Str → Str
rejoin ps = join (slash ∷ []) ps

join-push_head : (c : ℕ) (ws : List Str) → ws ≢ [] → rejoin (push_head c ws) ≡ c ∷ rejoin ws
unfolding rejoin join
join-push_head c [] h = absurd (h refl)
join-push_head c (w ∷ []) h = refl
join-push_head c (w ∷ v ∷ ws) h = refl

rejoin-nil : (ws : List Str) → ws ≢ [] → rejoin ([] ∷ ws) ≡ slash ∷ rejoin ws
unfolding rejoin join
rejoin-nil [] h = absurd (h refl)
rejoin-nil (w ∷ ws) h = refl

rejoin-split : (s : Str) → rejoin (split slash s) ≡ s
unfolding split rejoin join
rejoin-split [] = refl
rejoin-split (c ∷ s) = elim (Bool-cases (c == slash)) [
  | inl e ↦
      rw e (rejoin-nil (split slash s) (split-ne-nil slash s) ∙ ground (arith, rejoin-split s))
  | inr e ↦
      rw e
        (join-push_head c (split slash s) (split-ne-nil slash s) ∙ ap (λ t. c ∷ t) (rejoin-split s))
]

parts_eq→eq : (ps qs : List Str) → parts_eq ps qs ≡ true → ps ≡ qs
unfolding parts_eq
parts_eq→eq [] [] h = refl
parts_eq→eq [] (y ∷ ys) h = cc
parts_eq→eq (x ∷ xs) [] h = cc
parts_eq→eq (x ∷ xs) (y ∷ ys) h = ground (arith, str_eq_iff x y, parts_eq→eq xs ys)

parts_eq_refl : (ps : List Str) → parts_eq ps ps ≡ true
unfolding parts_eq
parts_eq_refl [] = refl
parts_eq_refl (x ∷ xs) = ground (arith, str_eq_refl x, parts_eq_refl xs)

cons_of : (ws : List Str) → (ws ≡ [] → ⊥) → (x : Str) × (xs : List Str) × (ws ≡ x ∷ xs)
cons_of [] h = absurd (h refl)
cons_of (x ∷ xs) h = (x, xs, refl)

same_truth : (a b : Bool) → (a ≡ true → b ≡ true) → (b ≡ true → a ≡ true) → a ≡ b
same_truth true b f g = sym (f refl)
same_truth false true f g = g refl
same_truth false false f g = refl

parts_eq-split : (p q : Str) → parts_eq (split slash p) (split slash q) ≡ str_eq p q
parts_eq-split p q =
    same_truth (parts_eq (split slash p) (split slash q)) (str_eq p q)
      (λ h. (str_eq_iff p q).1 (
        sym (rejoin-split p)
        ∙ ap rejoin (parts_eq→eq (split slash p) (split slash q) h)
        ∙ rejoin-split q))
      (λ h.
        subst (λ t. parts_eq (split slash p) (split slash t) ≡ true) (str_eq→eq p q h)
          (parts_eq_refl (split slash p)))

-- `f` of the parts of a path, which are never none
split-cons : (s : Str) → (x : Str) × (xs : List Str) × (split slash s ≡ x ∷ xs)
split-cons s = cons_of (split slash s) (split-ne-nil slash s)

-- whether one of two paths is a directory of the other, and whether the first is one of the second
abbrev pub is_dir_of : Str → Str → Bool
is_dir_of p q = is_above (split slash p) (split slash q)

-- No changed or deleted path is below the path, and no changed one is a directory of it.
unfoldable pub is_clear_of : Str → Dict Blob → List Str → Bool
unfolding is_above split
is_clear_of p [] [] = true
is_clear_of p ((q, b) ∷ bs) [] = is_clear_of p bs [] && (not (is_dir_of p q) && not (is_dir_of q p))
is_clear_of p bs (d ∷ ds) = is_clear_of p bs ds && not (is_dir_of p d)

module _ (p q : Str) where
  blob_at-add_blob_path :
      (b : Blob) (n : TreeNode)
      → blob_at (split slash p) (add_blob (split slash q) b n)
        ≡ (if str_eq q p then some b else blob_at (split slash p) n)
  blob_at-add_blob_path b n =
      let (x, xs, e) = split-cons p in
      let (y, ys, k) = split-cons q in
      rw (← parts_eq-split q p, e, k) (blob_at-add_blob x y xs ys b n)

  is_clear-add_blob_path :
      (b : Blob) (n : TreeNode)
      → is_clear (split slash p) (add_blob (split slash q) b n)
        ≡ (is_clear (split slash p) n && (not (is_dir_of p q) && not (is_dir_of q p)))
  is_clear-add_blob_path b n =
      let (x, xs, e) = split-cons p in
      let (y, ys, k) = split-cons q in rw (e, k) (is_clear-add_blob x y xs ys b n)

  deleted_at-add_blob_path :
      (b : Blob) (n : TreeNode)
      → deleted_at (split slash p) (add_blob (split slash q) b n) ≡ deleted_at (split slash p) n
  deleted_at-add_blob_path b n =
      let (x, xs, e) = split-cons p in
      let (y, ys, k) = split-cons q in rw (e, k) (deleted_at-add_blob x y xs ys b n)

  blob_at-add_delete_path :
      (n : TreeNode)
      → blob_at (split slash p) (add_delete (split slash q) n) ≡ blob_at (split slash p) n
  blob_at-add_delete_path n =
      let (x, xs, e) = split-cons p in
      let (y, ys, k) = split-cons q in rw (e, k) (blob_at-add_delete x y xs ys n)

  deleted_at-add_delete_path :
      (n : TreeNode)
      → deleted_at (split slash p) (add_delete (split slash q) n)
        ≡ (if str_eq q p then true else deleted_at (split slash p) n)
  deleted_at-add_delete_path n =
      let (x, xs, e) = split-cons p in
      let (y, ys, k) = split-cons q in
      rw (← parts_eq-split q p, e, k) (deleted_at-add_delete x y xs ys n)

  is_clear-add_delete_path :
      (n : TreeNode)
      → is_clear (split slash p) (add_delete (split slash q) n)
        ≡ (is_clear (split slash p) n && not (is_dir_of p q))
  is_clear-add_delete_path n =
      let (x, xs, e) = split-cons p in
      let (y, ys, k) = split-cons q in rw (e, k) (is_clear-add_delete x y xs ys n)

-- what the dictionary of a change and its set of deletions say of a path
module _ (p : Str) where
  blob_at-build :
      (bs : Dict Blob) (ds : List Str) → blob_at (split slash p) (build bs ds) ≡ dict_get p bs
  unfolding build dict_get
  blob_at-build [] [] = blob_at-empty (split slash p)
  blob_at-build ((q, b) ∷ bs) [] =
      ground (arith, blob_at-add_blob_path p q b (add_blobs bs empty_node), blob_at-build bs [])
  blob_at-build bs (d ∷ ds) =
      blob_at-add_delete_path p d (add_deletes ds (add_blobs bs empty_node)) ∙ blob_at-build bs ds

  deleted_at-build :
      (bs : Dict Blob) (ds : List Str) → deleted_at (split slash p) (build bs ds) ≡ contains ds p
  unfolding build contains
  deleted_at-build [] [] = deleted_at-empty (split slash p)
  deleted_at-build ((q, b) ∷ bs) [] =
      deleted_at-add_blob_path p q b (add_blobs bs empty_node) ∙ deleted_at-build bs []
  deleted_at-build bs (d ∷ ds) = ground (
    arith,
    deleted_at-add_delete_path p d (add_deletes ds (add_blobs bs empty_node)),
    deleted_at-build bs ds,
  )

  is_clear-build :
      (bs : Dict Blob) (ds : List Str)
      → is_clear (split slash p) (build bs ds) ≡ is_clear_of p bs ds
  unfolding build is_clear_of
  is_clear-build [] [] = is_clear-empty (split slash p)
  is_clear-build ((q, b) ∷ bs) [] =
      ground (arith, is_clear-add_blob_path p q b (add_blobs bs empty_node), is_clear-build bs [])
  is_clear-build bs (d ∷ ds) = ground (
    arith,
    is_clear-add_delete_path p d (add_deletes ds (add_blobs bs empty_node)),
    is_clear-build bs ds,
  )

build-IsNode : (bs : Dict Blob) (ds : List Str) → IsNode (build bs ds)
unfolding build IsNode
build-IsNode [] [] = tt
build-IsNode ((q, b) ∷ bs) [] =
    add_blob-IsNode (split slash q) b (add_blobs bs empty_node) (build-IsNode bs [])
build-IsNode bs (d ∷ ds) =
    add_delete-IsNode (split slash d) (add_deletes ds (add_blobs bs empty_node))
      (build-IsNode bs ds)

-- In a tree built for a branch, a path that is no directory of a changed or deleted path, and none of
-- whose directories becomes a file, holds the new file if it is changed, nothing if it is deleted only,
-- and otherwise what the tree of the branch has there.
pub find-build_tree_incremental :
    (create_blob : List ℕ → Str) (prev : Option Tree) (changes : List FileChange)
    (deletes : List Str) (p : Str)
    → IsTree (or_leaf prev)
    → is_clear_of p (blobs_of create_blob changes []) deletes ≡ true
    → find (split slash p) (build_tree_incremental create_blob prev changes deletes)
      ≡ changed
          (dict_get p (blobs_of create_blob changes []))
          (contains deletes p)
          (find (split slash p) (or_leaf prev))
unfolding build_tree_incremental
find-build_tree_incremental create_blob prev changes deletes p t c =
    let bs = blobs_of create_blob changes [] in
    rw (← blob_at-build p bs deletes, ← deleted_at-build p bs deletes)
      (find-rebuild (split slash p) (build bs deletes) prev (build-IsNode bs deletes) t
        (is_clear-build p bs deletes ∙ c))
