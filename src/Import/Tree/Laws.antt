-- ===== src/Import/Tree/Laws.antt =====
-- The order in which the streams of a tree are imported.
use p4sync_git.Prelude.{
  ◌+◌, ◌≤◌, ◌≡◌, refl, ap, subst, ◌∙◌, sym, inl, inr, true, not, Option-cases, Option, none, some,
  is_some, is_some→some, List, [], ◌∷◌, ◌++◌, arith, length, keep, All,
}
use p4sync_git.Text.{Str}
use p4sync_git.Text.Laws.{str_eq_refl}
use p4sync_git.Text.Dict.{Dict, dict_get}
use p4sync_git.Exec.{ok, ok_inj}
use p4sync_git.Import.Tree.Order.{
  is_child_of, names, kids, count, count-split, length-split, IsQueued, flatten_queue-ends,
}
use p4sync_git.Import.Tree.Nodes.{AreFresh, make_nodes-AreFresh, and_then-ok}
use p4sync_git.Import.Tree.Links.{is_root_node, parent_of, option_parent, link_lem, SameNodes}
use p4sync_git.Import.Tree.{
  StreamNode, StreamTable, make_nodes, link, values, build_stream_tree, children_of, flatten_tree,
}
use p4sync_git.Import.Tree.Walk.{
  ParentsFirst, Ready, flatten_queue-ParentsFirst, IsClosed, flatten_queue-IsClosed,
  flatten_queue-same,
}
use p4sync_git.Import.Tree.Fresh.{
  count-values, stands-values, kids-parent, kids-not_root, length-values, fresh-HasParents,
  children_of-fresh, count-keep,
}

-- a root, or the child of a stream of the list
abbrev pub IsReached : List Str → Option Str → Type 0
IsReached r none = Unit
IsReached r (some p) = 1 ≤ count p r

-- The queue of the roots is emptied, and the streams it gives are in order, each once; with a stream
-- all its children are there.
abbrev pub IsOrdered : Dict StreamNode × List Str → Type 0
IsOrdered (nodes, roots) =
    (r : List Str) × (flatten_tree nodes roots ≡ some r)
    × ParentsFirst (parent_of nodes) [] r
    × ((x : Str) → count x r ≤ 1)
    × ((x : Str)
        → is_some (dict_get x nodes) ≡ true
        → IsReached r (parent_of nodes x)
        → 1 ≤ count x r)

module _ (streams : List Str) (d : Dict StreamNode) (f : AreFresh streams d) where
  at_most_once : (x : Str) → count x (names (values d)) ≤ 1
  at_most_once x = ground (arith, count-values streams d x f)

  roots-IsQueued :
      IsQueued
        (values d)
        (names (keep is_root_node (values d)))
        (keep (λ n. not (is_root_node n)) (values d))
  roots-IsQueued = record {
    once = λ x. omega (arith, count-split is_root_node x (values d), at_most_once x);
    left = λ m h. sym (kids-not_root m (values d));
  }

  roots-Ready :
      (ns : List StreamNode)
      → All (λ (m : StreamNode). dict_get m.stream d ≡ some m) ns
      → Ready (parent_of d) [] (names (keep is_root_node ns))
  roots-Ready [] h = tt
  roots-Ready (n ∷ ns) h = elim (Option-cases n.parent_stream) [
    | inl e ↦ rw e (
      λ p k. absurd (let bad : none ≡ some p = sym (ap option_parent h.0 ∙ e) ∙ k in cc),
      roots-Ready ns h.1,
    )
    | inr (p, e) ↦ rw e (roots-Ready ns h.1)
  ]

  complete :
      (x : Str) (r : List Str)
      → IsClosed (kids (values d)) (names (keep is_root_node (values d))) r
      → is_some (dict_get x d) ≡ true
      → IsReached r (parent_of d x)
      → 1 ≤ count x r
  complete x r c h reached =
      let (n, e) = is_some→some (dict_get x d) h in
      let reached' : IsReached r n.parent_stream =
        subst (λ o. IsReached r (option_parent o)) e reached in
      elim (Option-cases n.parent_stream) [
        | inl k ↦ c.0 x (count-keep streams is_root_node d x n f e (rw k refl))
        | inr (p, k) ↦
            c.1 p x (subst (IsReached r) k reached')
              (count-keep streams (is_child_of p) d x n f e (rw k (str_eq_refl p)))
      ]

  -- the order of the streams of fresh nodes, once they are linked
  fresh-IsOrdered :
      (nodes : Dict StreamNode)
      → SameNodes d nodes
      → ((x : Str) → children_of nodes x ≡ kids (values d) x)
      → IsOrdered (nodes, names (keep is_root_node (values d)))
  unfolding flatten_tree
  fresh-IsOrdered nodes same cs =
      let roots = names (keep is_root_node (values d)) in
      let rest = keep (λ n. not (is_root_node n)) (values d) in
      let enough : length roots + length rest ≤ length nodes =
        omega (arith, length-split is_root_node (values d), length-values d, same.2) in
      let (r, e, c) =
        flatten_queue-ends (values d) (length nodes) roots rest enough roots-IsQueued in
      let stands = stands-values streams d f in
      (
        r,
        flatten_queue-same (children_of nodes) (kids (values d)) cs (length nodes) roots ∙ e,
        subst (λ g. ParentsFirst g [] r) (sym (λ i x. same.0 x i))
            (flatten_queue-ParentsFirst (parent_of d) (kids (values d))
              (λ m. kids-parent d (values d) m stands) (length nodes) roots [] r
              (roots-Ready (values d) stands) e),
        λ x. omega (arith, c x, count-split is_root_node x (values d), at_most_once x),
        λ x h reached.
            complete x r (flatten_queue-IsClosed (kids (values d)) (length nodes) roots r e)
              (sym (same.1 x) ∙ h) (subst (IsReached r) (same.0 x) reached),
      )

-- If the tree of the streams can be built, the loop over its queue ends within as many rounds as
-- there are nodes; a stream comes if it is a root or its parent comes, and then once and behind its
-- parent.
pub build_stream_tree-flatten_tree :
    (p4 : StreamTable) (streams : List Str) (default_branch : Str) (nodes : Dict StreamNode)
    (roots : List Str)
    → build_stream_tree p4 streams default_branch ≡ ok (nodes, roots)
    → IsOrdered (nodes, roots)
unfolding build_stream_tree
build_stream_tree-flatten_tree p4 streams default_branch nodes roots h =
    let (d, e, k) =
      and_then-ok (make_nodes p4 streams default_branch streams []) _ (nodes, roots) h in
    let (f, c) = make_nodes-AreFresh p4 streams default_branch streams [] d e tt in
    let parents = fresh-HasParents streams d d (λ s m. c s (rw m refl)) f in
    let (same, rs, cs) = link_lem (values d) d [] parents in
    let made = (link (values d) d []).0 in
    let ordered : IsOrdered (made, names (keep is_root_node (values d))) =
      fresh-IsOrdered streams d f made same
        (λ x. cs x ∙ ap (λ t. t ++ kids (values d) x) (children_of-fresh streams d x f)) in
    subst IsOrdered (ok_inj (link (values d) d []) (nodes, roots) k)
      (subst (λ t. IsOrdered (made, t)) (sym rs) ordered)
