-- ===== src/Import/Tree/Links.antt =====
-- What the linking of children to their parents makes of the nodes.
use mathlib.Core.List.{append-nil, append_assoc}
use p4sync_git.Prelude.{
  ◌≡◌, refl, ap, ◌∙◌, sym, inl, inr, Bool, true, not, Bool-cases, Option-cases, Option, none, some,
  is_some, is_some→some, List, [], ◌∷◌, ◌++◌, arith, length, keep, if◌then◌else◌, All,
}
use p4sync_git.Text.{Str, str_eq}
use p4sync_git.Text.Laws.{str_eq→eq}
use p4sync_git.Text.Dict.{Dict, dict_get, dict_set}
use p4sync_git.Text.Dict.Laws.{dict_get-dict_set}
use p4sync_git.Import.Tree.Order.{names, kids}
use p4sync_git.Import.Tree.{StreamNode, link, children_of, add_child}

abbrev pub is_root_node : StreamNode → Bool
is_root_node n = not (is_some n.parent_stream)

abbrev pub option_parent : Option StreamNode → Option Str
option_parent none = none
option_parent (some n) = n.parent_stream

-- the parent of a stream in a dictionary of nodes
abbrev pub parent_of : Dict StreamNode → Str → Option Str
parent_of nodes x = option_parent (dict_get x nodes)

-- what linking keeps: every key, every parent, and the number of nodes
abbrev pub SameNodes : Dict StreamNode → Dict StreamNode → Type 0
SameNodes d e =
    ((x : Str) → parent_of e x ≡ parent_of d x)
    × ((x : Str) → is_some (dict_get x e) ≡ is_some (dict_get x d))
    × (length e ≡ length d)

length-dict_set :
    (k : Str) (n : StreamNode) (d : Dict StreamNode)
    → is_some (dict_get k d) ≡ true
    → length (dict_set k n d) ≡ length d
unfolding dict_get dict_set
length-dict_set k n [] h = cc
length-dict_set k n ((j, m) ∷ d) h = ground (arith, length-dict_set k n d)

-- One child is added to the node of its parent.
add_child-SameNodes :
    (p s : Str) (m : StreamNode) (d : Dict StreamNode)
    → dict_get p d ≡ some m
    → SameNodes d (dict_set p (add_child s m) d)
add_child-SameNodes p s m d h = (
  λ x. elim (Bool-cases (str_eq p x)) [
    | inl e ↦ rw (dict_get-dict_set x p (add_child s m) d, e, ← str_eq→eq p x e, h) refl
    | inr e ↦ rw (dict_get-dict_set x p (add_child s m) d, e) refl
  ],
  λ x. elim (Bool-cases (str_eq p x)) [
    | inl e ↦ rw (dict_get-dict_set x p (add_child s m) d, e, ← str_eq→eq p x e, h) refl
    | inr e ↦ rw (dict_get-dict_set x p (add_child s m) d, e) refl
  ],
  length-dict_set p (add_child s m) d (rw h refl),
)

add_child-children :
    (p s : Str) (m : StreamNode) (d : Dict StreamNode) (x : Str)
    → dict_get p d ≡ some m
    → children_of (dict_set p (add_child s m) d) x
      ≡ children_of d x ++ (if str_eq p x then s ∷ [] else [])
add_child-children p s m d x h = elim (Bool-cases (str_eq p x)) [
  | inl e ↦ rw (dict_get-dict_set x p (add_child s m) d, e, ← str_eq→eq p x e, h) refl
  | inr e ↦ rw (dict_get-dict_set x p (add_child s m) d, e) (sym (append-nil (children_of d x)))
]

-- The parents are all there.
abbrev pub HasParents : Dict StreamNode → List StreamNode → Type 0
HasParents d =
    All (λ (n : StreamNode). (p : Str) → n.parent_stream ≡ some p → is_some (dict_get p d) ≡ true)

SameNodes-HasParents :
    (d e : Dict StreamNode) (ns : List StreamNode)
    → SameNodes d e
    → HasParents d ns
    → HasParents e ns
SameNodes-HasParents d e [] s h = tt
SameNodes-HasParents d e (n ∷ ns) s h = (λ p k. s.1 p ∙ h.0 p k, SameNodes-HasParents d e ns s h.1)

link-none :
    (n : StreamNode) (ns : List StreamNode) (d : Dict StreamNode) (roots : List Str)
    → n.parent_stream ≡ none
    → link (n ∷ ns) d roots ≡ link ns d (roots ++ (n.stream ∷ []))
unfolding link
link-none n ns d roots e = rw e refl

link-some :
    (n m : StreamNode) (p : Str) (ns : List StreamNode) (d : Dict StreamNode) (roots : List Str)
    → n.parent_stream ≡ some p
    → dict_get p d ≡ some m
    → link (n ∷ ns) d roots ≡ link ns (dict_set p (add_child n.stream m) d) roots
unfolding link
link-some n m p ns d roots e k = rw (e, k) refl

kids-some :
    (n : StreamNode) (p x : Str) (ns : List StreamNode)
    → n.parent_stream ≡ some p
    → kids (n ∷ ns) x ≡ (if str_eq p x then n.stream ∷ [] else []) ++ kids ns x
kids-some n p x ns e = elim (Bool-cases (str_eq p x)) [
  | inl k ↦ rw (e, k) refl
  | inr k ↦ rw (e, k) refl
]

-- The roots are the streams without a parent, and each node has the children that name it.
pub link_lem :
    (ns : List StreamNode) (d : Dict StreamNode) (roots : List Str)
    → HasParents d ns
    → let (e, rs) = link ns d roots in
      SameNodes d e
      × (rs ≡ roots ++ names (keep is_root_node ns))
      × ((x : Str) → children_of e x ≡ children_of d x ++ kids ns x)
link_lem [] d roots h =
    unfold link in
    ((λ x. refl, λ x. refl, refl), sym (append-nil roots), λ x. sym (append-nil (children_of d x)))
link_lem (n ∷ ns) d roots h = elim (Option-cases n.parent_stream) [
  | inl e ↦
      let (same, rs, cs) = link_lem ns d (roots ++ (n.stream ∷ [])) h.1 in
      rw (link-none n ns d roots e) (
        same,
        rs
            ∙ append_assoc roots (n.stream ∷ []) (names (keep is_root_node ns))
            ∙ ap (λ t. roots ++ t) (rw e refl),
        λ x. cs x ∙ ap (λ t. children_of d x ++ t) (rw e refl),
      )
  | inr (p, e) ↦
      let (m, k) = is_some→some (dict_get p d) (h.0 p e) in
      let d' = dict_set p (add_child n.stream m) d in
      let kept = add_child-SameNodes p n.stream m d k in
      let (same, rs, cs) = link_lem ns d' roots (SameNodes-HasParents d d' ns kept h.1) in
      rw (link-some n m p ns d roots e k) (
        (λ x. same.0 x ∙ kept.0 x, λ x. same.1 x ∙ kept.1 x, same.2 ∙ kept.2),
        rs ∙ ap (λ t. roots ++ t) (rw e refl),
        λ x.
            cs x
            ∙ ap (λ t. t ++ kids ns x) (add_child-children p n.stream m d x k)
            ∙ append_assoc (children_of d x) (if str_eq p x then n.stream ∷ [] else []) (kids ns x)
            ∙ ap (λ t. children_of d x ++ t) (sym (kids-some n p x ns e)),
      )
]
