-- ===== src/Import/Tree/Fresh.antt =====
-- The nodes of the dictionary before they are linked.
use p4sync_git.Prelude.{
  ◌≤◌, ◌≡◌, refl, ap, subst, ◌∙◌, sym, inl, inr, Bool, true, false, not, Bool-cases, Option-cases,
  Option, none, some, is_some, List, [], ◌∷◌, arith, length, keep, if◌then◌else◌, All,
}
use p4sync_git.Text.{Str, str_eq, contains}
use p4sync_git.Text.Laws.{str_eq_refl, str_eq→eq}
use p4sync_git.Text.Dict.{Dict, dict_get}
use p4sync_git.Import.Tree.Order.{is_child_of, is_stream, names, kids, count}
use p4sync_git.Import.Tree.Nodes.{AreFresh}
use p4sync_git.Import.Tree.Links.{is_root_node, parent_of, option_parent, HasParents}
use p4sync_git.Import.Tree.{StreamNode, values, children_of}
use p4sync_git.Import.Tree.Walk.{some_inj}

-- Each stream stands for itself and once in a dictionary of fresh nodes.
pub count-values :
    (streams : List Str) (d : Dict StreamNode) (x : Str)
    → AreFresh streams d
    → count x (names (values d)) ≡ (if is_some (dict_get x d) then 1 else 0)
unfolding dict_get
count-values streams [] x h = refl
count-values streams ((k, n) ∷ d) x h = elim (Bool-cases (str_eq k x)) [
  | inl e ↦
      let gone : dict_get x d ≡ none = subst (λ y. dict_get y d ≡ none) (str_eq→eq k x e) h.1 in
      let here : str_eq n.stream x ≡ true = subst (λ y. str_eq y x ≡ true) h.0.0 e in
      let none_left : count x (names (values d)) ≡ 0 =
        count-values streams d x h.2 ∙ ap (λ o. if is_some o then 1 else 0) gone in
      rw (e, here) (omega (arith, none_left))
  | inr e ↦
      let away : str_eq n.stream x ≡ false = subst (λ y. str_eq y x ≡ false) h.0.0 e in
      rw (e, away) (omega (arith, count-values streams d x h.2))
]

stands-cons :
    (k : Str) (n : StreamNode) (d : Dict StreamNode) (ns : List StreamNode)
    → dict_get k d ≡ none
    → All (λ (m : StreamNode). dict_get m.stream d ≡ some m) ns
    → All (λ (m : StreamNode). dict_get m.stream ((k, n) ∷ d) ≡ some m) ns
unfolding dict_get
stands-cons k n d [] h a = tt
stands-cons k n d (m ∷ ns) h a = (
  elim (Bool-cases (str_eq k m.stream)) [
    | inl e ↦ absurd (
        let bad : none ≡ some m = sym h ∙ ap (λ y. dict_get y d) (str_eq→eq k m.stream e) ∙ a.0 in
        cc)
    | inr e ↦ rw e a.0
  ],
  stands-cons k n d ns h a.1,
)

pub stands-values :
    (streams : List Str) (d : Dict StreamNode)
    → AreFresh streams d
    → All (λ (m : StreamNode). dict_get m.stream d ≡ some m) (values d)
unfolding dict_get
stands-values streams [] h = tt
stands-values streams ((k, n) ∷ d) h = (
  rw (h.0.0, str_eq_refl n.stream) refl,
  stands-cons k n d (values d) h.1 (stands-values streams d h.2),
)

is_stream-some : (m : Str) (o : Option Str) → is_stream m o ≡ true → o ≡ some m
is_stream-some m none h = cc
is_stream-some m (some p) h = ap some (str_eq→eq p m h)

-- The children of a stream name it as their parent.
pub kids-parent :
    (d : Dict StreamNode) (ns : List StreamNode) (m : Str)
    → All (λ (n : StreamNode). dict_get n.stream d ≡ some n) ns
    → All (λ (x : Str). parent_of d x ≡ some m) (kids ns m)
kids-parent d [] m h = tt
kids-parent d (n ∷ ns) m h = elim (Bool-cases (is_child_of m n)) [
  | inl e ↦ rw e (ap option_parent h.0 ∙ is_stream-some m n.parent_stream e, kids-parent d ns m h.1)
  | inr e ↦ rw e (kids-parent d ns m h.1)
]

pub kids-not_root :
    (m : Str) (ns : List StreamNode) → kids (keep (λ n. not (is_root_node n)) ns) m ≡ kids ns m
kids-not_root m [] = refl
kids-not_root m (n ∷ ns) = elim (Option-cases n.parent_stream) [
  | inl e ↦ rw e (kids-not_root m ns)
  | inr (p, e) ↦ elim (Bool-cases (str_eq p m)) [
    | inl k ↦ rw (e, k) (ap (λ t. n.stream ∷ t) (kids-not_root m ns))
    | inr k ↦ rw (e, k) (kids-not_root m ns)
  ]
]

pub length-values : (d : Dict StreamNode) → length (values d) ≡ length d
length-values [] = refl
length-values (e ∷ d) = omega (arith, length-values d)

length-names : (ns : List StreamNode) → length (names ns) ≡ length ns
length-names [] = refl
length-names (n ∷ ns) = omega (arith, length-names ns)

-- the parents of fresh nodes are among the streams, so they have nodes
pub fresh-HasParents :
    (streams : List Str) (all d : Dict StreamNode)
    → ((s : Str) → contains streams s ≡ true → is_some (dict_get s all) ≡ true)
    → AreFresh streams d
    → HasParents all (values d)
fresh-HasParents streams all [] c h = tt
fresh-HasParents streams all ((k, n) ∷ d) c h =
    (λ p e. c p (h.0.2 p e), fresh-HasParents streams all d c h.2)

-- no fresh node has children
pub children_of-fresh :
    (streams : List Str) (d : Dict StreamNode) (x : Str) → AreFresh streams d → children_of d x ≡ []
unfolding dict_get
children_of-fresh streams [] x h = refl
children_of-fresh streams ((k, n) ∷ d) x h = elim (Bool-cases (str_eq k x)) [
  | inl e ↦ rw e h.0.1
  | inr e ↦ rw e (children_of-fresh streams d x h.2)
]

pub count-keep :
    (streams : List Str) (q : StreamNode → Bool) (d : Dict StreamNode) (x : Str) (n : StreamNode)
    → AreFresh streams d
    → dict_get x d ≡ some n
    → q n ≡ true
    → 1 ≤ count x (names (keep q (values d)))
unfolding dict_get
count-keep streams q [] x n h e t = cc
count-keep streams q ((k, m) ∷ d) x n h e t = elim (Bool-cases (str_eq k x)) [
  | inl c ↦
      let same : m ≡ n = some_inj m n (sym (rw c refl) ∙ e) in
      let kept : q m ≡ true = subst (λ y. q y ≡ true) (sym same) t in
      let here : str_eq m.stream x ≡ true = subst (λ y. str_eq y x ≡ true) h.0.0 c in
      rw kept (rw here (omega arith))
  | inr c ↦
      let later = count-keep streams q d x n h.2 (sym (rw c refl) ∙ e) t in
      elim (Bool-cases (q m)) [ inl b ↦ rw b (omega (arith, later)) | inr b ↦ rw b later ]
]
