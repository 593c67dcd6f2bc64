-- ===== src/Import/Tree/Nodes.antt =====
-- What the loop over the streams puts into the dictionary of nodes.
use p4sync_git.Prelude.{
  ◌≡◌, refl, subst, ◌∙◌, inl, inr, true, Bool-cases, none, some, is_some, List, [], ◌∷◌, arith,
  if◌then◌else◌,
}
use p4sync_git.Text.{Str, str_eq, contains}
use p4sync_git.Text.Laws.{str_eq_iff, str_eq→eq}
use p4sync_git.Text.Dict.{Dict, dict_get, dict_set}
use p4sync_git.Text.Dict.Laws.{dict_get-dict_set}
use p4sync_git.Exec.{Result, ok, err, and_then, ok_inj}
use p4sync_git.Import.Tree.{
  StreamNode, StreamTable, known_parent, parent_text, stream_to_branch, branch_point, node_of,
  node_at, with_point, with_branch, make_nodes,
}

pub and_then-ok :
    {A B : Type 0} (r : Result A) (f : A → Result B) (b : B)
    → and_then r f ≡ ok b
    → (a : A) × (r ≡ ok a) × (f a ≡ ok b)
and_then-ok (ok a) f b h = (a, refl, h)
and_then-ok (err e) f b h = cc

-- `P` of what is returned
abbrev Ensures : {A : Type 0} → (A → Type 0) → Result A → Type 0
Ensures P (ok a) = P a
Ensures P (err e) = Unit

Ensures-and_then :
    {A B : Type 0} (P : B → Type 0) (r : Result A) (f : A → Result B)
    → ((a : A) → Ensures P (f a))
    → Ensures P (and_then r f)
Ensures-and_then P (ok a) f h = h a
Ensures-and_then P (err e) f h = tt

ensured : {A : Type 0} (P : A → Type 0) (r : Result A) (a : A) → r ≡ ok a → Ensures P r → P a
ensured P r a e h = subst (Ensures P) e h

-- a node that stands under its stream, with no children yet and a parent among the streams
abbrev pub IsFresh : List Str → Str → StreamNode → Type 0
IsFresh streams k n =
    (k ≡ n.stream)
    × (n.children ≡ [])
    × ((p : Str) → n.parent_stream ≡ some p → contains streams p ≡ true)

abbrev pub AreFresh : List Str → Dict StreamNode → Type 0
AreFresh streams [] = Unit
AreFresh streams ((k, n) ∷ d) = IsFresh streams k n × (dict_get k d ≡ none) × AreFresh streams d

known_parent-contains :
    (streams : List Str) (parent p : Str)
    → known_parent streams parent ≡ some p
    → contains streams p ≡ true
known_parent-contains streams parent p h = ground (arith, h)

node_of-IsFresh :
    (p4 : StreamTable) (streams : List Str) (default_branch stream : Str) (n : StreamNode)
    → node_of p4 streams default_branch stream ≡ ok n
    → IsFresh streams stream n
unfolding node_of
node_of-IsFresh p4 streams default_branch stream n h =
    let P = IsFresh streams stream in
    ensured P (node_of p4 streams default_branch stream) n h (
      Ensures-and_then P (p4.get_stream_info stream) (with_branch p4 streams default_branch stream)
        (λ info.
          let parent = known_parent streams (parent_text info) in
          Ensures-and_then P (stream_to_branch p4 stream default_branch)
            (with_point p4 stream parent)
            (λ branch.
              Ensures-and_then P (branch_point p4 stream parent)
                (λ cl. ok (node_at p4 stream parent branch cl))
                (λ cl. (refl, refl, known_parent-contains streams (parent_text info))))))

dict_set-AreFresh :
    (streams : List Str) (k : Str) (n : StreamNode) (d : Dict StreamNode)
    → IsFresh streams k n
    → AreFresh streams d
    → AreFresh streams (dict_set k n d)
unfolding dict_set dict_get
dict_set-AreFresh streams k n [] f h = (f, refl, tt)
dict_set-AreFresh streams k n ((j, m) ∷ d) f h = elim (Bool-cases (str_eq j k)) [
  | inl e ↦ rw e ((str_eq→eq j k e ∙ f.0, f.1, f.2), h.1, h.2)
  | inr e ↦ rw e (
    h.0,
    dict_get-dict_set j k n d ∙ ground (arith, h.1, str_eq_iff j k, str_eq_iff k j),
    dict_set-AreFresh streams k n d f h.2,
  )
]

-- The dictionary has a fresh node for every stream.
pub make_nodes-AreFresh :
    (p4 : StreamTable) (streams : List Str) (default_branch : Str) (rest : List Str)
    (nodes d : Dict StreamNode)
    → make_nodes p4 streams default_branch rest nodes ≡ ok d
    → AreFresh streams nodes
    → AreFresh streams d
      × ((s : Str)
          → (if contains rest s then true else is_some (dict_get s nodes)) ≡ true
          → is_some (dict_get s d) ≡ true)
unfolding make_nodes contains
make_nodes-AreFresh p4 streams default_branch [] nodes d h f =
    subst
      (λ x.
        AreFresh streams x
        × ((s : Str) → is_some (dict_get s nodes) ≡ true → is_some (dict_get s x) ≡ true))
      (ok_inj nodes d h) (f, λ s k. k)
make_nodes-AreFresh p4 streams default_branch (s ∷ rest) nodes d h f =
    let (n, e, h1) = and_then-ok (node_of p4 streams default_branch s) _ d h in
    let (fresh, all) =
      make_nodes-AreFresh p4 streams default_branch rest (dict_set s n nodes) d h1
        (dict_set-AreFresh streams s n nodes (node_of-IsFresh p4 streams default_branch s n e) f) in
    (fresh, λ t k. all t (ground (arith, k, dict_get-dict_set t s n nodes)))
