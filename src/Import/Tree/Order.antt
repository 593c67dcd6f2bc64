-- ===== src/Import/Tree/Order.antt =====
-- The loop over the queue takes each stream once, and each after its parent.
use p4sync_git.Prelude.{
  ℕ, zero, suc, ◌+◌, ◌≤◌, ◌≡◌, refl, ap, ◌∙◌, sym, inl, inr, Bool, true, false, not, Bool-cases,
  Option, none, some, List, [], ◌∷◌, ◌++◌, map, arith, length, length-append, keep, if◌then◌else◌,
}
use p4sync_git.Text.{Str, str_eq}
use p4sync_git.Text.Laws.{str_eq_iff, str_eq_refl}
use p4sync_git.Import.Tree.{StreamNode, flatten_queue}

abbrev pub is_stream : Str → Option Str → Bool
is_stream m none = false
is_stream m (some p) = str_eq p m

abbrev pub is_child_of : Str → StreamNode → Bool
is_child_of m n = is_stream m n.parent_stream

abbrev pub names : List StreamNode → List Str
names ns = map (λ (n : StreamNode). n.stream) ns

-- the streams of the nodes whose parent is `m`
abbrev pub kids : List StreamNode → Str → List Str
kids ns m = names (keep (is_child_of m) ns)

abbrev pub others : Str → List StreamNode → List StreamNode
others m ns = keep (λ n. not (is_child_of m n)) ns

abbrev pub count : Str → List Str → ℕ
count x [] = 0
count x (y ∷ ys) = (if str_eq y x then 1 else 0) + count x ys

pub count-append : (x : Str) (xs ys : List Str) → count x (xs ++ ys) ≡ count x xs + count x ys
count-append x [] ys = omega arith
count-append x (z ∷ xs) ys = omega (arith, count-append x xs ys)

pub count-split :
    (q : StreamNode → Bool) (x : Str) (ns : List StreamNode)
    → count x (names (keep q ns)) + count x (names (keep (λ n. not (q n)) ns)) ≡ count x (names ns)
count-split q x [] = refl
count-split q x (n ∷ ns) = ground (arith, count-split q x ns)

pub length-split :
    (q : StreamNode → Bool) (ns : List StreamNode)
    → length (names (keep q ns)) + length (keep (λ n. not (q n)) ns) ≡ length ns
length-split q [] = refl
length-split q (n ∷ ns) = ground (arith, length-split q ns)

-- A child of one stream is no child of another.
is_stream-one :
    (m n : Str) (o : Option Str) → str_eq n m ≡ false → is_stream m o ≡ true → is_stream n o ≡ false
is_stream-one m n none d h = refl
is_stream-one m n (some p) d h = ground (arith, str_eq_iff p m, str_eq_iff p n, str_eq_iff n m)

kids-others :
    (m n : Str) (ns : List StreamNode) → str_eq n m ≡ false → kids (others n ns) m ≡ kids ns m
kids-others m n [] d = refl
kids-others m n (x ∷ ns) d =
    ground (arith, kids-others m n ns d, is_stream-one m n x.parent_stream d)

abbrev pub add_first : Str → Option (List Str) → Option (List Str)
add_first n none = none
add_first n (some r) = some (n ∷ r)

pub flatten_queue-suc :
    (fuel : ℕ) (children : Str → List Str) (n : Str) (queue : List Str)
    → flatten_queue (suc fuel) children (n ∷ queue)
      ≡ add_first n (flatten_queue fuel children (queue ++ children n))
unfolding flatten_queue
flatten_queue-suc fuel children n queue = refl

module _ (all : List StreamNode) where
  -- Each stream is queued or left at most once, and the children of one that is are left.
  pub record IsQueued (queue : List Str) (rest : List StreamNode) : Type 0 where
    pub once : (x : Str) → count x queue + count x (names rest) ≤ 1
    pub left : (m : Str) → 1 ≤ count m queue + count m (names rest) → kids all m ≡ kids rest m

  -- Taking a stream moves its children to the queue, and nothing else.
  count-step :
      (n x : Str) (queue : List Str) (rest : List StreamNode)
      → IsQueued (n ∷ queue) rest
      → count x (queue ++ kids all n) + count x (names (others n rest))
        ≡ count x queue + count x (names rest)
  count-step n x queue rest i =
      let own : kids all n ≡ kids rest n = i.left n (ground (arith, str_eq_refl n)) in
      rw own (omega (arith, count-append x queue (kids rest n), count-split (is_child_of n) x rest))

  IsQueued-step :
      (n : Str) (queue : List Str) (rest : List StreamNode)
      → IsQueued (n ∷ queue) rest
      → IsQueued (queue ++ kids all n) (others n rest)
  IsQueued-step n queue rest i = record {
    once = λ x. omega (arith, i.once x, count-step n x queue rest i);
    left = λ m h. elim (Bool-cases (str_eq n m)) [
      | inl e ↦ absurd (ground (arith, count-step n m queue rest i, i.once m))
      | inr e ↦ i.left m (omega (arith, count-step n m queue rest i)) ∙ sym (kids-others m n rest e)
    ];
  }

  -- With as much fuel as there are streams the queue is emptied, and no stream is taken twice.
  pub flatten_queue-ends :
      (fuel : ℕ) (queue : List Str) (rest : List StreamNode)
      → length queue + length rest ≤ fuel
      → IsQueued queue rest
      → (r : List Str) × (flatten_queue fuel (kids all) queue ≡ some r)
        × ((x : Str) → count x r ≤ count x queue + count x (names rest))
  unfolding flatten_queue
  flatten_queue-ends fuel [] rest l i = ([], refl, λ x. omega arith)
  flatten_queue-ends zero (n ∷ queue) rest l i = absurd (omega arith)
  flatten_queue-ends (suc fuel) (n ∷ queue) rest l i =
      let own : kids all n ≡ kids rest n = i.left n (ground (arith, str_eq_refl n)) in
      let shorter : length (queue ++ kids all n) + length (others n rest) ≤ fuel =
        rw own
          (omega (arith, length-append queue (kids rest n), length-split (is_child_of n) rest)) in
      let (r, e, c) =
        flatten_queue-ends fuel (queue ++ kids all n) (others n rest) shorter
          (IsQueued-step n queue rest i) in
      (
        n ∷ r,
        flatten_queue-suc fuel (kids all) n queue ∙ ap (add_first n) e,
        λ x. omega (arith, c x, count-step n x queue rest i),
      )
