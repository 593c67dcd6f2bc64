-- ===== src/Import/Tree/Walk.antt =====
-- The streams that the loop over the queue takes: parents first, and with each stream its children.
use p4sync_git.Prelude.{
  ℕ, zero, suc, ◌+◌, ◌≤◌, ◌≡◌, refl, ap, subst, ◌∙◌, sym, inl, inr, true, Bool-cases, Option-cases,
  Option, none, some, List, [], ◌∷◌, ◌++◌, arith, All, All-append,
}
use p4sync_git.Text.{Str, str_eq, contains}
use p4sync_git.Text.Laws.{str_eq_refl, str_eq→eq}
use p4sync_git.Import.Tree.Order.{count, count-append, add_first, flatten_queue-suc}
use p4sync_git.Import.Tree.{flatten_queue}

-- Every stream of the list has its parent, if it has one, before it or among those done.
abbrev pub ParentsFirst : (Str → Option Str) → List Str → List Str → Type 0
ParentsFirst parent done [] = Unit
ParentsFirst parent done (x ∷ r) =
    ((p : Str) → parent x ≡ some p → contains done p ≡ true) × ParentsFirst parent (x ∷ done) r

pub some_inj : {A : Type 0} (a b : A) → some a ≡ some b → a ≡ b
some_inj {A} a b e = ap (λ (o : Option A). elim o [ none ↦ a | some x ↦ x ]) e

abbrev pub Ready : (Str → Option Str) → List Str → List Str → Type 0
Ready parent done = All (λ (x : Str). (p : Str) → parent x ≡ some p → contains done p ≡ true)

Ready-more :
    (parent : Str → Option Str) (done : List Str) (n : Str) (xs : List Str)
    → Ready parent done xs
    → Ready parent (n ∷ done) xs
unfolding contains
Ready-more parent done n [] h = tt
Ready-more parent done n (x ∷ xs) h =
    (λ p e. ground (arith, h.0 p e), Ready-more parent done n xs h.1)

contains-head : (n : Str) (done : List Str) → contains (n ∷ done) n ≡ true
unfolding contains
contains-head n done = ground (arith, str_eq_refl n)

Ready-children :
    (parent : Str → Option Str) (done : List Str) (n : Str) (xs : List Str)
    → All (λ (x : Str). parent x ≡ some n) xs
    → Ready parent (n ∷ done) xs
Ready-children parent done n [] h = tt
Ready-children parent done n (x ∷ xs) h = (
  λ p e.
      subst (λ q. contains (n ∷ done) q ≡ true) (some_inj n p (sym h.0 ∙ e)) (contains-head n done),
  Ready-children parent done n xs h.1,
)

pub flatten_queue-ParentsFirst :
    (parent : Str → Option Str) (children : Str → List Str)
    → ((m : Str) → All (λ (x : Str). parent x ≡ some m) (children m))
    → (fuel : ℕ) (queue done r : List Str) → Ready parent done queue
    → flatten_queue fuel children queue ≡ some r
    → ParentsFirst parent done r
unfolding flatten_queue
flatten_queue-ParentsFirst parent children c fuel [] done r h e =
    subst (ParentsFirst parent done) (some_inj [] r e) tt
flatten_queue-ParentsFirst parent children c zero (n ∷ queue) done r h e = cc
flatten_queue-ParentsFirst parent children c (suc fuel) (n ∷ queue) done r h e =
    let step = flatten_queue-suc fuel children n queue in
    elim (Option-cases (flatten_queue fuel children (queue ++ children n))) [
      | inl k ↦ absurd (let bad : none ≡ some r = sym (step ∙ ap (add_first n) k) ∙ e in cc)
      | inr (r', k) ↦
          let ready =
            All-append (λ x. (p : Str) → parent x ≡ some p → contains (n ∷ done) p ≡ true) queue
              (children n) (Ready-more parent done n queue h.1)
              (Ready-children parent done n (children n) (c n)) in
          subst (ParentsFirst parent done)
            (some_inj (n ∷ r') r (sym (step ∙ ap (add_first n) k) ∙ e))
            (
              h.0,
              flatten_queue-ParentsFirst parent children c fuel (queue ++ children n) (n ∷ done) r'
                  ready k,
            )
    ]

abbrev pub IsClosed : (Str → List Str) → List Str → List Str → Type 0
IsClosed children queue r =
    ((x : Str) → 1 ≤ count x queue → 1 ≤ count x r)
    × ((m x : Str) → 1 ≤ count m r → 1 ≤ count x (children m) → 1 ≤ count x r)

-- What is queued is taken, and with a stream its children.
pub flatten_queue-IsClosed :
    (children : Str → List Str) (fuel : ℕ) (queue r : List Str)
    → flatten_queue fuel children queue ≡ some r
    → IsClosed children queue r
unfolding flatten_queue
flatten_queue-IsClosed children fuel [] r e =
    subst (IsClosed children []) (some_inj [] r e) (λ x h. h, λ m x h. absurd (omega arith))
flatten_queue-IsClosed children zero (n ∷ queue) r e = cc
flatten_queue-IsClosed children (suc fuel) (n ∷ queue) r e =
    let step = flatten_queue-suc fuel children n queue in
    elim (Option-cases (flatten_queue fuel children (queue ++ children n))) [
      | inl k ↦ absurd (let bad : none ≡ some r = sym (step ∙ ap (add_first n) k) ∙ e in cc)
      | inr (r', k) ↦
          let (taken, closed) = flatten_queue-IsClosed children fuel (queue ++ children n) r' k in
          let more : (x : Str) → 1 ≤ count x queue + count x (children n) → 1 ≤ count x r' =
            λ x h. taken x (omega (arith, count-append x queue (children n))) in
          subst (IsClosed children (n ∷ queue))
            (some_inj (n ∷ r') r (sym (step ∙ ap (add_first n) k) ∙ e))
            (
              λ x h. ground (arith, h, more x),
              λ m x h c. elim (Bool-cases (str_eq n m)) [
                | inl q ↦ omega (
                  arith,
                  more x (
                      omega
                        (arith, subst (λ y. 1 ≤ count x (children y)) (sym (str_eq→eq n m q)) c)),
                )
                | inr q ↦ omega (arith, closed m x (ground (arith, h, q)) c)
              ],
            )
    ]

-- The loop only asks for the children of each stream.
pub flatten_queue-same :
    (f g : Str → List Str)
    → ((x : Str) → f x ≡ g x)
    → (fuel : ℕ) (queue : List Str) → flatten_queue fuel f queue ≡ flatten_queue fuel g queue
unfolding flatten_queue
flatten_queue-same f g h fuel [] = refl
flatten_queue-same f g h zero (n ∷ queue) = refl
flatten_queue-same f g h (suc fuel) (n ∷ queue) =
    flatten_queue-suc fuel f n queue
    ∙ ap (add_first n) (
        ap (λ c. flatten_queue fuel f (queue ++ c)) (h n)
        ∙ flatten_queue-same f g h fuel (queue ++ g n))
    ∙ sym (flatten_queue-suc fuel g n queue)
