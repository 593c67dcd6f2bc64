-- ===== src/Paths/Laws.antt =====
-- The git path of a depot path, the files of a virtual stream, and that the paths which conflict
-- detection compares are the git paths.
use mathlib.Core.List.{append_assoc}
use p4sync_git.Prelude.{
  ℕ, ◌+◌, ◌-◌, ◌≡◌, refl, sym, ap, ◌∙◌, ◌↔◌, true, false, not, none, some, List, [], ◌∷◌, ◌++◌,
  arith, ◌==◌, if◌then◌else◌, any, length, drop, All, length-append, drop-append, take-append,
  Bool-cases, inl, inr,
}
use mathlib.Core.Option.{some-injective}
use p4sync_git.Text.{Str, codes, starts_with, split, join, push_head}
use p4sync_git.Text.Laws.{starts_with-append, append-drop}
use p4sync_git.Paths.{
  slash, depot_to_git_path, virtual_stream_filter, is_included, parent_stream, normalize_path,
}

-- A depot path has the git path `git_path` exactly if it is the stream, a slash and `git_path`.
pub depot_to_git_path_iff :
    (depot_path stream git_path : Str)
    → (depot_to_git_path depot_path stream (length stream + 1) ≡ some git_path)
      ↔ (depot_path ≡ stream ++ (slash ∷ git_path))
unfolding depot_to_git_path
depot_to_git_path_iff depot_path stream git_path = (to, from)
  where
    prefix_len : length (stream ++ (slash ∷ [])) ≡ length stream + 1
    prefix_len = omega (arith, length-append stream (slash ∷ []))

    to :
        (if starts_with depot_path (stream ++ (slash ∷ []))
            then some (drop (length stream + 1) depot_path)
            else none)
          ≡ some git_path
        → depot_path ≡ stream ++ (slash ∷ git_path)
    to h = elim (Bool-cases (starts_with depot_path (stream ++ (slash ∷ [])))) [
      | inl e ↦
          let rest : drop (length stream + 1) depot_path ≡ git_path =
            some-injective _ _ (rw e at h) in
          sym (append-drop depot_path (stream ++ (slash ∷ [])) e)
          ∙ rw (prefix_len, rest) (append_assoc stream (slash ∷ []) git_path)
      | inr e ↦ let h' = rw e at h in cc
    ]

    from :
        depot_path ≡ stream ++ (slash ∷ git_path)
        → (if starts_with depot_path (stream ++ (slash ∷ []))
            then some (drop (length stream + 1) depot_path)
            else none)
          ≡ some git_path
    from h =
        let e : depot_path ≡ (stream ++ (slash ∷ [])) ++ git_path =
          h ∙ sym (append_assoc stream (slash ∷ []) git_path) in
        rw (e, starts_with-append, ← prefix_len, drop-append) refl

any-All :
    (rel : Str) (xs : List Str)
    → (not (any (starts_with rel) xs) ≡ true) ↔ All (λ x. starts_with rel x ≡ false) xs
any-All rel [] = (λ h. tt, λ h. refl)
any-All rel (x ∷ xs) = ground (arith, any-All rel xs)

-- A virtual stream holds exactly the files under its parent whose path there starts with none of
-- the excluded patterns.
pub is_included_iff :
    (parent : Str) (excludes : List Str) (rel : Str)
    → (is_included (virtual_stream_filter parent excludes) (parent ++ (slash ∷ rel)) ≡ true)
      ↔ All (λ x. starts_with rel x ≡ false) excludes
unfolding is_included virtual_stream_filter
is_included_iff parent excludes rel =
    rw (← append_assoc parent (slash ∷ []) rel, starts_with-append, drop-append)
      (any-All rel excludes)

-- The parent stream that a filter returns is the one that it was made from.
pub parent_stream_lem :
    (parent : Str) (excludes : List Str)
    → parent_stream (virtual_stream_filter parent excludes) ≡ parent
unfolding parent_stream virtual_stream_filter
parent_stream_lem parent excludes =
    let len : length (parent ++ (slash ∷ [])) - 1 ≡ length parent =
      omega (arith, length-append parent (slash ∷ [])) in
    rw (len, take-append) refl

-- Every file that a virtual stream holds has a git path under the stream and prefix that the
-- filter gives to the commit builder, and the git path is the path under the parent.
pub included_has_git_path :
    (parent : Str) (excludes : List Str) (depot_path : Str)
    → let f = virtual_stream_filter parent excludes in
      is_included f depot_path ≡ true
      → (git_path : Str) × (depot_to_git_path depot_path (parent_stream f) f.parent_prefix_len
          ≡ some git_path)
        × (depot_path ≡ parent ++ (slash ∷ git_path))
unfolding is_included depot_to_git_path virtual_stream_filter
included_has_git_path parent excludes depot_path h =
    elim (Bool-cases (starts_with depot_path (parent ++ (slash ∷ [])))) [
      | inl e ↦
          let whole = append-drop depot_path (parent ++ (slash ∷ [])) e in
          (
            drop (length (parent ++ (slash ∷ []))) depot_path,
            rw (parent_stream_lem parent excludes, e) refl,
            sym whole ∙ append_assoc parent (slash ∷ []) _,
          )
      | inr e ↦ let h' = rw e at h in cc
    ]

-- Splitting at the first separator.
split-append :
    (sep : ℕ) (word rest : Str)
    → All (λ c. (c == sep) ≡ false) word
    → split sep (word ++ (sep ∷ rest)) ≡ word ∷ split sep rest
unfolding split
split-append sep [] rest h = ground arith
split-append sep (c ∷ word) rest h = ground (arith, split-append sep word rest h.1)

split-cons : (sep : ℕ) (s : Str) → (w : Str) × (ws : List Str) × (split sep s ≡ w ∷ ws)
unfolding split
split-cons sep [] = ([], [], refl)
split-cons sep (c ∷ s) =
    let (w, ws, e) = split-cons sep s in
    elim (Bool-cases (c == sep)) [
      | inl k ↦ rw k ([], split sep s, refl)
      | inr k ↦ rw (k, e) (c ∷ w, ws, refl)
    ]

join-push_head :
    (sep c : ℕ) (w : Str) (ws : List Str)
    → join (sep ∷ []) (push_head c (w ∷ ws)) ≡ c ∷ join (sep ∷ []) (w ∷ ws)
unfolding join
join-push_head sep c w [] = refl
join-push_head sep c w (v ∷ ws) = refl

join-nil :
    (sep : ℕ) (w : Str) (ws : List Str)
    → join (sep ∷ []) ([] ∷ w ∷ ws) ≡ sep ∷ join (sep ∷ []) (w ∷ ws)
unfolding join
join-nil sep w ws = refl

-- Joining what was split gives the text back.
pub join-split : (sep : ℕ) (s : Str) → join (sep ∷ []) (split sep s) ≡ s
unfolding split
join-split sep [] = unfold join in refl
join-split sep (c ∷ s) =
    let (w, ws, e) = split-cons sep s in
    let ih = rw e at (join-split sep s) in
    elim (Bool-cases (c == sep)) [
      | inl k ↦ rw (k, e, join-nil, ih) (ground arith)
      | inr k ↦ rw (k, e, join-push_head, ih) refl
    ]

-- For a file of the stream //depot/name the path that conflict detection compares is the git path
-- of the file, so that it meets the paths of git commits.
pub normalize_path-depot_path :
    (depot name git_path : Str)
    → All (λ c. (c == slash) ≡ false) depot
    → All (λ c. (c == slash) ≡ false) name
    → normalize_path ((codes "//" ++ (depot ++ (slash ∷ name))) ++ (slash ∷ git_path)) ≡ git_path
unfolding normalize_path
normalize_path-depot_path depot name git_path d n =
    let (w, ws, e) = split-cons slash git_path in
    let tail : split slash (depot ++ (slash ∷ (name ++ (slash ∷ git_path))))
        ≡ depot ∷ name ∷ split slash git_path =
      split-append slash depot (name ++ (slash ∷ git_path)) d
      ∙ ap (λ l. depot ∷ l) (split-append slash name git_path n) in
    rw (append_assoc depot (slash ∷ name) (slash ∷ git_path)) (
      rw (tail) (rw e (let joined = rw e at (join-split slash git_path) in ground (arith, joined))))

-- A git path, which does not start with two slashes, is compared as it is.
pub normalize_path-git_path :
    (git_path : Str)
    → starts_with git_path (codes "//") ≡ false
    → normalize_path git_path ≡ git_path
unfolding normalize_path
normalize_path-git_path git_path h = rw h refl
