-- ===== src/Perforce/Merge/Laws.antt =====
-- The primary source of a merge.
use p4sync_git.Prelude.{
  ℕ, ◌+◌, ◌≤◌, ◌≡◌, refl, ◌⊎◌, inl, inr, Bool-cases, some, List, [], ◌∷◌, arith, ◌∙◌, subst, ltb,
  if◌then◌else◌,
}
use p4sync_git.Text.{Str, str_eq}
use p4sync_git.Text.Laws.{str_eq_iff, str_eq_refl}
use p4sync_git.Exec.{Result}
use p4sync_git.Perforce.Merge.{
  Filelog, IntegrationRecord, count_stream, count_streams, most_frequent, max_source_cl, primary_of,
  summarize,
}

-- the number of records from one stream
unfoldable pub occurrences : Str → List IntegrationRecord → ℕ
occurrences s [] = 0
occurrences s (r ∷ rs) = (if str_eq r.source_stream s then 1 else 0) + occurrences s rs

-- the count of a stream in the table of counts, none being 0
unfoldable count_at : Str → List (Str × ℕ) → ℕ
count_at s [] = 0
count_at s ((t, n) ∷ counts) = if str_eq t s then n else count_at s counts

count_at-count_stream :
    (s t : Str) (counts : List (Str × ℕ))
    → count_at t (count_stream s counts) ≡ count_at t counts + (if str_eq s t then 1 else 0)
unfolding count_at count_stream
count_at-count_stream s t [] = ground arith
count_at-count_stream s t ((u, n) ∷ counts) =
    ground (arith, count_at-count_stream s t counts, str_eq_iff u s, str_eq_iff u t, str_eq_iff s t)

count_at-count_streams :
    (t : Str) (rs : List IntegrationRecord) (counts : List (Str × ℕ))
    → count_at t (count_streams rs counts) ≡ count_at t counts + occurrences t rs
unfolding count_streams occurrences
count_at-count_streams t [] counts = ground arith
count_at-count_streams t (r ∷ rs) counts = ground (
  arith,
  count_at-count_streams t rs (count_stream r.source_stream counts),
  count_at-count_stream r.source_stream t counts,
)

most_frequent-bound :
    (t : Str) (best : Str × ℕ) (counts : List (Str × ℕ))
    → (best.1 ≤ (most_frequent best counts).1) × (count_at t counts ≤ (most_frequent best counts).1)
unfolding most_frequent count_at
most_frequent-bound t best [] = ground arith
most_frequent-bound t best (c ∷ counts) =
    ground (arith, most_frequent-bound t (if ltb best.1 c.1 then c else best) counts)

max_source_cl-bound : (best : ℕ) (rs : List IntegrationRecord) → best ≤ max_source_cl best rs
unfolding max_source_cl
max_source_cl-bound best [] = ground arith
max_source_cl-bound best (r ∷ rs) =
    ground (
      arith,
      max_source_cl-bound (if ltb best r.source_revision then r.source_revision else best) rs,
    )

-- a table of counts has each stream once, and counts from 1
abbrev IsTable : List (Str × ℕ) → Type 0
IsTable [] = Unit
IsTable ((t, n) ∷ counts) = (count_at t counts ≡ 0) × (1 ≤ n) × IsTable counts

count_stream-IsTable :
    (s : Str) (counts : List (Str × ℕ)) → IsTable counts → IsTable (count_stream s counts)
unfolding count_stream count_at
count_stream-IsTable s [] h = ground arith
count_stream-IsTable s ((t, n) ∷ counts) (a, b, h) = ground (
  arith,
  count_at-count_stream s t counts,
  count_stream-IsTable s counts h,
  str_eq_iff t s,
  str_eq_iff s t,
)

count_streams-IsTable :
    (rs : List IntegrationRecord) (counts : List (Str × ℕ))
    → IsTable counts
    → IsTable (count_streams rs counts)
unfolding count_streams
count_streams-IsTable [] counts h = h
count_streams-IsTable (r ∷ rs) counts h =
    count_streams-IsTable rs (count_stream r.source_stream counts)
      (count_stream-IsTable r.source_stream counts h)

-- an entry chosen from a table's tail, or its head
choose :
    (t : Str) (n : ℕ) (counts : List (Str × ℕ)) (best v m : Str × ℕ)
    → count_at t counts ≡ 0
    → 1 ≤ n
    → n ≤ m.1
    → (v ≡ (t, n)) ⊎ (v ≡ best)
    → (m ≡ v) ⊎ (count_at m.0 counts ≡ m.1)
    → (m ≡ best) ⊎ (count_at m.0 ((t, n) ∷ counts) ≡ m.1)
unfolding count_at
choose t n counts best v m a b l (inl e) (inl f) = inr (rw (f, e, str_eq_refl t) refl)
choose t n counts best v m a b l (inr e) (inl f) = inl (f ∙ e)
choose t n counts best v m a b l _ (inr f) = elim (Bool-cases (str_eq t m.0)) [
  | inl q ↦ inr (
      let k = (str_eq_iff t m.0).0 q in
      let z = subst (λ x. count_at x counts ≡ 0) k a in ground arith)
  | inr q ↦ inr (rw q f)
]

most_frequent-count_at :
    (best : Str × ℕ) (counts : List (Str × ℕ))
    → IsTable counts
    → let m = most_frequent best counts in (m ≡ best) ⊎ (count_at m.0 counts ≡ m.1)
unfolding most_frequent
most_frequent-count_at best [] h = inl refl
most_frequent-count_at best ((t, n) ∷ counts) (a, b, h) =
    let v = if ltb best.1 n then (t, n) else best in
    choose t n counts best v (most_frequent v counts) a b
      (ground (arith, most_frequent-bound t v counts)) (ground arith)
      (most_frequent-count_at v counts h)

primary_of-max :
    (counts : List (Str × ℕ)) (s t : Str)
    → IsTable counts
    → primary_of counts ≡ some s
    → count_at t counts ≤ count_at s counts
unfolding count_at
primary_of-max [] s t h e = ground arith
primary_of-max ((u, n) ∷ counts) s t (a, b, h) e =
    let m = most_frequent (u, n) counts in
    let same : m.0 ≡ s = ground (arith, e) in
    elim (choose u n counts (u, n) (u, n) m a b
      (ground (arith, most_frequent-bound t (u, n) counts)) (inl refl)
      (most_frequent-count_at (u, n) counts h)) [
        | inl q ↦
            subst (λ z. count_at t ((u, n) ∷ counts) ≤ count_at z ((u, n) ∷ counts)) same
              (ground (arith, q, str_eq_refl u, most_frequent-bound t (u, n) counts))
        | inr q ↦
            subst (λ z. count_at t ((u, n) ∷ counts) ≤ count_at z ((u, n) ∷ counts)) same
              (ground (arith, q, most_frequent-bound t (u, n) counts))
      ]

-- The merge's source stream is one that no stream outdoes in the number of records.
pub summarize_primary :
    (run_filelog : List Str → Result (List Filelog)) (rs : List IntegrationRecord) (s t : Str)
    → (summarize run_filelog rs).primary_source_stream ≡ some s
    → occurrences t rs ≤ occurrences s rs
unfolding summarize count_at
summarize_primary run_filelog [] s t h = ground arith
summarize_primary run_filelog (r ∷ rs) s t h = ground (
  arith,
  primary_of-max (count_streams (r ∷ rs) []) s t (count_streams-IsTable (r ∷ rs) [] tt) h,
  count_at-count_streams t (r ∷ rs) [],
  count_at-count_streams s (r ∷ rs) [],
)
