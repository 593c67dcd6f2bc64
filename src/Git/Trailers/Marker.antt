-- ===== src/Git/Trailers/Marker.antt =====
-- A marker that is written into a text is found again where no other stands before it.
use p4sync_git.Prelude.{
  ℕ, ◌≡◌, refl, Bool, true, false, Option, none, some, [], ◌∷◌, ◌++◌, arith, ◌==◌, if◌then◌else◌,
  or_else, length, drop, drop-append, All, All-append, ap₂, Bool-cases, inl, inr,
}
use p4sync_git.Text.{Str, codes, starts_with, is_digit, is_hex, is_space}
use p4sync_git.Text.Laws.{starts_with-append}
use p4sync_git.Git.Trailers.{
  newline, take_run, drop_run, closes, value_if, value_at, match_at, search_marker,
}

or_else_assoc {ℓ} :
    {A : Type ℓ} (a b c : Option A) → or_else a (or_else b c) ≡ or_else (or_else a b) c
or_else_assoc none b c = refl
or_else_assoc (some a) b c = refl

-- a pattern without a newline is not met across one
starts_with-append_newline :
    (s x pat : Str)
    → All (λ c. (newline == c) ≡ false) pat
    → starts_with (s ++ (newline ∷ x)) pat ≡ starts_with s pat
unfolding starts_with
starts_with-append_newline [] x [] h = refl
starts_with-append_newline [] x (p ∷ pat) h = ground arith
starts_with-append_newline (c ∷ s) x [] h = refl
starts_with-append_newline (c ∷ s) x (p ∷ pat) h =
    ground (arith, starts_with-append_newline s x pat h.1)

drop-append_of_starts :
    (s x pat : Str)
    → starts_with s pat ≡ true
    → drop (length pat) (s ++ x) ≡ drop (length pat) s ++ x
unfolding starts_with
drop-append_of_starts s x [] h = refl
drop-append_of_starts [] x (p ∷ pat) h = ground arith
drop-append_of_starts (c ∷ s) x (p ∷ pat) h = ground (arith, drop-append_of_starts s x pat)

-- The facts about the characters of a value and of a tag that keep a marker apart from the text
-- around it.
pub record IsMarker (p : ℕ → Bool) (t : ℕ) (ts : Str) : Type 0 where
  pub newline_out : p newline ≡ false
  pub head_out : p t ≡ false
  pub space_out : p b' ' ≡ false
  pub head_solid : is_space t ≡ false
  pub head_plain : (t == b'[') ≡ false
  pub one_line : All (λ c. (newline == c) ≡ false) (t ∷ ts)
  pub solid : (c : ℕ) → p c ≡ true → is_space c ≡ false

module _ (p : ℕ → Bool) (t : ℕ) (ts : Str) (m : IsMarker p t ts) where
  take_run-append : (r x : Str) → take_run p (r ++ (newline ∷ x)) ≡ take_run p r
  unfolding take_run
  take_run-append [] x = ground (arith, m.newline_out)
  take_run-append (c ∷ r) x = ground (arith, take_run-append r x)

  closes-append :
      (bracket : Bool) (r x : Str)
      → closes bracket (drop_run p (r ++ (newline ∷ x))) ≡ closes bracket (drop_run p r)
  unfolding closes drop_run
  closes-append true [] x = ground (arith, m.newline_out)
  closes-append false [] x = ground (arith, m.newline_out)
  closes-append true (c ∷ r) x = ground (arith, closes-append true r x)
  closes-append false (c ∷ r) x = ground (arith, closes-append false r x)

  -- What stands behind the text: a blank line and a tag.
  abbrev pub behind : Str → Str
  behind x = newline ∷ newline ∷ t ∷ x

  value_if_behind :
      (bracket : Bool) (x : Str)
      → value_if (closes bracket (drop_run p (t ∷ x))) (take_run p (t ∷ x)) ≡ none
  unfolding take_run
  value_if_behind bracket x = rw m.head_out refl

  -- a value does not reach into what stands behind the text
  value_at-append :
      (bracket : Bool) (s x : Str) → value_at p bracket (s ++ behind x) ≡ value_at p bracket s
  unfolding value_at
  value_at-append bracket [] x = rw m.head_solid (value_if_behind bracket x)
  value_at-append bracket (c ∷ s) x = elim (Bool-cases (is_space c)) [
    | inl e ↦ rw e (value_at-append bracket s x)
    | inr e ↦ rw e (
        rw (
          take_run-append (c ∷ s) (newline ∷ t ∷ x),
          closes-append bracket (c ∷ s) (newline ∷ t ∷ x),
        ))
  ]

  pattern_value-append :
      (bracket : Bool) (pat s x : Str)
      → All (λ c. (newline == c) ≡ false) pat
      → (if starts_with (s ++ behind x) pat
          then value_at p bracket (drop (length pat) (s ++ behind x))
          else none)
        ≡ (if starts_with s pat then value_at p bracket (drop (length pat) s) else none)
  pattern_value-append bracket pat s x h =
      rw (starts_with-append_newline s (newline ∷ t ∷ x) pat h)
        (elim (Bool-cases (starts_with s pat)) [
          | inl e ↦
              rw (e, drop-append_of_starts s (behind x) pat e)
                (value_at-append bracket (drop (length pat) s) x)
          | inr e ↦ rw e
        ])

  abbrev tag_colon : Str
  tag_colon = (t ∷ ts) ++ (b':' ∷ [])

  tag_colon-one_line : All (λ c. (newline == c) ≡ false) tag_colon
  tag_colon-one_line = All-append _ (t ∷ ts) (b':' ∷ []) m.one_line (refl, tt)

  match_at-append :
      (line_start : Bool) (s x : Str)
      → match_at p (t ∷ ts) line_start (s ++ behind x) ≡ match_at p (t ∷ ts) line_start s
  unfolding match_at
  match_at-append true s x =
      ap₂ or_else (pattern_value-append true (b'[' ∷ tag_colon) s x (refl, tag_colon-one_line))
        (pattern_value-append false tag_colon s x tag_colon-one_line)
  match_at-append false s x =
      ap₂ or_else (pattern_value-append true (b'[' ∷ tag_colon) s x (refl, tag_colon-one_line)) refl

  match_at-newline :
      (line_start : Bool) (x : Str) → match_at p (t ∷ ts) line_start (newline ∷ x) ≡ none
  unfolding match_at starts_with
  match_at-newline line_start x = ground (arith, m.one_line.0)

  take_run-value :
      (v tail : Str)
      → All (λ c. p c ≡ true) v
      → closes false tail ≡ true
      → take_run p (v ++ tail) ≡ v
  unfolding take_run closes
  take_run-value [] [] a h = refl
  take_run-value [] (c ∷ tail) a h = ground (arith, m.newline_out)
  take_run-value (c ∷ v) tail a h = ground (arith, take_run-value v tail a.1)

  drop_run-value :
      (v tail : Str)
      → All (λ c. p c ≡ true) v
      → closes false tail ≡ true
      → drop_run p (v ++ tail) ≡ tail
  unfolding drop_run closes
  drop_run-value [] [] a h = refl
  drop_run-value [] (c ∷ tail) a h = ground (arith, m.newline_out)
  drop_run-value (c ∷ v) tail a h = ground (arith, drop_run-value v tail a.1)

  -- a marker written at the start of a line
  abbrev pub written : Str → Str → Str
  written v tail = tag_colon ++ (b' ' ∷ (v ++ tail))

  value_at-written :
      (c : ℕ) (v tail : Str)
      → All (λ d. p d ≡ true) (c ∷ v)
      → closes false tail ≡ true
      → value_at p false (b' ' ∷ ((c ∷ v) ++ tail)) ≡ some (c ∷ v)
  unfolding value_at
  value_at-written c v tail a h =
      rw (m.solid c a.0)
        (rw (take_run-value (c ∷ v) tail a h, drop_run-value (c ∷ v) tail a h) (rw h))

  match_at-written :
      (c : ℕ) (v tail : Str)
      → All (λ d. p d ≡ true) (c ∷ v)
      → closes false tail ≡ true
      → match_at p (t ∷ ts) true (written (c ∷ v) tail) ≡ some (c ∷ v)
  unfolding match_at
  match_at-written c v tail a h =
      rw
        (
          not_bracket,
          starts_with-append tag_colon (b' ' ∷ ((c ∷ v) ++ tail)),
          drop-append tag_colon (b' ' ∷ ((c ∷ v) ++ tail)),
        )
        (value_at-written c v tail a h)
    where
      not_bracket : starts_with (written (c ∷ v) tail) (b'[' ∷ tag_colon) ≡ false
      not_bracket = unfold starts_with in rw m.head_plain refl

  -- Behind any text, a blank line and a marker: the search finds a marker of the text if there is
  -- one, and else the one that was written.
  pub search_marker-append :
      (line_start : Bool) (s : Str) (c : ℕ) (v tail : Str)
      → All (λ d. p d ≡ true) (c ∷ v)
      → closes false tail ≡ true
      → search_marker p (t ∷ ts) line_start (s ++ (newline ∷ newline ∷ written (c ∷ v) tail))
        ≡ or_else (search_marker p (t ∷ ts) line_start s) (some (c ∷ v))
  unfolding search_marker
  search_marker-append line_start [] c v tail a h =
      rw
        (
          match_at-newline line_start (newline ∷ written (c ∷ v) tail),
          match_at-newline true (written (c ∷ v) tail),
          match_at-written c v tail a h,
        )
        refl
  search_marker-append line_start (d ∷ s) c v tail a h =
      rw
        (
          match_at-append line_start (d ∷ s) (ts ++ (b':' ∷ []) ++ (b' ' ∷ ((c ∷ v) ++ tail))),
          search_marker-append (d == newline) s c v tail a h,
        )
        (or_else_assoc (match_at p (t ∷ ts) line_start (d ∷ s)) _ _)

pub digit-IsMarker : IsMarker is_digit b'P' (codes "4CL")
digit-IsMarker = record {
  newline_out = refl;
  head_out = refl;
  space_out = refl;
  head_solid = refl;
  head_plain = refl;
  one_line = ground arith;
  solid = λ c h. ground arith;
}

pub hex-IsMarker : IsMarker is_hex b'G' (codes "itCommit")
hex-IsMarker = record {
  newline_out = refl;
  head_out = refl;
  space_out = refl;
  head_solid = refl;
  head_plain = refl;
  one_line = ground arith;
  solid = λ c h. ground arith;
}
