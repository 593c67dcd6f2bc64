-- ===== src/Git/Trailers/Laws.antt =====
-- The marker that is written is found, unless the text before it has a marker of its own.
use mathlib.Core.Option
use mathlib.Core.List.{append-nil, append_assoc}
use p4sync_git.Prelude.{
  ◌≡◌, ◌≢◌, refl, ◌∙◌, ap, true, false, Option, none, some, List, [], ◌∷◌, ◌++◌, or_else, All,
}
use p4sync_git.Text.{Str, codes, join, is_digit, is_hex}
use p4sync_git.Text.Decimal.{show_nat, read_nat, read-show_nat, show_nat-AllDigits, show_nat-ne-nil}
use p4sync_git.Git.Trailers.{
  CommitMetadata, newline, format_message, closes, parse_p4cl_from_message,
  parse_git_commit_from_description,
}
use p4sync_git.Git.Trailers.Marker.{search_marker-append, digit-IsMarker, hex-IsMarker}

map-or_else {ℓ κ} :
    {A : Type ℓ} {B : Type κ} (f : A → B) (a b : Option A)
    → Option.map f (or_else a b) ≡ or_else (Option.map f a) (Option.map f b)
map-or_else f none b = refl
map-or_else f (some a) b = refl

parse_p4cl-written :
    (message digits tail : Str)
    → digits ≢ []
    → All (λ c. is_digit c ≡ true) digits
    → closes false tail ≡ true
    → parse_p4cl_from_message
        (message ++ (newline ∷ newline ∷ (codes "P4CL: " ++ (digits ++ tail))))
      ≡ or_else (parse_p4cl_from_message message) (some (read_nat digits))
unfolding parse_p4cl_from_message
parse_p4cl-written message [] tail ne a h = absurd (ne refl)
parse_p4cl-written message (c ∷ digits) tail ne a h =
    ap (Option.map read_nat) (
      search_marker-append is_digit b'P' (codes "4CL") digit-IsMarker true message c digits tail a
        h)
    ∙ map-or_else read_nat _ _

-- The GitCommit marker written behind a message is read back as the commit, unless the message
-- has a GitCommit marker of its own, which is then what is read.
pub parse_git_commit-written :
    (message sha : Str)
    → sha ≢ []
    → All (λ c. is_hex c ≡ true) sha
    → parse_git_commit_from_description (message ++ (codes "\n\nGitCommit: " ++ sha))
      ≡ or_else (parse_git_commit_from_description message) (some sha)
unfolding parse_git_commit_from_description
parse_git_commit-written message [] ne a = absurd (ne refl)
parse_git_commit-written message (c ∷ sha) ne a =
    rw append-nil at (
      search_marker-append is_hex b'G' (codes "itCommit") hex-IsMarker true message c sha [] a refl)

-- the lines behind the first trailer
abbrev trailing : List Str → Str
trailing [] = []
trailing (l ∷ ls) = newline ∷ join (newline ∷ []) (l ∷ ls)

trailing-closes : (ls : List Str) → closes false (trailing ls) ≡ true
unfolding closes
trailing-closes [] = refl
trailing-closes (l ∷ ls) = refl

join-trailing :
    (message line : Str) (ls : List Str)
    → join (newline ∷ []) (message ∷ [] ∷ line ∷ ls)
      ≡ message ++ (newline ∷ newline ∷ (line ++ trailing ls))
unfolding join
join-trailing message line [] = rw append-nil refl
join-trailing message line (l ∷ ls) = refl

-- The changelist in a formatted commit message is the one that was formatted, whatever integration
-- trailers follow it, unless the description has a P4CL marker of its own: then it is that one.
pub parse_p4cl-format_message :
    (m : CommitMetadata)
    → parse_p4cl_from_message (format_message m)
      ≡ or_else (parse_p4cl_from_message m.message) (some m.p4_changelist)
unfolding format_message
parse_p4cl-format_message m =
    rw (join-trailing, append_assoc)
      (parse_p4cl-written m.message (show_nat m.p4_changelist) (trailing _)
          (show_nat-ne-nil m.p4_changelist) (show_nat-AllDigits m.p4_changelist) (trailing-closes _)
        ∙ rw read-show_nat)
