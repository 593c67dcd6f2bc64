-- ===== src/Recovery/Log.antt =====
-- A commit that the synchronisation wrote is found again in the log.
use p4sync_git.Prelude.{
  ℕ, ◌≡◌, ◌≢◌, refl, ap, ◌∙◌, true, false, none, some, [], ◌∷◌, ◌++◌, arith, All, ◌==◌,
}
use p4sync_git.Text.Strip.{skip_spaces, rstrip, strip_spaces, snoc_unless_space}
use p4sync_git.Text.{Str, is_hex, is_space, before_char, after_char, join}
use p4sync_git.Git.Trailers.{CommitMetadata, newline, parse_p4cl_from_message, format_message}
use p4sync_git.Git.Trailers.Laws.{parse_p4cl-format_message}
use p4sync_git.Recovery.{has_newline, has_integration, entry_of, parse_entry}

abbrev pub IsSha : Str → Type 0
IsSha sha = (sha ≢ []) × All (λ c. is_hex c ≡ true) sha

snoc_unless_space-cons : (c : ℕ) (s : Str) → s ≢ [] → snoc_unless_space c s ≡ c ∷ s
snoc_unless_space-cons c [] h = absurd (h refl)
snoc_unless_space-cons c (d ∷ s) h = refl

append-ne-nil : (a b : Str) → b ≢ [] → a ++ b ≢ []
append-ne-nil [] b h = h
append-ne-nil (c ∷ a) b h = λ e. cc

-- Trailing space does not reach over a text that has something else at its end.
rstrip-append : (a b : Str) → rstrip b ≢ [] → rstrip (a ++ b) ≡ a ++ rstrip b
unfolding rstrip
rstrip-append [] b h = refl
rstrip-append (c ∷ a) b h =
    rw (rstrip-append a b h)
      (snoc_unless_space-cons c (a ++ rstrip b) (append-ne-nil a (rstrip b) h))

abbrev pub AllSpaces : Str → Type 0
AllSpaces = All (λ c. is_space c ≡ true)

rstrip-AllSpaces : (tail : Str) → AllSpaces tail → rstrip tail ≡ []
unfolding rstrip
rstrip-AllSpaces [] h = refl
rstrip-AllSpaces (c ∷ tail) h = rw (rstrip-AllSpaces tail h.1, h.0) refl

rstrip-drops : (s tail : Str) → AllSpaces tail → rstrip (s ++ tail) ≡ rstrip s
unfolding rstrip
rstrip-drops [] tail h = rstrip-AllSpaces tail h
rstrip-drops (c ∷ s) tail h = ap (snoc_unless_space c) (rstrip-drops s tail h)

hex-not-space : (c : ℕ) → is_hex c ≡ true → is_space c ≡ false
hex-not-space c h = ground arith

hex-not-newline : (c : ℕ) → is_hex c ≡ true → (c == newline) ≡ false
hex-not-newline c h = ground arith

rstrip-sha : (sha : Str) → All (λ c. is_hex c ≡ true) sha → rstrip sha ≡ sha
unfolding rstrip
rstrip-sha [] h = refl
rstrip-sha (c ∷ []) h = rw (hex-not-space c h.0) refl
rstrip-sha (c ∷ d ∷ sha) h = rw (rstrip-sha (d ∷ sha) h.1) refl

skip_spaces-sha : (sha t : Str) → IsSha sha → skip_spaces (sha ++ t) ≡ sha ++ t
unfolding skip_spaces
skip_spaces-sha [] t (n, h) = absurd (n refl)
skip_spaces-sha (c ∷ sha) t (n, h) = rw (hex-not-space c h.0) refl

strip_spaces-sha : (sha : Str) → IsSha sha → strip_spaces sha ≡ sha
unfolding strip_spaces skip_spaces
strip_spaces-sha [] (n, h) = absurd (n refl)
strip_spaces-sha (c ∷ sha) (n, h) = rw (hex-not-space c h.0) (rstrip-sha (c ∷ sha) h)

before-newline :
    (sha t : Str)
    → All (λ c. is_hex c ≡ true) sha
    → (before_char newline (sha ++ (newline ∷ t)) ≡ sha)
      × (after_char newline (sha ++ (newline ∷ t)) ≡ t)
      × (has_newline (sha ++ (newline ∷ t)) ≡ true)
unfolding before_char after_char has_newline
before-newline [] t h = (refl, refl, refl)
before-newline (c ∷ sha) t h =
    let (a, b, d) = before-newline sha t h.1 in rw (hex-not-newline c h.0) (ap (λ s. c ∷ s) a, b, d)

strip_spaces-entry :
    (sha body tail : Str)
    → IsSha sha
    → rstrip body ≡ body
    → body ≢ []
    → AllSpaces tail
    → strip_spaces (sha ++ (newline ∷ (body ++ tail))) ≡ sha ++ (newline ∷ body)
unfolding strip_spaces
strip_spaces-entry sha body tail s e n h =
    let r : rstrip (body ++ tail) ≡ body = rstrip-drops body tail h ∙ e in
    let inner : rstrip (newline ∷ (body ++ tail)) ≡ newline ∷ body =
      rstrip-append (newline ∷ []) (body ++ tail) (rw r n) ∙ ap (λ t. newline ∷ t) r in
    rw (skip_spaces-sha sha (newline ∷ (body ++ tail)) s)
      (rstrip-append sha (newline ∷ (body ++ tail)) (rw inner (λ z. cc)) ∙ ap (λ t. sha ++ t) inner)

format_message-ne-nil : (m : CommitMetadata) → format_message m ≢ []
unfolding format_message join
format_message-ne-nil m = append-ne-nil m.message _ (λ z. cc)

entry_lem :
    (sha body tail : Str)
    → IsSha sha
    → rstrip body ≡ body
    → body ≢ []
    → AllSpaces tail
    → parse_entry (sha ++ (newline ∷ (body ++ tail)))
      ≡ entry_of sha body (parse_p4cl_from_message body)
unfolding parse_entry
entry_lem sha body tail s e n h =
    let (a, b, d) = before-newline sha body s.1 in
    rw (strip_spaces-entry sha body tail s e n h, d, a, b, strip_spaces-sha sha s) refl

-- A commit with a sha of hexadecimal digits, whose formatted message ends without space and whose
-- description has no P4CL marker of its own, is recovered from its entry of the log, whatever space
-- follows it there: with its changelist and its sha.
pub parse_entry-format_message :
    (sha tail : Str) (m : CommitMetadata)
    → IsSha sha
    → rstrip (format_message m) ≡ format_message m
    → parse_p4cl_from_message m.message ≡ none
    → AllSpaces tail
    → parse_entry (sha ++ (newline ∷ (format_message m ++ tail)))
      ≡ some (m.p4_changelist, sha, has_integration (format_message m))
parse_entry-format_message sha tail m s e p h =
    entry_lem sha (format_message m) tail s e (format_message-ne-nil m) h
    ∙ rw (parse_p4cl-format_message m, p) refl
