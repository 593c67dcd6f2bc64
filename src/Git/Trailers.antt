-- ===== src/Git/Trailers.antt =====
-- git/commit_metadata.py: the trailers of a commit message, and the two regular expressions that
-- look for the markers `P4CL: n` and `GitCommit: sha`. `\d` and `\s` are those of ASCII.
pub mod Marker
pub mod Laws
use mathlib.Core.Option
use p4sync_git.Prelude.{
  ℕ, Bool, true, false, ◌&&◌, Option, none, some, List, [], ◌∷◌, ◌++◌, ltb, ◌==◌, if◌then◌else◌,
  or_else, length, drop,
}
use p4sync_git.Text.{Str, codes, starts_with, join, is_digit, is_hex, is_space}
use p4sync_git.Text.Strip.{skip_spaces}
use p4sync_git.Text.Decimal.{show_nat, read_nat}

pub record IntegrationCommitInfo : Type 0 where
  pub source_stream : Str
  pub target_stream : Str
  pub source_changelist : Option ℕ
  pub integrated_files : ℕ

pub record CommitMetadata : Type 0 where
  pub author_name : Str
  pub author_email : Str
  pub author_timestamp : ℕ
  pub message : Str
  pub p4_changelist : ℕ
  pub integration_info : Option IntegrationCommitInfo

abbrev pub newline : ℕ
newline = 10

abbrev source_cl_lines : Option ℕ → List Str
source_cl_lines none = []
source_cl_lines (some cl) = (codes "Source-CL: " ++ show_nat cl) ∷ []

unfoldable pub format_trailer_lines : IntegrationCommitInfo → List Str
format_trailer_lines i =
    (codes "Integration: " ++ (i.source_stream ++ (codes " -> " ++ i.target_stream)))
    ∷ (source_cl_lines i.source_changelist
        ++ (if ltb 0 i.integrated_files
            then (codes "Integrated-Files: " ++ show_nat i.integrated_files) ∷ []
            else []))

unfoldable pub format_footer : IntegrationCommitInfo → Str
unfolding format_trailer_lines join
format_footer i = newline ∷ join (newline ∷ []) (format_trailer_lines i)

abbrev integration_lines : Option IntegrationCommitInfo → List Str
integration_lines none = []
integration_lines (some i) = format_trailer_lines i

-- the text `P4CL: n`
abbrev pub p4cl_line : ℕ → Str
p4cl_line n = codes "P4CL: " ++ show_nat n

unfoldable pub format_message : CommitMetadata → Str
unfolding format_trailer_lines
format_message m =
    join (newline ∷ [])
      (m.message ∷ [] ∷ p4cl_line m.p4_changelist ∷ integration_lines m.integration_info)

-- `[...]+`, greedily, and what stands behind it
unfoldable pub take_run : (ℕ → Bool) → Str → Str
take_run p [] = []
take_run p (c ∷ s) = if p c then c ∷ take_run p s else []

unfoldable pub drop_run : (ℕ → Bool) → Str → Str
drop_run p [] = []
drop_run p (c ∷ s) = if p c then drop_run p s else c ∷ s

-- What has to follow the value: a bracket, or the end of the line.
unfoldable pub closes : Bool → Str → Bool
closes true [] = false
closes true (c ∷ s) = c == b']'
closes false [] = true
closes false (c ∷ s) = c == newline

abbrev pub value_if : Bool → Str → Option Str
value_if b [] = none
value_if b (c ∷ v) = if b then some (c ∷ v) else none

unfoldable pub value_at : (ℕ → Bool) → Bool → Str → Option Str
unfolding skip_spaces take_run drop_run closes
value_at p bracket s =
    let r = skip_spaces s in value_if (closes bracket (drop_run p r)) (take_run p r)

-- One position: `\[TAG:\s*(...)\]`, or at the start of a line `TAG:\s*(...)$`.
unfoldable pub match_at : (ℕ → Bool) → Str → Bool → Str → Option Str
unfolding value_at starts_with
match_at p tag line_start s =
    or_else
      (if starts_with s (b'[' ∷ (tag ++ (b':' ∷ [])))
        then value_at p true (drop (length (b'[' ∷ (tag ++ (b':' ∷ [])))) s)
        else none)
      (if line_start && starts_with s (tag ++ (b':' ∷ []))
        then value_at p false (drop (length (tag ++ (b':' ∷ []))) s)
        else none)

-- `pattern.search`: the first position that matches.
unfoldable pub search_marker : (ℕ → Bool) → Str → Bool → Str → Option Str
unfolding match_at
search_marker p tag line_start [] = none
search_marker p tag line_start (c ∷ s) =
    or_else (match_at p tag line_start (c ∷ s)) (search_marker p tag (c == newline) s)

unfoldable pub parse_p4cl_from_message : Str → Option ℕ
unfolding search_marker
parse_p4cl_from_message message =
    Option.map read_nat (search_marker is_digit (codes "P4CL") true message)

unfoldable pub parse_git_commit_from_description : Str → Option Str
unfolding search_marker
parse_git_commit_from_description description =
    search_marker is_hex (codes "GitCommit") true description
