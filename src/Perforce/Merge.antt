-- ===== src/Perforce/Merge.antt =====
-- p4/merge_analyzer.py. A filelog, which P4 reports, is here one whose objects have every attribute
-- that the analyzer asks for, and whose revision numbers are ASCII digits behind a `#`.
pub mod Laws
use p4sync_git.Prelude.{
  ℕ, any, not, ◌+◌, Bool, true, false, Option, none, some, List, [], ◌∷◌, ◌++◌, map, keep, ltb, leb,
  ◌==◌, if◌then◌else◌, get_or, length, is_some,
}
use p4sync_git.Text.{Str, codes, str_eq, contains, has_substring, split, is_digit}
use p4sync_git.Text.Decimal.{show_nat, read_nat}
use p4sync_git.Exec.{Result, ok, err}
use p4sync_git.Perforce.Change.{P4FileAction, P4ChangeInfo, integration_actions}

pub record Integration : Type 0 where
  pub how : Str
  pub file : Str
  pub erev : Str

pub record Revision : Type 0 where
  pub rev : ℕ
  pub change : ℕ
  pub integrations : List Integration

pub record Filelog : Type 0 where
  pub depot_file : Str
  pub revisions : List Revision

pub record IntegrationRecord : Type 0 where
  pub source_depot_path : Str
  pub target_depot_path : Str
  pub source_revision : ℕ
  pub source_stream : Str

pub record MergeInfo : Type 0 where
  pub has_integration : Bool
  pub primary_source_stream : Option Str
  pub source_changelist : Option ℕ
  pub records : List IntegrationRecord

abbrev pub no_merge : MergeInfo
no_merge = record {
  has_integration = false;
  primary_source_stream = none;
  source_changelist = none;
  records = [];
}

-- `^(//[^/]+/[^/]+)/`: the parts of `//depot/stream/rest`, split at the slashes
abbrev stream_of_parts : List Str → Option Str
stream_of_parts ([] ∷ [] ∷ (a ∷ depot) ∷ (b ∷ stream) ∷ rest ∷ more) =
    some (codes "//" ++ ((a ∷ depot) ++ (b'/' ∷ (b ∷ stream))))
stream_of_parts _ = none

unfoldable pub extract_stream_from_depot_path : Str → Option Str
unfolding split
extract_stream_from_depot_path depot_path = stream_of_parts (split b'/' depot_path)

unfoldable pub find_revision_for_cl : List Revision → ℕ → Option Revision
find_revision_for_cl [] target = none
find_revision_for_cl (r ∷ rs) target =
    if r.change == target then some r else find_revision_for_cl rs target

unfoldable pub strip_hashes : Str → Str
strip_hashes [] = []
strip_hashes (c ∷ s) = let rest = strip_hashes s in if c == b'#' then rest else c ∷ s

unfoldable pub parse_revision_number : Str → ℕ
unfolding strip_hashes
parse_revision_number rev_str =
    let cleaned = strip_hashes rev_str in
    if any (λ c. not (is_digit c)) cleaned then 0 else read_nat cleaned

abbrev change_of_rev : ℕ → List Revision → Option ℕ
change_of_rev n [] = none
change_of_rev n (r ∷ rs) = if r.rev == n then some r.change else change_of_rev n rs

abbrev first_entry : ℕ → Result (List Filelog) → Option ℕ
first_entry n (ok []) = none
first_entry n (ok (e ∷ es)) = change_of_rev n e.revisions
first_entry n (err x) = none

-- How often each source stream occurs, in the order in which the streams come up.
unfoldable pub count_stream : Str → List (Str × ℕ) → List (Str × ℕ)
count_stream s [] = (s, 1) ∷ []
count_stream s ((t, n) ∷ counts) =
    if str_eq t s then (t, n + 1) ∷ counts else (t, n) ∷ count_stream s counts

unfoldable pub count_streams : List IntegrationRecord → List (Str × ℕ) → List (Str × ℕ)
unfolding count_stream
count_streams [] counts = counts
count_streams (r ∷ rs) counts = count_streams rs (count_stream r.source_stream counts)

-- `max(stream_counts, key=stream_counts.get)`: the first of those that occur most often
unfoldable pub most_frequent : Str × ℕ → List (Str × ℕ) → Str × ℕ
most_frequent best [] = best
most_frequent best (c ∷ counts) = most_frequent (if ltb best.1 c.1 then c else best) counts

unfoldable pub max_source_cl : ℕ → List IntegrationRecord → ℕ
max_source_cl best [] = best
max_source_cl best (r ∷ rs) =
    max_source_cl (if ltb best r.source_revision then r.source_revision else best) rs

abbrev pub primary_of : List (Str × ℕ) → Option Str
primary_of [] = none
primary_of (c ∷ counts) = some (most_frequent c counts).0

module _ (run_filelog : List Str → Result (List Filelog)) where
  unfoldable pub get_source_changelist : Str → ℕ → Option ℕ
  get_source_changelist depot_path revision =
      if leb revision 0
      then none
      else first_entry revision (run_filelog ((depot_path ++ (b'#' ∷ show_nat revision)) ∷ []))

  abbrev record_of : Str → Str → Option Str → Option ℕ → List IntegrationRecord
  record_of source target (some stream) (some cl) =
      record {
        source_depot_path = source;
        target_depot_path = target;
        source_revision = cl;
        source_stream = stream;
      }
      ∷ []
  record_of source target _ _ = []

  unfoldable pub parse_integrations : Str → List Integration → List IntegrationRecord
  unfolding extract_stream_from_depot_path get_source_changelist parse_revision_number
  parse_integrations target [] = []
  parse_integrations target (i ∷ rest) =
      (if has_substring (codes "from") i.how
        then record_of i.file target (extract_stream_from_depot_path i.file)
            (get_source_changelist i.file (parse_revision_number i.erev))
        else [])
      ++ parse_integrations target rest

  abbrev integrations_of : Str → Option Revision → List IntegrationRecord
  integrations_of target none = []
  integrations_of target (some r) = parse_integrations target r.integrations

  unfoldable pub parse_filelog_results : List Filelog → ℕ → List IntegrationRecord
  unfolding find_revision_for_cl parse_integrations
  parse_filelog_results [] target_cl = []
  parse_filelog_results (e ∷ es) target_cl =
      integrations_of e.depot_file (find_revision_for_cl e.revisions target_cl)
      ++ parse_filelog_results es target_cl

  -- what the records say
  unfoldable pub summarize : List IntegrationRecord → MergeInfo
  unfolding count_streams most_frequent max_source_cl
  summarize [] = no_merge
  summarize (r ∷ rs) =
      let cl = max_source_cl 0 (r ∷ rs) in
      record {
        has_integration = true;
        primary_source_stream = primary_of (count_streams (r ∷ rs) []);
        source_changelist = if ltb 0 cl then some cl else none;
        records = r ∷ rs;
      }

  abbrev analyzed : ℕ → Result (List Filelog) → MergeInfo
  analyzed cl (ok logs) = summarize (parse_filelog_results logs cl)
  analyzed cl (err e) = no_merge

  abbrev analyze_paths : ℕ → List Str → MergeInfo
  analyze_paths cl [] = no_merge
  analyze_paths cl (p ∷ paths) = analyzed cl (run_filelog (p ∷ paths))

  unfoldable pub analyze : P4ChangeInfo → MergeInfo
  unfolding parse_filelog_results summarize
  analyze info = analyze_paths info.changelist (
      map (λ (f : P4FileAction). f.depot_path)
        (keep (λ (f : P4FileAction). contains integration_actions f.action) info.files))
