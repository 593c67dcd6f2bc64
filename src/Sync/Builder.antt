-- ===== src/Sync/Builder.antt =====
-- services/commit_builder.py, and `p4_to_git` of services/user_mapper.py with its fallback. The texts
-- of `.gitattributes` and `.lfsconfig`, and those at the head of the branch, are parameters.
pub mod Extraction
pub mod Laws
use p4sync_git.Prelude.{
  ℕ, ◌+◌, Bool, true, false, not, ◌&&◌, Option, none, some, List, [], ◌∷◌, ◌++◌, map, if◌then◌else◌,
  is_some, get_or, length,
}
use p4sync_git.Text.{Str, codes, str_eq, contains}
use p4sync_git.Text.Decimal.{show_nat}
use p4sync_git.Exec.{Result, ok, err, Exec, ◌>>=◌, ◌>>◌, pure, raise, lift, gets, modify}
use p4sync_git.Sql.{fetch_one}
use p4sync_git.Git.Trailers.{CommitMetadata, IntegrationCommitInfo}
use p4sync_git.Git.FileMode.{FileChange, git_mode_from_p4_type, git_mode_file}
use p4sync_git.Paths.{depot_to_git_path, VirtualStreamFilter, is_included, parent_stream}
use p4sync_git.Lfs.Routing.{LfsConfig, Target, partition_for_lfs}
use p4sync_git.Perforce.Change.{P4FileAction, P4ChangeInfo, delete_actions, add_edit_actions}
use p4sync_git.Perforce.Merge.{MergeInfo}
use p4sync_git.State.Connection.{StateStore}
use p4sync_git.State.CommitMap.{get_any_commit_sha}
use p4sync_git.State.Users.{Author, get_git_author}
use p4sync_git.Sync.World.{GitOperator, World, on_git}

-- What P4 and the LFS store do for a file: print several or one, give its size and its first bytes,
-- and put it into the store, where nothing comes back if P4 does not print it.
pub record Contents : Type 0 where
  pub print_files_batch : List Str → Result (List (Str × List ℕ))
  pub print_file_to_bytes : Str → ℕ → Result (Option (List ℕ))
  pub size_of : P4FileAction → Option ℕ
  pub read_head : P4FileAction → Option (List ℕ)
  pub store_lfs : P4FileAction → Result (Option (List ℕ))

-- The LFS side of a builder: its configuration, the two files it asks for, and those at the head.
pub record LfsSetup : Type 0 where
  pub config : LfsConfig
  pub gitattributes : List ℕ
  pub lfsconfig : Option (List ℕ)
  pub head_file : Str → Option (List ℕ)

pub record CommitBuilder : Type 0 where
  pub stream : Str
  pub stream_prefix_len : ℕ
  pub virtual_filter : Option VirtualStreamFilter
  pub lfs : Option LfsSetup

abbrev pub Found : Type 0
Found = List FileChange × List Str

abbrev depot_stream : CommitBuilder → Str
depot_stream b = elim b.virtual_filter [ none ↦ b.stream | some f ↦ parent_stream f ]

abbrev prefix_len : CommitBuilder → ℕ
prefix_len b = elim b.virtual_filter [ none ↦ b.stream_prefix_len | some f ↦ f.parent_prefix_len ]

abbrev included : Option VirtualStreamFilter → Str → Bool
included none path = true
included (some f) path = is_included f path

-- the path in Git of a file that the builder takes over
unfoldable pub target_path : CommitBuilder → P4FileAction → Option Str
target_path b fa =
    if included b.virtual_filter fa.depot_path
    then depot_to_git_path fa.depot_path (depot_stream b) (prefix_len b)
    else none

abbrev pub add_target : P4FileAction → Option Str → List Target × List Str → List Target × List Str
add_target fa none found = found
add_target fa (some git_path) (targets, deletes) =
    if contains delete_actions fa.action
    then (targets, git_path ∷ deletes)
    else if contains add_edit_actions fa.action
    then ((fa, git_path) ∷ targets, deletes)
    else (targets, deletes)

-- the files to add or edit, and the paths to delete
unfoldable pub classify_files : CommitBuilder → List P4FileAction → List Target × List Str
unfolding target_path
classify_files b [] = ([], [])
classify_files b (fa ∷ files) = add_target fa (target_path b fa) (classify_files b files)

abbrev pub file_spec : P4FileAction → Str
file_spec fa = fa.depot_path ++ (b'#' ∷ show_nat fa.revision)

abbrev pub add_content : Target → ℕ → Option (List ℕ) → Found → Found
add_content (fa, git_path) mode (some content) (changes, missing) =
    (record { path = git_path; content = content; mode = some mode } ∷ changes, missing)
add_content (fa, git_path) mode none (changes, missing) = (changes, file_spec fa ∷ missing)

abbrev pub content_of : List (Str × List ℕ) → P4FileAction → Option (List ℕ)
content_of results fa = elim (fetch_one (λ e. str_eq e.0 fa.depot_path) results) [
  | none ↦ none
  | some e ↦ some e.1
]

unfoldable pub gather : (P4FileAction → Option (List ℕ)) → List Target → Found
gather read [] = ([], [])
gather read (t ∷ ts) =
    add_content t (git_mode_from_p4_type t.0.file_type) (read t.0) (gather read ts)

-- several files are printed in one call
unfoldable pub print_normal : Contents → List Target → Result Found
unfolding gather
print_normal p4 [] = ok ([], [])
print_normal p4 (t ∷ []) = elim (p4.print_file_to_bytes t.0.depot_path t.0.revision) [
  | ok content ↦ ok (gather (λ fa. content) (t ∷ []))
  | err e ↦ err e
]
print_normal p4 (t ∷ u ∷ ts) =
    elim (p4.print_files_batch (map (λ (v : Target). file_spec v.0) (t ∷ u ∷ ts))) [
      | ok results ↦ ok (gather (content_of results) (t ∷ u ∷ ts))
      | err e ↦ err e
    ]

abbrev add_pointer : Target → Result (Option (List ℕ)) → Result Found → Result Found
add_pointer t (ok pointer) (ok found) = ok (add_content t git_mode_file pointer found)
add_pointer t (ok pointer) (err e) = err e
add_pointer t (err e) rest = err e

unfoldable pub store_pointers : Contents → List Target → Result Found
store_pointers p4 [] = ok ([], [])
store_pointers p4 (t ∷ ts) = add_pointer t (p4.store_lfs t.0) (store_pointers p4 ts)

abbrev joined : Result Found → Result Found → Result Found
joined (ok (a, m)) (ok (b, n)) = ok (a ++ b, m ++ n)
joined (ok (a, m)) (err e) = err e
joined (err e) rest = err e

-- a file that cannot be read fails the changelist
abbrev pub unless_missing : Result Found → Result (List FileChange)
unless_missing (ok (changes, [])) = ok changes
unless_missing (ok (changes, m ∷ missing)) = err (codes "ContentExtractionError")
unless_missing (err e) = err e

abbrev same_file : Option (List ℕ) → List ℕ → Bool
same_file none expected = false
same_file (some found) expected = str_eq found expected

abbrev config_file : LfsSetup → Str → List ℕ → List FileChange
config_file l path expected =
    if same_file (l.head_file path) expected
    then []
    else record { path = path; content = expected; mode = some git_mode_file } ∷ []

abbrev optional_file : LfsSetup → Str → Option (List ℕ) → List FileChange
optional_file l path none = []
optional_file l path (some expected) = config_file l path expected

unfoldable pub with_config_files : LfsSetup → List FileChange → List FileChange
with_config_files l changes =
    if l.config.enabled
    then config_file l (codes ".gitattributes") l.gitattributes
      ++ (changes ++ optional_file l (codes ".lfsconfig") l.lfsconfig)
    else changes

abbrev configured : LfsSetup → Result (List FileChange) → Result (List FileChange)
configured l (ok changes) = ok (with_config_files l changes)
configured l (err e) = err e

unfoldable pub extract_contents :
    Contents → Option LfsSetup → List Target → Result (List FileChange)
unfolding print_normal store_pointers with_config_files
extract_contents p4 none targets = unless_missing (print_normal p4 targets)
extract_contents p4 (some l) targets =
    let (lfs, normal) = partition_for_lfs p4.size_of p4.read_head l.config targets in
    configured l (unless_missing (joined (print_normal p4 normal) (store_pointers p4 lfs)))

abbrev pub with_deletes : List Str → Result (List FileChange) → Result (List FileChange × List Str)
with_deletes deletes (ok changes) = ok (changes, deletes)
with_deletes deletes (err e) = err e

unfoldable pub extract_file_changes :
    Contents → CommitBuilder → P4ChangeInfo → Result (List FileChange × List Str)
unfolding classify_files extract_contents
extract_file_changes p4 b info =
    let (targets, deletes) = classify_files b info.files in
    with_deletes deletes (extract_contents p4 b.lfs targets)

unfoldable pub build_integration_info : Str → MergeInfo → Option IntegrationCommitInfo
build_integration_info stream m =
    if m.has_integration
    then some (record {
      source_stream = get_or m.primary_source_stream [];
      target_stream = stream;
      source_changelist = m.source_changelist;
      integrated_files = length m.records;
    })
    else none

abbrev pub source_sha : Option ℕ → StateStore → Option Str
source_sha none s = none
source_sha (some cl) s = get_any_commit_sha cl s

module _ {G : Type 0} (git : GitOperator G) where
  -- A merge commit if both shas are known and not empty, else a plain one.
  abbrev merge_or_plain :
      Option Str → Str → Option Str → CommitMetadata → List FileChange → List Str → Exec G Str
  merge_or_plain (some (c ∷ source)) branch (some (d ∷ parent)) meta changes deletes =
      git.create_merge_commit branch ((d ∷ parent) ∷ (c ∷ source) ∷ []) meta changes deletes
  merge_or_plain source branch parent meta changes deletes =
      git.create_commit branch parent meta changes deletes

  unfoldable pub try_merge_commit :
      MergeInfo
      → Str
      → Option Str
      → CommitMetadata
      → List FileChange
      → List Str
      → Exec (World G) Str
  unfolding get_any_commit_sha
  try_merge_commit m branch parent meta changes deletes w =
      on_git
        (merge_or_plain (source_sha m.source_changelist w.store) branch parent meta changes deletes)
        w

  -- `script` is what the mapping script returns, if there is one and it returns a name and an address
  abbrev author_or : ℕ → Str → Str → Option Author → Exec (World G) Author
  author_or now user domain (some a) w = (ok a, w)
  author_or now user domain none w =
      let (a, s) = get_git_author now user domain w.store in (ok a, record w { store = s })

  module _ (p4 : Contents) (analyze : P4ChangeInfo → MergeInfo)
      (script : P4ChangeInfo → Option Author) (domain : Str) (b : CommitBuilder) (now : ℕ) where
    abbrev metadata : P4ChangeInfo → Author → CommitMetadata
    metadata info author = record {
      author_name = author.0;
      author_email = author.1;
      author_timestamp = info.timestamp;
      message = info.description;
      p4_changelist = info.changelist;
      integration_info = build_integration_info b.stream (analyze info);
    }

    unfoldable pub commit_changes :
        P4ChangeInfo → Str → Option Str → List FileChange → List Str → Exec (World G) Str
    unfolding try_merge_commit build_integration_info
    commit_changes info branch parent changes deletes = do
      modify (λ w. record w { last_has_integration = (analyze info).has_integration })
      author ← author_or now info.user domain (script info)
      if (analyze info).has_integration
          then try_merge_commit (analyze info) branch parent (metadata info author) changes deletes
          else on_git (git.create_commit branch parent (metadata info author) changes deletes)

    abbrev unless_empty :
        P4ChangeInfo → Str → Option Str → List FileChange × List Str → Exec (World G) Str
    unless_empty info branch parent ([], []) = pure []
    unless_empty info branch parent (changes, deletes) =
        commit_changes info branch parent changes deletes

    unfoldable pub build_commit : P4ChangeInfo → Str → Option Str → Exec (World G) Str
    unfolding extract_file_changes commit_changes
    build_commit info branch parent = do
      found ← lift (extract_file_changes p4 b info)
      unless_empty info branch parent found
