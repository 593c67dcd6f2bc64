-- ===== src/Paths.antt =====
-- Depot paths, git paths and names of streams: p4gitsync/src/p4gitsync/p4/path_utils.py,
-- p4/virtual_stream_filter.py, and the path functions of services/conflict_detector.py,
-- services/stream_watcher.py, services/multi_stream_sync.py and p4/workspace_manager.py.
pub mod Laws
use p4sync_git.Prelude.{
  ℕ, ◌+◌, ◌-◌, Bool, true, false, ◌&&◌, ◌||◌, Option, none, some, List, [], ◌∷◌, ◌++◌, map, ltb,
  leb, ◌==◌, if◌then◌else◌, any, length, take, drop, not,
}
use p4sync_git.Text.{Str, codes, starts_with, split, join, strip, strip_left, strip_right, is_digit}

abbrev pub slash : ℕ
slash = b'/'

unfoldable pub depot_to_git_path : Str → Str → ℕ → Option Str
depot_to_git_path depot_path stream stream_prefix_len =
    if starts_with depot_path (stream ++ (slash ∷ []))
    then some (drop stream_prefix_len depot_path)
    else none

pub record VirtualStreamFilter : Type 0 where
  pub parent_prefix : Str
  pub parent_prefix_len : ℕ
  pub excludes : List Str

-- `__init__`
unfoldable pub virtual_stream_filter : Str → List Str → VirtualStreamFilter
virtual_stream_filter parent_stream exclude_patterns = record {
  parent_prefix = parent_stream ++ (slash ∷ []);
  parent_prefix_len = length (parent_stream ++ (slash ∷ []));
  excludes = exclude_patterns;
}

unfoldable pub is_included : VirtualStreamFilter → Str → Bool
is_included f depot_path =
    starts_with depot_path f.parent_prefix
    && not (any (starts_with (drop f.parent_prefix_len depot_path)) f.excludes)

-- `self._parent_prefix[:-1]`
unfoldable pub parent_stream : VirtualStreamFilter → Str
parent_stream f = take (length f.parent_prefix - 1) f.parent_prefix

-- `ConflictDetector._normalize_path`
unfoldable pub normalize_path : Str → Str
unfolding split join starts_with
normalize_path path =
    let parts = split slash path in
    if starts_with path (codes "//") && ltb 4 (length parts)
    then join (slash ∷ []) (drop 4 parts)
    else path

-- `parts[-1]`
unfoldable pub last_part : List Str → Str
last_part [] = []
last_part (w ∷ []) = w
last_part (w ∷ v ∷ ws) = last_part (v ∷ ws)

abbrev pub underscore : ℕ
underscore = b'_'

-- `StreamWatcher._stream_to_branch`
unfoldable pub stream_to_branch : Str → Str
unfolding strip split last_part
stream_to_branch stream =
    let parts = split slash (strip slash stream) in
    if leb 2 (length parts)
    then last_part parts
    else strip underscore (map (λ c. if c == slash then underscore else c) stream)

abbrev first_part : List Str → Str
first_part [] = []
first_part (w ∷ ws) = w

-- `MultiStreamHandler.extract_depot`
unfoldable pub extract_depot : Str → Str
unfolding strip split
extract_depot stream =
    let parts = split slash (strip slash stream) in
    if leb 2 (length parts) then codes "//" ++ first_part parts else stream

-- `[a-zA-Z0-9_\-.]`
abbrev is_name_char : ℕ → Bool
is_name_char c =
    (leb b'a' c && leb c b'z')
    || ((leb b'A' c && leb c b'Z') || (is_digit c || (c == b'_' || (c == b'-' || c == b'.'))))

-- `WorkspaceManager._make_workspace_name`
unfoldable pub make_workspace_name : Str → Str → Str
unfolding strip
make_workspace_name server_id stream =
    codes "p4gitsync-"
    ++ (server_id
        ++ (b'-'
            ∷ map (λ c. if is_name_char c then c else underscore)
                (map (λ c. if c == slash then b'-' else c) (strip slash stream))))
