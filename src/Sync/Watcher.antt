-- ===== src/Sync/Watcher.antt =====
-- services/stream_watcher.py, `StreamPolicy` of config/sync_config.py, and the use of both in
-- `MultiStreamHandler.check_stream_changes`. A notice of a new stream changes nothing and is left out.
pub mod Laws
use p4sync_git.Prelude.{
  ℕ, zero, suc, Bool, true, false, not, ◌&&◌, Option, none, some, List, [], ◌∷◌, map, if◌then◌else◌,
  is_empty, ltb,
}
use p4sync_git.Text.{Str, codes, str_eq, contains}
use p4sync_git.Exec.{
  Result, ok, err, Exec, ◌>>=◌, ◌>>◌, pure, raise, lift, gets, modify, try_except,
}
use p4sync_git.State.Schema.{StreamMapping}
use p4sync_git.State.Connection.{StateStore}
use p4sync_git.State.Streams.{register_stream, get_all_registered_streams, get_stream_mapping}
use p4sync_git.State.CommitMap.{get_last_commit_before}
use p4sync_git.Paths.{stream_to_branch}
use p4sync_git.Sync.World.{GitOperator, World, on_git, on_store}

pub record P4StreamInfo : Type 0 where
  pub stream : Str
  pub kind : Str
  pub parent : Option Str
  pub first_changelist : ℕ

pub record StreamChanges : Type 0 where
  pub created : List P4StreamInfo
  pub deleted : List P4StreamInfo

-- a dictionary that P4 returns for a stream
pub record RawStream : Type 0 where
  pub stream_key : Option Str
  pub type_key : Option Str
  pub parent_key : Option Str

pub record StreamServer : Type 0 where
  pub get_streams : Str → Result (List RawStream)
  pub get_all_changes : Str → Result (List ℕ)

pub record StreamPolicy : Type 0 where
  pub auto_discover : Bool
  pub include_patterns : List Str
  pub exclude_types : List Str
  pub exclude_streams : List Str
  pub task_stream_policy : Str

-- `any(fnmatch(stream, p) for p in ps)`
any_match : (Str → Str → Bool) → Str → List Str → Bool
any_match fnmatch stream [] = false
any_match fnmatch stream (p ∷ ps) = if fnmatch stream p then true else any_match fnmatch stream ps

unfoldable pub should_include : (Str → Str → Bool) → StreamPolicy → Str → Str → Bool
unfolding any_match
should_include fnmatch p stream kind =
    if not p.auto_discover
    then false
    else if str_eq kind (codes "task") && str_eq p.task_stream_policy (codes "ignore")
    then false
    else if contains p.exclude_types kind
    then false
    else if any_match fnmatch stream p.exclude_streams
    then false
    else if is_empty p.include_patterns
    then true
    else any_match fnmatch stream p.include_patterns

abbrev pub or_empty : Option Str → Str → Str
or_empty none default = default
or_empty (some s) default = s

abbrev pub unless_none : Option Str → Option Str
unless_none none = none
unless_none (some p) = if str_eq p (codes "none") then none else some p

abbrev pub first_or_zero : List ℕ → ℕ
first_or_zero [] = 0
first_or_zero (c ∷ cs) = c

abbrev pub first_changelist_of : Result (List ℕ) → Result ℕ
first_changelist_of (ok cs) = ok (first_or_zero cs)
first_changelist_of (err e) = err e

abbrev pub with_info :
    RawStream → Result ℕ → Result (List P4StreamInfo) → Result (List P4StreamInfo)
with_info s (err e) rest = err e
with_info s (ok cl) (err e) = err e
with_info s (ok cl) (ok rest) = ok (
    record {
      stream = or_empty s.stream_key [];
      kind = or_empty s.type_key (codes "unknown");
      parent = unless_none s.parent_key;
      first_changelist = cl;
    }
    ∷ rest)

unfoldable pub infos_of : StreamServer → List RawStream → Result (List P4StreamInfo)
infos_of p4 [] = ok []
infos_of p4 (s ∷ ss) =
    with_info s (first_changelist_of (p4.get_all_changes (or_empty s.stream_key [])))
      (infos_of p4 ss)

abbrev infos_or : StreamServer → Result (List RawStream) → Result (List P4StreamInfo)
infos_or p4 (ok ss) = infos_of p4 ss
infos_or p4 (err e) = err e

unfoldable pub fetch_p4_streams : StreamServer → Str → Result (List P4StreamInfo)
unfolding infos_of
fetch_p4_streams p4 depot = infos_or p4 (p4.get_streams depot)

unfoldable pub created_of :
    (Str → Str → Bool) → StreamPolicy → List Str → List P4StreamInfo → List P4StreamInfo
unfolding should_include contains
created_of fnmatch policy registered [] = []
created_of fnmatch policy registered (i ∷ is) =
    let rest = created_of fnmatch policy registered is in
    if contains registered i.stream
    then rest
    else if should_include fnmatch policy i.stream i.kind
    then i ∷ rest
    else rest

unfoldable pub deleted_of : List Str → List Str → List P4StreamInfo
unfolding contains
deleted_of p4_stream_names [] = []
deleted_of p4_stream_names (s ∷ ss) =
    let rest = deleted_of p4_stream_names ss in
    if contains p4_stream_names s
    then rest
    else record { stream = s; kind = codes "unknown"; parent = none; first_changelist = 0 } ∷ rest

abbrev pub registered_names : StateStore → List Str
registered_names s = map (λ (m : StreamMapping). m.stream) (get_all_registered_streams s)

abbrev pub names_of : List P4StreamInfo → List Str
names_of = map (λ (i : P4StreamInfo). i.stream)

module _ (fnmatch : Str → Str → Bool) (policy : StreamPolicy) (p4 : StreamServer)
    (depot : Str) where
  abbrev pub compared : Result (List P4StreamInfo) → StateStore → Result StreamChanges
  compared (err e) s = err e
  compared (ok infos) s = ok (record {
    created = created_of fnmatch policy (registered_names s) infos;
    deleted = deleted_of (names_of infos) (registered_names s);
  })

  unfoldable pub detect_changes : StateStore → Result StreamChanges
  unfolding fetch_p4_streams created_of deleted_of get_all_registered_streams
  detect_changes s = compared (fetch_p4_streams p4 depot) s

abbrev branch_or_derived : Str → Option StreamMapping → Str
branch_or_derived stream (some m) = m.branch
branch_or_derived stream none = stream_to_branch stream

unfoldable pub get_parent_branch : Str → StateStore → Str
unfolding get_stream_mapping stream_to_branch
get_parent_branch parent s = branch_or_derived parent (get_stream_mapping parent s)

abbrev pub point_of : ℕ → Option ℕ
point_of zero = none
point_of (suc n) = some (suc n)

abbrev pub mapping_of : P4StreamInfo → Bool → StreamMapping
mapping_of i true = record {
  stream = i.stream;
  branch = stream_to_branch i.stream;
  parent_stream = none;
  branch_point_cl = none;
}
mapping_of i false = record {
  stream = i.stream;
  branch = stream_to_branch i.stream;
  parent_stream = i.parent;
  branch_point_cl = point_of i.first_changelist;
}

abbrev pub has_parent : Option Str → Bool
has_parent none = false
has_parent (some p) = true

abbrev pub is_root : P4StreamInfo → Bool
is_root i = if str_eq i.kind (codes "mainline") then true else not (has_parent i.parent)

module _ {G : Type 0} (git : GitOperator G) (create_orphan_branch : Str → Exec G (Unit {0})) where
  -- A sha that is empty is none.
  abbrev pub branch_at : Str → Option Str → Exec (World G) (Unit {0}) → Exec (World G) (Unit {0})
  branch_at branch none otherwise = otherwise
  branch_at branch (some []) otherwise = otherwise
  branch_at branch (some (c ∷ sha)) otherwise = on_git (git.create_branch branch (c ∷ sha))

  abbrev pub start_from : Str → Option Str → ℕ → Exec (World G) (Unit {0})
  start_from branch none cl w = on_git (create_orphan_branch branch) w
  start_from branch (some parent) cl w =
      branch_at branch (get_last_commit_before parent cl w.store)
        (branch_at branch (git.get_head_sha (get_parent_branch parent w.store) w.git)
          (on_git (create_orphan_branch branch)))
        w

  unfoldable pub handle_created_stream : P4StreamInfo → Exec (World G) (Unit {0})
  unfolding get_last_commit_before get_parent_branch register_stream stream_to_branch
  handle_created_stream i =
      start_from (stream_to_branch i.stream) (if is_root i then none else i.parent)
        i.first_changelist
      >> modify (on_store (register_stream (mapping_of i (is_root i))))

  -- It looks the stream up for its messages, and returns either way.
  unfoldable pub handle_deleted_stream : Str → Exec (World G) (Unit {0})
  unfolding get_stream_mapping
  handle_deleted_stream stream = do mapping ← gets (λ w. get_stream_mapping stream w.store); pure tt

  unfoldable pub handle_created : List P4StreamInfo → World G → World G
  unfolding handle_created_stream
  handle_created [] w = w
  handle_created (i ∷ is) w = handle_created is (handle_created_stream i w).1

  unfoldable pub handle_deleted : List P4StreamInfo → World G → World G
  unfolding handle_deleted_stream
  handle_deleted [] w = w
  handle_deleted (i ∷ is) w = handle_deleted is (handle_deleted_stream i.stream w).1

  abbrev handle_changes : Result StreamChanges → World G → World G
  handle_changes (err e) w = w
  handle_changes (ok c) w = handle_deleted c.deleted (handle_created c.created w)

  -- a handler with a stream watcher
  unfoldable pub check_stream_changes :
      (Str → Str → Bool) → StreamPolicy → StreamServer → Str → World G → World G
  unfolding detect_changes handle_created handle_deleted
  check_stream_changes fnmatch policy p4 depot w =
      handle_changes (detect_changes fnmatch policy p4 depot w.store) w
