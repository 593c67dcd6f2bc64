-- ===== src/Import/Tree.antt =====
-- The tree of streams of services/multi_stream_importer.py. A node is shared by the dictionary of nodes
-- and by the list of its parent's children, which here holds its key.
pub mod Nodes
pub mod Links
pub mod Order
pub mod Walk
pub mod Fresh
pub mod Laws
use p4sync_git.Prelude.{
  ℕ, zero, suc, ◌-◌, ◌≡◌, Bool, true, false, ◌&&◌, ◌||◌, Option, none, some, List, [], ◌∷◌, ◌++◌,
  map, length, drop, keep, is_some, is_empty, leb, ltb, if◌then◌else◌,
}
use p4sync_git.Text.{Str, codes, str_eq, contains, split, join, strip_right, lower}
use p4sync_git.Text.Dict.{Dict, dict_get, dict_set}
use p4sync_git.Exec.{Result, ok, err, and_then}
use p4sync_git.Paths.{slash, last_part}
use p4sync_git.Sync.Watcher.{RawStream, or_empty}

pub record StreamNode : Type 0 where
  pub stream : Str
  pub branch : Str
  pub parent_stream : Option Str
  pub branch_point_cl : Option ℕ
  pub children : List Str

-- what is asked of P4 about streams
pub record StreamTable : Type 0 where
  pub get_stream_info : Str → Result RawStream
  pub get_changes_after : Str → ℕ → Result (List ℕ)
  pub get_all_changes : Str → Result (List ℕ)

-- `info.get("Parent", "none")`
abbrev pub parent_text : RawStream → Str
parent_text info = or_empty info.parent_key (codes "none")

abbrev pub is_root_text : Str → Bool
is_root_text parent = str_eq parent (codes "none")

abbrev branch_from : Str → Str → RawStream → Str
branch_from stream default_branch info =
    if is_root_text (parent_text info)
      || str_eq (lower (or_empty info.type_key [])) (codes "mainline")
    then default_branch
    else (let parts = split slash (strip_right slash stream) in
        if ltb 3 (length parts) then join (slash ∷ []) (drop 3 parts) else last_part parts)

-- a parent of its own among the streams
abbrev pub known_parent : List Str → Str → Option Str
known_parent streams parent =
    if is_root_text parent
    then none
    else if is_empty parent
    then none
    else if contains streams parent
    then some parent
    else none

module _ (p4 : StreamTable) where
  unfoldable pub stream_to_branch : Str → Str → Result Str
  unfolding str_eq lower split strip_right join last_part
  stream_to_branch stream default_branch =
      and_then (p4.get_stream_info stream) (λ info. ok (branch_from stream default_branch info))

  -- the last changelist of the parent before the first one of the stream, which is 1 or more
  abbrev pub last_before : ℕ → List ℕ → ℕ
  last_before d [] = d
  last_before d (c ∷ cs) = last_before c cs

  abbrev point_before : Str → List ℕ → Result (Option ℕ)
  point_before parent [] = ok none
  point_before parent (c ∷ cs) =
      and_then (p4.get_all_changes parent)
        (λ parent_cls. ok (some (last_before (c - 1) (keep (λ cl. leb cl (c - 1)) parent_cls))))

  abbrev pub branch_point : Str → Option Str → Result (Option ℕ)
  branch_point stream none = ok none
  branch_point stream (some parent) = and_then (p4.get_changes_after stream 0) (point_before parent)

  abbrev pub node_at : Str → Option Str → Str → Option ℕ → StreamNode
  node_at stream parent branch cl = record {
    stream = stream;
    branch = branch;
    parent_stream = parent;
    branch_point_cl = cl;
    children = [];
  }

  abbrev pub with_point : Str → Option Str → Str → Result StreamNode
  with_point stream parent branch =
      and_then (branch_point stream parent) (λ cl. ok (node_at stream parent branch cl))

  abbrev pub with_branch : List Str → Str → Str → RawStream → Result StreamNode
  with_branch streams default_branch stream info =
      and_then (stream_to_branch stream default_branch)
        (with_point stream (known_parent streams (parent_text info)))

  unfoldable pub node_of : List Str → Str → Str → Result StreamNode
  unfolding stream_to_branch str_eq contains
  node_of streams default_branch stream =
      and_then (p4.get_stream_info stream) (with_branch streams default_branch stream)

  unfoldable pub make_nodes : List Str → Str → List Str → Dict StreamNode → Result (Dict StreamNode)
  unfolding node_of dict_set
  make_nodes streams default_branch [] nodes = ok nodes
  make_nodes streams default_branch (stream ∷ rest) nodes =
      and_then (node_of streams default_branch stream)
        (λ node. make_nodes streams default_branch rest (dict_set stream node nodes))

abbrev parent_node : Option Str → Dict StreamNode → Option StreamNode
parent_node none nodes = none
parent_node (some p) nodes = dict_get p nodes

abbrev pub add_child : Str → StreamNode → StreamNode
add_child stream n = record n { children = n.children ++ (stream ∷ []) }

abbrev parent_key_of : Option Str → Str
parent_key_of none = []
parent_key_of (some p) = p

abbrev pub linked :
    StreamNode
    → Option StreamNode
    → (Dict StreamNode → List Str → Dict StreamNode × List Str)
    → Dict StreamNode
    → List Str
    → Dict StreamNode × List Str
linked n (some p) rest nodes roots =
    rest (dict_set (parent_key_of n.parent_stream) (add_child n.stream p) nodes) roots
linked n none rest nodes roots = rest nodes (roots ++ (n.stream ∷ []))

-- the loop that links children to their parents, over the values of the dictionary
unfoldable pub link : List StreamNode → Dict StreamNode → List Str → Dict StreamNode × List Str
unfolding dict_get dict_set
link [] nodes roots = (nodes, roots)
link (n ∷ ns) nodes roots = linked n (parent_node n.parent_stream nodes) (link ns) nodes roots

abbrev pub values : Dict StreamNode → List StreamNode
values d = map (λ (e : Str × StreamNode). e.1) d

-- the nodes, and the keys of the roots
unfoldable pub build_stream_tree :
    StreamTable → List Str → Str → Result (Dict StreamNode × List Str)
unfolding make_nodes link
build_stream_tree p4 streams default_branch =
    and_then (make_nodes p4 streams default_branch streams [])
      (λ nodes. ok (link (values nodes) nodes []))

abbrev pub option_children : Option StreamNode → List Str
option_children none = []
option_children (some n) = n.children

abbrev pub children_of : Dict StreamNode → Str → List Str
children_of nodes stream = option_children (dict_get stream nodes)

-- The loop over the queue; `none` when the fuel is used up.
unfoldable pub flatten_queue : ℕ → (Str → List Str) → List Str → Option (List Str)
flatten_queue fuel children [] = some []
flatten_queue zero children (n ∷ queue) = none
flatten_queue (suc fuel) children (n ∷ queue) =
    elim (flatten_queue fuel children (queue ++ children n)) [ none ↦ none | some r ↦ some (n ∷ r) ]

-- One round takes one node, and each is queued once.
unfoldable pub flatten_tree : Dict StreamNode → List Str → Option (List Str)
unfolding flatten_queue dict_get
flatten_tree nodes roots = flatten_queue (length nodes) (children_of nodes) roots
