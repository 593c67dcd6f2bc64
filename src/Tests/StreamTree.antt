-- ===== src/Tests/StreamTree.antt =====
-- A development stream that is listed before the main stream it was branched from.
use p4sync_git.Prelude.{◌≡◌, refl, if◌then◌else◌, none, some, [], ◌∷◌}
use p4sync_git.Text.{Str, codes, contains, str_eq, lower, split, join, strip_right}
use p4sync_git.Text.Dict.{Dict, dict_get, dict_set}
use p4sync_git.Paths.{last_part}
use p4sync_git.Exec.{ok}
use p4sync_git.Import.Tree.{
  StreamNode, StreamTable, build_stream_tree, make_nodes, link, node_of, stream_to_branch,
}
use p4sync_git.Import.Tree.Laws.{IsOrdered, build_stream_tree-flatten_tree}

abbrev main : Str
main = codes "//d/main"

abbrev dev : Str
dev = codes "//d/dev"

-- the main stream has changelists 1 and 2, the other one 3
abbrev table : StreamTable
table = record {
  get_stream_info = λ s. ok (
      if str_eq s main
      then record { stream_key = some s; type_key = some (codes "mainline"); parent_key = none }
      else record { stream_key = some s; type_key = none; parent_key = some main });
  get_changes_after = λ s cl. ok (if str_eq s main then 1 ∷ 2 ∷ [] else 3 ∷ []);
  get_all_changes = λ s. ok (if str_eq s main then 1 ∷ 2 ∷ [] else 3 ∷ []);
}

abbrev nodes : Dict StreamNode
nodes =
    (
      dev,
      record {
        stream = dev;
        branch = codes "dev";
        parent_stream = some main;
        branch_point_cl = some 2;
        children = [];
      },
    )
    ∷ (
      main,
      record {
        stream = main;
        branch = codes "master";
        parent_stream = none;
        branch_point_cl = none;
        children = dev ∷ [];
      },
    )
    ∷ []

is_built : build_stream_tree table (dev ∷ main ∷ []) (codes "master") ≡ ok (nodes, main ∷ [])
unfolding build_stream_tree make_nodes link node_of stream_to_branch str_eq contains dict_get
    dict_set lower split join strip_right last_part
is_built = refl

build_stream_tree-flatten_tree_example : IsOrdered (nodes, main ∷ [])
build_stream_tree-flatten_tree_example =
    build_stream_tree-flatten_tree table (dev ∷ main ∷ []) (codes "master") nodes (main ∷ [])
      is_built
