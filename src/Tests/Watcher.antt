-- ===== src/Tests/Watcher.antt =====
-- A round of the watcher on a server with two streams, of which one is new.
use p4sync_git.Prelude.{◌≡◌, refl, true, false, not, ◌&&◌, some, none, List, [], ◌∷◌}
use p4sync_git.Text.{Str, codes, contains, str_eq}
use p4sync_git.Exec.{ok}
use p4sync_git.Sync.Watcher.{
  P4StreamInfo, StreamChanges, StreamPolicy, StreamServer, fetch_p4_streams, infos_of,
  detect_changes, registered_names, names_of, check_stream_changes,
}
use p4sync_git.Sync.Watcher.Laws.{check_stream_changes_settles}
use p4sync_git.Tests.Data.{main, git, world}

abbrev server : StreamServer
server = record {
  get_streams = λ depot. ok (
      record { stream_key = some main; type_key = some (codes "mainline"); parent_key = none }
      ∷ record {
        stream_key = some (codes "//depot/dev");
        type_key = some (codes "development");
        parent_key = some main;
      }
      ∷ []);
  get_all_changes = λ stream. ok (3 ∷ 7 ∷ []);
}

abbrev policy : StreamPolicy
policy = record {
  auto_discover = true;
  include_patterns = [];
  exclude_types = [];
  exclude_streams = [];
  task_stream_policy = codes "ignore";
}

abbrev info : Str → Str → P4StreamInfo
info stream kind = record { stream = stream; kind = kind; parent = none; first_changelist = 3 }

abbrev infos : List P4StreamInfo
infos =
    info main (codes "mainline")
    ∷ record (info (codes "//depot/dev") (codes "development")) { parent = some main }
    ∷ []

two_streams : fetch_p4_streams server (codes "//depot") ≡ ok infos
unfolding fetch_p4_streams infos_of str_eq
two_streams = refl

check_stream_changes_settles_example :
    let u =
      check_stream_changes git
        (λ branch n. (ok tt, n))
        (λ stream p. false)
        policy
        server
        (codes "//depot")
        world in
    (c : StreamChanges) × (detect_changes
        (λ stream p. false)
        policy
        server
        (codes "//depot")
        u.store
      ≡ ok c)
    × (c.created ≡ [])
    × ((x : Str)
        → contains (names_of c.deleted) x
          ≡ (contains (registered_names world.store) x && not (contains (names_of infos) x)))
check_stream_changes_settles_example =
    check_stream_changes_settles git (λ branch n. (ok tt, n)) (λ branch sha g. refl)
      (λ branch g. refl) (λ stream p. false) policy server (codes "//depot") infos world two_streams
