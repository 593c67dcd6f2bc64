-- ===== src/State/Streams.antt =====
-- The methods over the table `stream_registry`.
use p4sync_git.Prelude.{Option, List}
use p4sync_git.Text.{Str, str_eq}
use p4sync_git.Sql.{fetch_one, upsert}
use p4sync_git.State.Schema.{StreamMapping}
use p4sync_git.State.Connection.{StateStore, write}

unfoldable pub register_stream : StreamMapping → StateStore → StateStore
register_stream mapping = write λ db. record db {
  stream_registry =
      upsert (λ m. str_eq m.stream mapping.stream)
        (λ m. record m {
          branch = mapping.branch;
          parent_stream = mapping.parent_stream;
          branch_point_cl = mapping.branch_point_cl;
        })
        mapping db.stream_registry;
}

unfoldable pub get_all_registered_streams : StateStore → List StreamMapping
get_all_registered_streams s = s.conn.stream_registry

unfoldable pub get_stream_mapping : Str → StateStore → Option StreamMapping
get_stream_mapping stream s = fetch_one (λ m. str_eq m.stream stream) s.conn.stream_registry
