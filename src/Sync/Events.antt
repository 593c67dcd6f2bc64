-- ===== src/Sync/Events.antt =====
-- services/sync_event.py and services/event_collector.py.
pub mod Laws
use p4sync_git.Prelude.{
  ℕ, Bool, true, false, ◌&&◌, ◌||◌, not, Option, none, some, List, [], ◌∷◌, ◌++◌, map, ltb, leb,
  ◌==◌, get_or, length, take, if◌then◌else◌,
}
use p4sync_git.Text.{Str}
use p4sync_git.Sql.Sort.{sort_by}
use p4sync_git.Exec.{Result, ok, err}
use p4sync_git.State.Schema.{StreamMapping}
use p4sync_git.State.Connection.{StateStore}
use p4sync_git.State.SyncState.{is_stream_synced, get_last_synced_cl}
use p4sync_git.State.Streams.{get_all_registered_streams}
use p4sync_git.Sync.World.{P4Client}

pub data SyncEvent : Type 0 where
  branch_create : (cl : ℕ) (stream parent_stream branch : Str) → SyncEvent
  changelist : (cl : ℕ) (stream branch : Str) → SyncEvent

abbrev pub event_cl : SyncEvent → ℕ
event_cl (branch_create cl stream parent branch) = cl
event_cl (changelist cl stream branch) = cl

abbrev pub event_stream : SyncEvent → Str
event_stream (branch_create cl stream parent branch) = stream
event_stream (changelist cl stream branch) = stream

abbrev pub event_branch : SyncEvent → Str
event_branch (branch_create cl stream parent branch) = branch
event_branch (changelist cl stream branch) = branch

abbrev pub priority : SyncEvent → ℕ
priority (branch_create cl stream parent branch) = 0
priority (changelist cl stream branch) = 1

-- the order of `sort_key`
abbrev pub event_leb : SyncEvent → SyncEvent → Bool
event_leb a b =
    ltb (event_cl a) (event_cl b) || (event_cl a == event_cl b) && leb (priority a) (priority b)

abbrev branch_of : Bool → StreamMapping → Option Str → List SyncEvent
branch_of true m parent = []
branch_of false m none = []
branch_of false m (some parent) =
    branch_create (get_or m.branch_point_cl 0) m.stream parent m.branch ∷ []

-- the event for a stream that has a parent and was never synchronised
unfoldable pub branch_events : StreamMapping → StateStore → List SyncEvent
branch_events m s = branch_of (is_stream_synced m.stream s) m m.parent_stream

module _ (p4 : P4Client) where
  abbrev pub with_events : List SyncEvent → Result (List SyncEvent) → Result (List SyncEvent)
  with_events events (ok rest) = ok (events ++ rest)
  with_events events (err e) = err e

  abbrev pub changelist_events :
      StreamMapping → Result (List ℕ) → Result (List SyncEvent) → Result (List SyncEvent)
  changelist_events m (ok changes) rest =
      with_events (map (λ cl. changelist cl m.stream m.branch) changes) rest
  changelist_events m (err e) rest = err e

  -- the loop over the streams; an error of P4 ends it
  unfoldable pub collect_from : List StreamMapping → StateStore → Result (List SyncEvent)
  unfolding branch_events
  collect_from [] s = ok []
  collect_from (m ∷ ms) s = with_events (branch_events m s) (
      changelist_events m (p4.get_changes_after m.stream (get_last_synced_cl m.stream s))
        (collect_from ms s))

  abbrev pub batched : ℕ → Result (List SyncEvent) → Result (List SyncEvent)
  batched batch_size (ok events) = ok (take batch_size (sort_by event_leb events))
  batched batch_size (err e) = err e

  unfoldable pub collect : ℕ → StateStore → Result (List SyncEvent)
  unfolding collect_from
  collect batch_size s = batched batch_size (collect_from (get_all_registered_streams s) s)
