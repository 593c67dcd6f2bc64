-- ===== src/State/CommitMap/Laws.antt =====
-- The map of changelists to commits under the methods that write it, and what the queries find.
use mathlib.Core.Option
use p4sync_git.Prelude.{
  ℕ, ◌≡◌, ◌≢◌, ◌<◌, ◌↔◌, refl, Bool, true, false, Option, none, some, List, [], ◌∷◌, arith, ◌==◌,
  if◌then◌else◌, leb, ltb, keep, Bool-cases, inl, inr,
}
use p4sync_git.Text.{Str}
use p4sync_git.Text.Laws.{str_eq_iff, str_eq_refl}
use p4sync_git.Sql.{fetch_one, select_where}
use p4sync_git.Sql.Laws.{
  fetch_one-upsert, upserted, HasUniqueKeys, upsert-HasUniqueKeys, update_where-HasUniqueKeys,
  fetch_one-update_where, fetch_one-update_where,
}
use p4sync_git.Sql.Sort.{IsSorted, IsOrder, sort_by-IsSorted, keep-sort_by}
use p4sync_git.State.Schema.{CommitRow, PushStatus, pending, pushed, SyncDirection, p4_to_git}
use p4sync_git.State.Connection.{StateStore}
use p4sync_git.State.Connection.Laws.{write-conn}
use p4sync_git.State.SyncState.{get_last_synced_cl}
use p4sync_git.State.CommitMap.{
  CommitKey, commit_key, same_key, commit_row, row_sha, get_commit_sha, record_commit,
  update_push_status, is_unpushed, get_pending_pushes, later_of, latest_row, is_before,
  get_last_commit_before,
}

pub same_key_iff : (a b : CommitKey) → (same_key a b ≡ true) ↔ (a ≡ b)
same_key_iff (m, s) (n, t) = ground (arith, str_eq_iff s t)

-- No two rows are for one changelist of one stream.
abbrev pub IsKeyed : StateStore → Type 0
IsKeyed s = HasUniqueKeys same_key same_key_iff commit_key s.conn.cl_commit_map

-- a recorded row: what is there keeps its branch, its push status and its time
abbrev pub rerecorded : Str → Bool → SyncDirection → CommitRow → CommitRow
rerecorded sha i d r = record r { commit_sha = sha; has_integration = i; sync_direction = d }

module _ (now cl : ℕ) (sha stream branch : Str) (i : Bool) (d : SyncDirection)
    (s : StateStore) where
  abbrev pub fresh_row : CommitRow
  fresh_row = record {
    changelist = cl;
    commit_sha = sha;
    stream = stream;
    branch = branch;
    has_integration = i;
    git_push_status = pending;
    created_at = now;
    sync_direction = d;
  }

  pub commit_row-record_commit :
      (other_cl : ℕ) (other : Str)
      → commit_row other_cl other (record_commit now cl sha stream branch i d s) ≡ (
          if same_key (cl, stream) (other_cl, other)
          then some (upserted (rerecorded sha i d) fresh_row (commit_row cl stream s))
          else commit_row other_cl other s)
  unfolding commit_row record_commit
  commit_row-record_commit other_cl other = rw write-conn (
      fetch_one-upsert same_key same_key_iff commit_key (cl, stream) (other_cl, other)
        (rerecorded sha i d) fresh_row s.conn.cl_commit_map refl (λ r. refl))

  -- The commit recorded for a changelist of a stream is the one that is looked up for it; every
  -- other changelist, and the same changelist of another stream, keeps its own.
  pub get_commit_sha-record_commit :
      (other_cl : ℕ) (other : Str)
      → other ≢ []
      → get_commit_sha other_cl other (record_commit now cl sha stream branch i d s) ≡ (
          if same_key (cl, stream) (other_cl, other)
          then some sha
          else get_commit_sha other_cl other s)
  unfolding get_commit_sha
  get_commit_sha-record_commit other_cl [] h = absurd (h refl)
  get_commit_sha-record_commit other_cl (c ∷ other) h =
      ground (arith, commit_row-record_commit other_cl (c ∷ other))

  pub record_commit-IsKeyed : IsKeyed s → IsKeyed (record_commit now cl sha stream branch i d s)
  unfolding record_commit
  record_commit-IsKeyed u = rw write-conn (
      upsert-HasUniqueKeys same_key same_key_iff commit_key (cl, stream) (rerecorded sha i d)
        fresh_row s.conn.cl_commit_map refl (λ r. refl) u)

pub update_push_status-IsKeyed :
    (cl : ℕ) (stream : Str) (status : PushStatus) (s : StateStore)
    → IsKeyed s
    → IsKeyed (update_push_status cl stream status s)
unfolding update_push_status
update_push_status-IsKeyed cl stream status s u = rw write-conn (
    update_where-HasUniqueKeys same_key same_key_iff commit_key
      (λ r. same_key (commit_key r) (cl, stream)) (λ r. record r { git_push_status = status })
      s.conn.cl_commit_map (λ r. refl) u)

changelist-order : IsOrder {A = CommitRow} (λ a b. leb a.changelist b.changelist)
changelist-order = record { trans = λ x y z h k. ground arith; total = λ x y h. ground arith }

-- The pushes to retry come by changelist, and are the rows that are pending or failed: those of
-- one changelist, in the order of the table.
pub get_pending_pushes_lem :
    (s : StateStore)
    → IsSorted (λ a b. leb a.changelist b.changelist) (get_pending_pushes s)
      × ((n : ℕ)
          → keep (λ r. r.changelist == n) (get_pending_pushes s)
            ≡ keep (λ r. r.changelist == n) (select_where is_unpushed s.conn.cl_commit_map))
unfolding get_pending_pushes
get_pending_pushes_lem s = (
  sort_by-IsSorted _ changelist-order _,
  λ n. keep-sort_by _ (λ r. r.changelist == n) _ (λ a b ha hb. ground arith),
)

-- What the query for the last commit before a changelist is to find among the rows.
module _ (stream : Str) (before_cl : ℕ) where
  abbrev at : ℕ → List CommitRow → Option CommitRow
  at n = fetch_one (λ r. same_key (commit_key r) (n, stream))

  abbrev pub IsLatest : List CommitRow → Option CommitRow → Type 0
  IsLatest rows none = (n : ℕ) → n < before_cl → at n rows ≡ none
  IsLatest rows (some r) =
      (at r.changelist rows ≡ some r)
      × (r.changelist < before_cl)
      × ((n : ℕ) → r.changelist < n → n < before_cl → at n rows ≡ none)

  -- One more row in front: it is the latest if it is selected and no later one is.
  IsLatest-cons :
      (r : CommitRow) (rows : List CommitRow) (o : Option CommitRow)
      → IsLatest rows o
      → IsLatest (r ∷ rows) (if is_before stream before_cl r then later_of r o else o)
  unfolding fetch_one
  IsLatest-cons r rows none h = elim (Bool-cases (is_before stream before_cl r)) [
    | inl e ↦
        rw e
          (ground (arith, str_eq_iff r.stream stream), ground arith, λ n m k. ground (arith, h n k))
    | inr e ↦ rw e (λ n k. ground (arith, h n k))
  ]
  IsLatest-cons r rows (some b) h = elim (Bool-cases (is_before stream before_cl r)) [
    | inl e ↦ elim (Bool-cases (ltb r.changelist b.changelist)) [
      | inl l ↦ rw (e, l) (ground (arith, h.0), h.1, λ n m k. ground (arith, h.2 n m k))
      | inr l ↦
          rw (e, l)
            (
              ground (arith, str_eq_iff r.stream stream),
              ground arith,
              λ n m k. ground (arith, h.2 n),
            )
    ]
    | inr e ↦ rw e (ground (arith, h.0, h.1), h.1, λ n m k. ground (arith, h.2 n m k))
  ]

  latest_row-IsLatest :
      (rows : List CommitRow)
      → IsLatest rows (latest_row (select_where (is_before stream before_cl) rows))
  unfolding latest_row select_where fetch_one
  latest_row-IsLatest [] = λ n h. refl
  latest_row-IsLatest (r ∷ rows) =
      let latest = IsLatest-cons r rows _ (latest_row-IsLatest rows) in
      elim (Bool-cases (is_before stream before_cl r)) [
        | inl e ↦ rw e (rw e at latest)
        | inr e ↦ rw e (rw e at latest)
      ]

  -- The commit found before a changelist is that of the stream's last recorded changelist below
  -- it: one that is recorded, with none recorded between. There is no commit only if the stream
  -- has no recorded changelist below.
  pub get_last_commit_before_lem :
      (s : StateStore)
      → (o : Option CommitRow) × IsLatest s.conn.cl_commit_map o
        × (get_last_commit_before stream before_cl s ≡ row_sha o)
  unfolding get_last_commit_before
  get_last_commit_before_lem s = (_, latest_row-IsLatest s.conn.cl_commit_map, refl)

-- A changelist that is recorded again, with another commit, keeps the push status of the first: if
-- that was pushed, the new commit is not among the pushes to retry.
pub rerecorded_pushed :
    (now cl : ℕ) (sha stream branch : Str) (i : Bool) (d : SyncDirection) (s : StateStore)
    (r : CommitRow)
    → commit_row cl stream s ≡ some r
    → r.git_push_status ≡ pushed
    → (r' : CommitRow) × (commit_row cl stream (record_commit now cl sha stream branch i d s)
        ≡ some r')
      × (r'.commit_sha ≡ sha)
      × (is_unpushed r' ≡ false)
rerecorded_pushed now cl sha stream branch i d s r e p = (
  rerecorded sha i d r,
  ground (
    arith,
    commit_row-record_commit now cl sha stream branch i d s cl stream,
    str_eq_refl stream,
  ),
  refl,
  ground arith,
)

-- a status update reaches the one row of its changelist and stream
pub commit_row-update_push_status :
    (cl n : ℕ) (stream other : Str) (status : PushStatus) (s : StateStore)
    → commit_row n other (update_push_status cl stream status s)
      ≡ Option.map
          (λ r.
            if same_key (commit_key r) (cl, stream)
            then record r { git_push_status = status }
            else r)
          (commit_row n other s)
unfolding commit_row update_push_status
commit_row-update_push_status cl n stream other status s = rw write-conn (
    fetch_one-update_where same_key same_key_iff commit_key (n, other)
      (λ r. same_key (commit_key r) (cl, stream)) (λ r. record r { git_push_status = status })
      s.conn.cl_commit_map (λ r. refl))

-- A commit that is recorded moves no stream.
pub get_last_synced_cl-record_commit :
    (now cl : ℕ) (stream branch other : Str) (i : Bool) (sha : Str) (s : StateStore)
    → get_last_synced_cl other (record_commit now cl sha stream branch i p4_to_git s)
      ≡ get_last_synced_cl other s
unfolding get_last_synced_cl record_commit
get_last_synced_cl-record_commit now cl stream branch other i sha s = rw write-conn
