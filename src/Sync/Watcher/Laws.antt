-- ===== src/Sync/Watcher/Laws.antt =====
-- What a round of the watcher registers, and what the next one finds.
use p4sync_git.Prelude.{
  ℕ, ◌≡◌, refl, ap, Bool, Bool-cases, inl, inr, true, false, not, ◌&&◌, Option, none, some, List,
  [], ◌∷◌, map, if◌then◌else◌, arith,
}
use p4sync_git.Text.{Str, str_eq, contains}
use p4sync_git.Text.Laws.{str_eq→eq, str_eq_refl}
use p4sync_git.Sql.{upsert}
use p4sync_git.Exec.{ok, Exec}
use p4sync_git.State.Schema.{StreamMapping}
use p4sync_git.State.Connection.{StateStore}
use p4sync_git.State.Connection.Laws.{write-conn}
use p4sync_git.State.Streams.{register_stream, get_all_registered_streams}
use p4sync_git.State.CommitMap.{get_last_commit_before}
use p4sync_git.Paths.{stream_to_branch}
use p4sync_git.Sync.World.{GitOperator, World}
use p4sync_git.Sync.Watcher.{
  P4StreamInfo, StreamChanges, StreamPolicy, StreamServer, should_include, fetch_p4_streams,
  created_of, deleted_of, registered_names, names_of, detect_changes, get_parent_branch, branch_at,
  start_from, mapping_of, is_root, handle_created_stream, handle_created, handle_deleted,
  check_stream_changes,
}

abbrev names : List StreamMapping → List Str
names = map (λ (m : StreamMapping). m.stream)

contains-upsert :
    (change : StreamMapping → StreamMapping) (m : StreamMapping) (x : Str) (rs : List StreamMapping)
    → ((r : StreamMapping) → (change r).stream ≡ r.stream)
    → contains (names (upsert (λ r. str_eq r.stream m.stream) change m rs)) x
      ≡ (if str_eq m.stream x then true else contains (names rs) x)
unfolding contains upsert
contains-upsert change m x [] k = refl
contains-upsert change m x (r ∷ rs) k =
    ground (arith, k r, contains-upsert change m x rs k, str_eq→eq r.stream m.stream)

contains-register_stream :
    (m : StreamMapping) (x : Str) (s : StateStore)
    → contains (registered_names (register_stream m s)) x
      ≡ (if str_eq m.stream x then true else contains (registered_names s) x)
unfolding register_stream get_all_registered_streams
contains-register_stream m x s = rw write-conn (
    contains-upsert
      (λ r. record r {
        branch = m.branch;
        parent_stream = m.parent_stream;
        branch_point_cl = m.branch_point_cl;
      })
      m x s.conn.stream_registry (λ r. refl))

contains-deleted_of :
    (ps reg : List Str) (x : Str)
    → contains (names_of (deleted_of ps reg)) x ≡ (contains reg x && not (contains ps x))
unfolding deleted_of contains
contains-deleted_of ps [] x = refl
contains-deleted_of ps (s ∷ ss) x = ground (arith, contains-deleted_of ps ss x, str_eq→eq s x)

module _ (fnmatch : Str → Str → Bool) (policy : StreamPolicy) where
  -- What is new is on the list of P4.
  contains-created_of :
      (reg : List Str) (is : List P4StreamInfo) (x : Str)
      → contains (names_of (created_of fnmatch policy reg is)) x ≡ true
      → contains (names_of is) x ≡ true
  unfolding created_of contains
  contains-created_of reg [] x h = h
  contains-created_of reg (i ∷ is) x h = ground (arith, contains-created_of reg is x)

  created_of-more :
      (reg : List Str) (i : P4StreamInfo) (is : List P4StreamInfo) (x : Str)
      → contains (names_of (created_of fnmatch policy reg is)) x ≡ true
      → contains (names_of (created_of fnmatch policy reg (i ∷ is))) x ≡ true
  unfolding created_of contains
  created_of-more reg i is x h = ground (arith, h)

  not-included :
      (reg : List Str) (i : P4StreamInfo) (is : List P4StreamInfo)
      → contains reg i.stream ≡ false
      → contains (names_of (created_of fnmatch policy reg (i ∷ is))) i.stream ≡ false
      → should_include fnmatch policy i.stream i.kind ≡ false
  unfolding created_of contains
  not-included reg i is h k = ground (arith, str_eq_refl i.stream)

  created_of-nil :
      (reg reg' : List Str) (is : List P4StreamInfo)
      → ((x : Str) → contains reg x ≡ true → contains reg' x ≡ true)
      → ((x : Str)
          → contains (names_of (created_of fnmatch policy reg is)) x ≡ true
          → contains reg' x ≡ true)
      → created_of fnmatch policy reg' is ≡ []
  unfolding created_of contains
  created_of-nil reg reg' [] k c = refl
  created_of-nil reg reg' (i ∷ is) k c =
      let rest = created_of-nil reg reg' is k (λ x h. c x (created_of-more reg i is x h)) in
      elim (Bool-cases (contains reg' i.stream)) [
        | inl e ↦ rw e rest
        | inr e ↦
            let old : contains reg i.stream ≡ false = ground (arith, k i.stream) in
            let new : contains (names_of (created_of fnmatch policy reg (i ∷ is))) i.stream
                ≡ false =
              ground (arith, c i.stream) in
            rw (e, not-included reg i is old new) rest
      ]

module _ {G : Type 0} (git : GitOperator G) (create_orphan_branch : Str → Exec G (Unit {0}))
    (branches : (branch sha : Str) (g : G) → (git.create_branch branch sha g).0 ≡ ok tt)
    (orphans : (branch : Str) (g : G) → (create_orphan_branch branch g).0 ≡ ok tt) where
  branch_at-ok :
      (branch : Str) (sha : Option Str) (m : Exec (World G) (Unit {0})) (w : World G)
      → ((m w).0 ≡ ok tt) × ((m w).1.store ≡ w.store)
      → ((branch_at git create_orphan_branch branch sha m w).0 ≡ ok tt)
        × ((branch_at git create_orphan_branch branch sha m w).1.store ≡ w.store)
  branch_at-ok branch none m w h = h
  branch_at-ok branch (some []) m w h = h
  branch_at-ok branch (some (c ∷ sha)) m w h = (branches branch (c ∷ sha) w.git, refl)

  start_from-ok :
      (branch : Str) (parent : Option Str) (cl : ℕ) (w : World G)
      → ((start_from git create_orphan_branch branch parent cl w).0 ≡ ok tt)
        × ((start_from git create_orphan_branch branch parent cl w).1.store ≡ w.store)
  start_from-ok branch none cl w = (orphans branch w.git, refl)
  start_from-ok branch (some parent) cl w =
      branch_at-ok branch (get_last_commit_before parent cl w.store) _ w (
        branch_at-ok branch (git.get_head_sha (get_parent_branch parent w.store) w.git) _ w
          (orphans branch w.git, refl))

  handle_created_stream-ok :
      (i : P4StreamInfo) (w : World G)
      → (handle_created_stream git create_orphan_branch i w).1.store
        ≡ register_stream (mapping_of i (is_root i)) w.store
  unfolding handle_created_stream
  handle_created_stream-ok i w =
      let root = is_root i in
      let (a, b) =
        start_from-ok (stream_to_branch i.stream) (if root then none else i.parent)
          i.first_changelist w in
      rw a (ap (register_stream (mapping_of i root)) b)

  mapping_of-stream : (i : P4StreamInfo) (root : Bool) → (mapping_of i root).stream ≡ i.stream
  mapping_of-stream i true = refl
  mapping_of-stream i false = refl

  contains-handle_created :
      (is : List P4StreamInfo) (w : World G) (x : Str)
      → contains (registered_names (handle_created git create_orphan_branch is w).store) x
        ≡ (if contains (names_of is) x then true else contains (registered_names w.store) x)
  unfolding handle_created handle_created_stream contains
  contains-handle_created [] w x = refl
  contains-handle_created (i ∷ is) w x =
      let root = is_root i in
      ground (
        arith,
        contains-handle_created is (handle_created_stream git create_orphan_branch i w).1 x,
        handle_created_stream-ok i w,
        contains-register_stream (mapping_of i root) x w.store,
        mapping_of-stream i root,
      )

  handle_deleted-same :
      (is : List P4StreamInfo) (w : World G) → handle_deleted git create_orphan_branch is w ≡ w
  unfolding handle_deleted
  handle_deleted-same [] w = refl
  handle_deleted-same (i ∷ is) w = handle_deleted-same is w

  -- When P4 lists its streams and every branch that is wanted can be made, the comparison after a round
  -- finds no new stream, and as deleted just the streams that were registered before the round and are
  -- not on the list of P4: they stay registered.
  pub check_stream_changes_settles :
      (fnmatch : Str → Str → Bool) (policy : StreamPolicy) (p4 : StreamServer) (depot : Str)
      (infos : List P4StreamInfo) (w : World G)
      → fetch_p4_streams p4 depot ≡ ok infos
      → let u = check_stream_changes git create_orphan_branch fnmatch policy p4 depot w in
        (c : StreamChanges) × (detect_changes fnmatch policy p4 depot u.store ≡ ok c)
        × (c.created ≡ [])
        × ((x : Str)
            → contains (names_of c.deleted) x
              ≡ (contains (registered_names w.store) x && not (contains (names_of infos) x)))
  unfolding check_stream_changes detect_changes
  check_stream_changes_settles fnmatch policy p4 depot infos w h =
      let reg = registered_names w.store in
      let new = created_of fnmatch policy reg infos in
      let old = deleted_of (names_of infos) reg in
      let v = handle_created git create_orphan_branch new w in
      let reg' = registered_names v.store in
      let more : (x : Str)
          → contains reg' x ≡ (if contains (names_of new) x then true else contains reg x) =
        λ x. contains-handle_created new w x in
      rw (h, handle_deleted-same old v)
        (
          record {
            created = created_of fnmatch policy reg' infos;
            deleted = deleted_of (names_of infos) reg';
          },
          refl,
          created_of-nil fnmatch policy reg reg' infos (λ x k. ground (arith, more x))
              (λ x k. ground (arith, more x)),
          λ x. ground (
            arith,
            more x,
            contains-deleted_of (names_of infos) reg' x,
            contains-created_of fnmatch policy reg infos x,
          ),
        )
