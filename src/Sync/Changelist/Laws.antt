-- ===== src/Sync/Changelist/Laws.antt =====
-- What one changelist leaves in the store.
use p4sync_git.Prelude.{
  ℕ, ◌<◌, ◌≡◌, ◌≢◌, refl, ◌⊎◌, inl, inr, Bool, Bool-cases, Option, some, [], ◌∷◌, arith, is_some,
  if◌then◌else◌,
}
use p4sync_git.Text.{Str, str_eq}
use p4sync_git.Text.Laws.{str_eq_refl}
use p4sync_git.Exec.{Result, ok, err, continue, pure, modify}
use p4sync_git.Git.Trailers.{parse_git_commit_from_description}
use p4sync_git.Perforce.Change.{P4ChangeInfo}
use p4sync_git.State.Schema.{p4_to_git, PushStatus, pushed, failed}
use p4sync_git.State.Connection.{StateStore}
use p4sync_git.State.Connection.Laws.{write-conn}
use p4sync_git.State.SyncState.{get_last_synced_cl, set_last_synced_cl}
use p4sync_git.State.SyncState.Laws.{get_last_synced_cl-set_last_synced_cl}
use p4sync_git.State.CommitMap.{
  get_commit_sha, record_commit, update_push_status, commit_row, get_any_commit_sha,
}
use p4sync_git.State.CommitMap.Laws.{get_commit_sha-record_commit}
use p4sync_git.Sync.World.{GitOperator, P4Client, SyncConfig, World, on_store}
use p4sync_git.Sync.Changelist.{
  parent_sha, Build, recorded, record_built, push_commit, finish_changelist, build_changelist,
  process_changelist,
}

get_last_synced_cl-recorded :
    (now cl : ℕ) (stream branch other : Str) (i : Bool) (sha : Str) (s : StateStore)
    → get_last_synced_cl other (recorded now cl stream branch i sha s) ≡ get_last_synced_cl other s
unfolding get_last_synced_cl record_commit
get_last_synced_cl-recorded now cl stream branch other i [] s = refl
get_last_synced_cl-recorded now cl stream branch other i (c ∷ sha) s = rw write-conn

pub get_last_synced_cl-update_push_status :
    (cl : ℕ) (stream other : Str) (status : PushStatus) (s : StateStore)
    → get_last_synced_cl other (update_push_status cl stream status s) ≡ get_last_synced_cl other s
unfolding get_last_synced_cl update_push_status
get_last_synced_cl-update_push_status cl stream other status s = rw write-conn

module _ {G : Type 0} where
  -- A commit builder leaves the tables as they are: it may fill the cache of authors, and write to Git.
  abbrev pub KeepsTables : Build G → Type 0
  KeepsTables build =
      (info : P4ChangeInfo) (branch : Str) (parent : Option Str) (w : World G)
      → (build info branch parent w).1.store.conn ≡ w.store.conn

  -- what a finished and a failed changelist may leave as the last one of its stream
  abbrev pub Advances : Str → ℕ → World G → Result (Unit {0}) × World G → Type 0
  Advances stream cl w (ok u, w') = get_last_synced_cl stream w'.store ≡ cl
  Advances stream cl w (err e, w') =
      (get_last_synced_cl stream w'.store ≡ get_last_synced_cl stream w.store)
      ⊎ (get_last_synced_cl stream w'.store ≡ cl)

  get_last_synced_cl-record_built :
      (now cl : ℕ) (stream branch other sha : Str) (w : World G)
      → get_last_synced_cl other (record_built now cl stream branch sha w).store
        ≡ (if str_eq stream other then cl else get_last_synced_cl other w.store)
  unfolding record_built
  get_last_synced_cl-record_built now cl stream branch other sha w =
      let s = recorded now cl stream branch w.last_has_integration sha w.store in
      ground (
        arith,
        get_last_synced_cl-set_last_synced_cl stream other cl sha s,
        get_last_synced_cl-recorded now cl stream branch other w.last_has_integration sha w.store,
      )

  module _ (git : GitOperator G) (p4 : P4Client) (build : Build G) (cfg : SyncConfig) where
    pub get_last_synced_cl-push_commit :
        (cl : ℕ) (stream branch other : Str) (w : World G)
        → let (r, w') = push_commit git p4 build cfg cl stream branch w in
          (r ≡ ok tt) × (get_last_synced_cl other w'.store ≡ get_last_synced_cl other w.store)
    unfolding push_commit
    get_last_synced_cl-push_commit cl stream branch other w = ground (
      arith,
      get_last_synced_cl-update_push_status cl stream other pushed w.store,
      get_last_synced_cl-update_push_status cl stream other failed w.store,
    )

    after_gc :
        (cl : ℕ) (stream branch : Str) (r : Result (Unit {0})) (w w' : World G)
        → get_last_synced_cl stream w'.store ≡ cl
        → Advances stream cl w (
            continue r
              (λ u.
                if cfg.push_after_every_commit
                then push_commit git p4 build cfg cl stream branch
                else pure tt)
              w')
    after_gc cl stream branch (ok u) w w' h =
        ground (arith, get_last_synced_cl-push_commit cl stream branch stream w')
    after_gc cl stream branch (err e) w w' h = inr h

    finish_changelist-Advances :
        (now cl : ℕ) (stream branch sha : Str) (w w' : World G)
        → Advances stream cl w (finish_changelist git p4 build cfg now cl stream branch sha w')
    unfolding finish_changelist
    finish_changelist-Advances now cl stream branch sha w w' =
        let v = record_built now cl stream branch sha w' in
        let (r, g) = git.maybe_run_gc cfg.git_gc_interval v.git in
        after_gc cl stream branch r w (record v { git = g })
          (ground (
            arith,
            get_last_synced_cl-record_built now cl stream branch stream sha w',
            str_eq_refl stream,
          ))

    after_build :
        (now cl : ℕ) (stream branch : Str) (r : Result Str) (w w' : World G)
        → w'.store.conn ≡ w.store.conn
        → Advances stream cl w
            (continue r (finish_changelist git p4 build cfg now cl stream branch) w')
    unfolding get_last_synced_cl
    after_build now cl stream branch (ok sha) w w' h =
        finish_changelist-Advances now cl stream branch sha w w'
    after_build now cl stream branch (err e) w w' h = inl (rw h)

    build_changelist-Advances :
        KeepsTables build
        → (now cl : ℕ) (stream branch : Str) (info : P4ChangeInfo) (w : World G)
        → Advances stream cl w (build_changelist git p4 build cfg now cl stream branch info w)
    unfolding build_changelist
    build_changelist-Advances k now cl stream branch info w =
        let (r, w') = build info branch (parent_sha stream w.store) w in
        after_build now cl stream branch r w w' (k info branch (parent_sha stream w.store) w)

    after_describe :
        KeepsTables build
        → (now cl : ℕ) (stream branch : Str) (r : Result P4ChangeInfo) (w : World G)
        → Advances stream cl w (
            continue r
              (λ info.
                if is_some (parse_git_commit_from_description info.description)
                then modify (on_store (set_last_synced_cl stream cl []))
                else build_changelist git p4 build cfg now cl stream branch info)
              w)
    after_describe k now cl stream branch (err e) w = inl refl
    after_describe k now cl stream branch (ok info) w =
        elim (Bool-cases (is_some (parse_git_commit_from_description info.description))) [
          | inl e ↦ rw e (
              ground (
                arith,
                get_last_synced_cl-set_last_synced_cl stream stream cl [] w.store,
                str_eq_refl stream,
              ))
          | inr e ↦ rw e (build_changelist-Advances k now cl stream branch info w)
        ]

    -- With a builder that changes no table, a changelist that is processed is the last one of its
    -- stream then, whether it made a commit, was empty or came from Git; if processing fails, the
    -- last one is what it was, or this changelist.
    pub process_changelist-Advances :
        KeepsTables build
        → (now cl : ℕ) (stream branch : Str) (w : World G)
        → Advances stream cl w (process_changelist git p4 build cfg now cl stream branch w)
    unfolding process_changelist
    process_changelist-Advances k now cl stream branch w =
        after_describe k now cl stream branch (p4.describe cl) w

abbrev pub new_parent : ℕ → Str → Str → StateStore → Option Str
new_parent cl stream [] s = get_commit_sha cl stream s
new_parent cl stream (c ∷ sha) s = some (c ∷ sha)

pub get_commit_sha-set_last_synced_cl :
    (n cl : ℕ) (stream other sha : Str) (s : StateStore)
    → get_commit_sha n other (set_last_synced_cl stream cl sha s) ≡ get_commit_sha n other s
unfolding set_last_synced_cl get_commit_sha commit_row get_any_commit_sha
get_commit_sha-set_last_synced_cl n cl stream [] sha s = rw write-conn
get_commit_sha-set_last_synced_cl n cl stream (c ∷ other) sha s = rw write-conn

-- Commits are chained: once a commit is recorded, the next changelist of the stream, which has
-- a name, gets it as its parent. An empty changelist, which is not recorded, breaks the chain
-- unless it has a row of its own already: the next commit gets no parent.
pub parent_sha-record_built :
    {G : Type 0} (now cl : ℕ) (stream branch sha : Str) (w : World G)
    → 0 < cl
    → stream ≢ []
    → parent_sha stream (record_built now cl stream branch sha w).store
      ≡ new_parent cl stream sha w.store
unfolding parent_sha record_built
parent_sha-record_built now cl stream branch [] w p n = ground (
  arith,
  get_commit_sha-set_last_synced_cl cl cl stream stream [] w.store,
  get_last_synced_cl-set_last_synced_cl stream stream cl [] w.store,
  str_eq_refl stream,
)
parent_sha-record_built now cl stream branch (c ∷ sha) w p n =
    let s = record_commit now cl (c ∷ sha) stream branch w.last_has_integration p4_to_git w.store in
    ground (
      arith,
      get_commit_sha-set_last_synced_cl cl cl stream stream (c ∷ sha) s,
      get_last_synced_cl-set_last_synced_cl stream stream cl (c ∷ sha) s,
      get_commit_sha-record_commit now cl (c ∷ sha) stream branch w.last_has_integration p4_to_git
          w.store cl stream n,
      str_eq_refl stream,
    )
