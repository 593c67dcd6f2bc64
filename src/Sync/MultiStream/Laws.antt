-- ===== src/Sync/MultiStream/Laws.antt =====
-- The positions of the streams, and what follows an empty changelist.
use p4sync_git.Prelude.{
  ℕ, ◌<◌, ◌≡◌, ◌≢◌, refl, ◌⊎◌, inl, inr, Bool, true, false, some, [], arith, ◌∙◌, if◌then◌else◌,
}
use p4sync_git.Text.{Str, str_eq}
use p4sync_git.Text.Laws.{str_eq_refl}
use p4sync_git.Exec.{Result, ok, err, continue, pure}
use p4sync_git.Perforce.Change.{P4ChangeInfo}
use p4sync_git.State.Schema.{p4_to_git}
use p4sync_git.State.SyncState.{get_last_synced_cl, sync_row}
use p4sync_git.State.SyncState.Laws.{get_last_synced_cl-set_last_synced_cl}
use p4sync_git.State.CommitMap.{record_commit}
use p4sync_git.State.CommitMap.Laws.{get_commit_sha-record_commit, get_last_synced_cl-record_commit}
use p4sync_git.Sync.World.{GitOperator, P4Client, SyncConfig, World}
use p4sync_git.Sync.Changelist.{Build, parent_sha, push_commit}
use p4sync_git.Sync.Changelist.Laws.{
  KeepsTables, get_last_synced_cl-push_commit, get_commit_sha-set_last_synced_cl,
}
use p4sync_git.Sync.MultiStream.{record_event, finish_event, handle_changelist_event}

get_last_synced_cl-record_event :
    {G : Type 0} (now cl : ℕ) (stream branch sha other : Str) (w : World G)
    → get_last_synced_cl other (record_event now cl stream branch sha w).store
      ≡ (if str_eq stream other then cl else get_last_synced_cl other w.store)
unfolding record_event
get_last_synced_cl-record_event now cl stream branch sha other w =
    let s = record_commit now cl sha stream branch w.last_has_integration p4_to_git w.store in
    ground (
      arith,
      get_last_synced_cl-set_last_synced_cl stream other cl sha s,
      get_last_synced_cl-record_commit now cl stream branch other w.last_has_integration sha
          w.store,
    )

-- An event of a numbered changelist records its commit whatever the builder returned: the next
-- changelist of the stream, which has a name, gets it as its parent, the empty sha of an empty
-- changelist included.
pub parent_sha-record_event :
    {G : Type 0} (now cl : ℕ) (stream branch sha : Str) (w : World G)
    → 0 < cl
    → stream ≢ []
    → parent_sha stream (record_event now cl stream branch sha w).store ≡ some sha
unfolding parent_sha record_event
parent_sha-record_event now cl stream branch sha w p n =
    let s = record_commit now cl sha stream branch w.last_has_integration p4_to_git w.store in
    ground (
      arith,
      get_commit_sha-set_last_synced_cl cl cl stream stream sha s,
      get_last_synced_cl-set_last_synced_cl stream stream cl sha s,
      get_commit_sha-record_commit now cl sha stream branch w.last_has_integration p4_to_git w.store
          cl stream n,
      str_eq_refl stream,
    )

module _ {G : Type 0} where
  abbrev pub Moved : Str → ℕ → World G → World G → Type 0
  Moved stream cl w w' =
      (other : Str)
      → get_last_synced_cl other w'.store
        ≡ (if str_eq stream other then cl else get_last_synced_cl other w.store)

  abbrev pub Stayed : World G → World G → Type 0
  Stayed w w' = (other : Str) → get_last_synced_cl other w'.store ≡ get_last_synced_cl other w.store

  -- the positions of all streams after an event of one
  abbrev pub Positions : Str → ℕ → World G → Result (Unit {0}) × World G → Type 0
  Positions stream cl w (ok u, w') = Moved stream cl w w'
  Positions stream cl w (err e, w') = Stayed w w' ⊎ Moved stream cl w w'

  module _ (git : GitOperator G) (p4 : P4Client) (build : Str → Build G) (cfg : SyncConfig) where
    returned :
        (stream : Str) (cl : ℕ) (w : World G) (p : Result (Unit {0}) × World G)
        → p.0 ≡ ok tt
        → Moved stream cl w p.1
        → Positions stream cl w p
    returned stream cl w (ok u, w') e m = m
    returned stream cl w (err x, w') e m = inr m

    after_gc :
        (cl : ℕ) (stream branch : Str) (r : Result (Unit {0})) (w w' : World G)
        → Moved stream cl w w'
        → Positions stream cl w (
            continue r
              (λ u.
                if cfg.push_after_every_commit
                then push_commit git p4 (build stream) cfg cl stream branch
                else pure tt)
              w')
    after_gc cl stream branch (ok u) w w' h = pushed_or_not cfg.push_after_every_commit
      where
        pushed_or_not :
            (b : Bool)
            → Positions stream cl w
                ((if b then push_commit git p4 (build stream) cfg cl stream branch else pure tt) w')
        pushed_or_not true =
            returned stream cl w (push_commit git p4 (build stream) cfg cl stream branch w')
              (get_last_synced_cl-push_commit git p4 (build stream) cfg cl stream branch stream
                w').0
              (λ other.
                (get_last_synced_cl-push_commit git p4 (build stream) cfg cl stream branch other
                  w').1
                ∙ h other)
        pushed_or_not false = h
    after_gc cl stream branch (err e) w w' h = inr h

    finish_event-Positions :
        (now cl : ℕ) (stream branch sha : Str) (w w' : World G)
        → Stayed w w'
        → Positions stream cl w (finish_event git p4 build cfg now cl stream branch sha w')
    unfolding finish_event
    finish_event-Positions now cl stream branch sha w w' h =
        let v = record_event now cl stream branch sha w' in
        let (r, g) = git.maybe_run_gc cfg.git_gc_interval v.git in
        after_gc cl stream branch r w (record v { git = g })
          (λ other.
            ground
              (arith, h other, get_last_synced_cl-record_event now cl stream branch sha other w'))

    after_build :
        (now cl : ℕ) (stream branch : Str) (r : Result Str) (w w' : World G)
        → w'.store.conn ≡ w.store.conn
        → Positions stream cl w (continue r (finish_event git p4 build cfg now cl stream branch) w')
    unfolding get_last_synced_cl sync_row
    after_build now cl stream branch (ok sha) w w' h =
        finish_event-Positions now cl stream branch sha w w' (λ other. rw h)
    after_build now cl stream branch (err e) w w' h = inl (λ other. rw h)

    after_describe :
        ((other : Str) → KeepsTables (build other))
        → (now cl : ℕ) (stream branch : Str) (r : Result P4ChangeInfo) (w : World G)
        → Positions stream cl w (
            continue r
              (λ info v.
                let (q, v') = build stream info branch (parent_sha stream v.store) v in
                continue q (finish_event git p4 build cfg now cl stream branch) v')
              w)
    after_describe k now cl stream branch (err e) w = inl (λ other. refl)
    after_describe k now cl stream branch (ok info) w =
        let (q, w') = build stream info branch (parent_sha stream w.store) w in
        after_build now cl stream branch q w w' (k stream info branch (parent_sha stream w.store) w)

    -- With builders that change no table, an event of one stream never moves the last changelist
    -- of another; it sets that of its own stream to its changelist if it is processed, and a
    -- failure leaves it or sets it so.
    pub handle_changelist_event-Positions :
        ((other : Str) → KeepsTables (build other))
        → (now cl : ℕ) (stream branch : Str) (w : World G)
        → Positions stream cl w (handle_changelist_event git p4 build cfg now cl stream branch w)
    unfolding handle_changelist_event
    handle_changelist_event-Positions k now cl stream branch w =
        after_describe k now cl stream branch (p4.describe cl) w
