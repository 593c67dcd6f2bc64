-- ===== src/Sync/Poll/Laws.antt =====
-- What one round of polling leaves.
use p4sync_git.Prelude.{
  ℕ, ◌+◌, ◌≤◌, ◌<◌, ◌≡◌, refl, ◌⊎◌, inl, inr, Bool, true, false, Option-cases, List, [], ◌∷◌, arith,
  ◌∙◌, subst, length, take, drop, is_some, if◌then◌else◌,
}
use p4sync_git.Text.{Str}
use p4sync_git.Exec.{Result, ok, err, continue}
use p4sync_git.State.Connection.{StateStore}
use p4sync_git.State.Schema.{pushed}
use p4sync_git.State.SyncState.{get_last_synced_cl, sync_row}
use p4sync_git.State.Errors.{open_error, record_sync_error}
use p4sync_git.State.Errors.Laws.{is_some-open_error}
use p4sync_git.State.CommitMap.{update_push_status}
use p4sync_git.State.Connection.Laws.{write-conn}
use p4sync_git.Monitor.Breaker.{allow_sync}
use p4sync_git.Sync.World.{GitOperator, P4Client, SyncConfig, World, on_failure}
use p4sync_git.Sync.Changelist.{Build, process_changelist}
use p4sync_git.Sync.Changelist.Laws.{
  get_last_synced_cl-update_push_status, KeepsTables, Advances, process_changelist-Advances,
}
use p4sync_git.Sync.Poll.{
  poll, process_batch, after_process, sync_changes, poll_and_sync, push_if_due, mark_batch_pushed,
  should_batch_push, batch_push,
}

-- the last of some changelists, or what it was if there are none
abbrev pub last_or : ℕ → List ℕ → ℕ
last_or n [] = n
last_or n (cl ∷ cls) = last_or cl cls

pub get_last_synced_cl-record_sync_error :
    (now cl : ℕ) (stream msg other : Str) (s : StateStore)
    → get_last_synced_cl other (record_sync_error now cl stream msg s).1
      ≡ get_last_synced_cl other s
unfolding get_last_synced_cl record_sync_error sync_row
get_last_synced_cl-record_sync_error now cl stream msg other s =
    elim (Option-cases (open_error cl stream s)) [
      | inl e ↦ rw (e, write-conn)
      | inr (r, e) ↦ rw (e, write-conn)
    ]

open_error-mark_batch_pushed :
    (cls : List ℕ) (cl : ℕ) (stream other : Str) (s : StateStore)
    → open_error cl other (mark_batch_pushed cls stream s) ≡ open_error cl other s
unfolding mark_batch_pushed open_error update_push_status
open_error-mark_batch_pushed [] cl stream other s = refl
open_error-mark_batch_pushed (n ∷ cls) cl stream other s =
    open_error-mark_batch_pushed cls cl stream other (update_push_status n stream pushed s)
    ∙ rw write-conn

pub get_last_synced_cl-mark_batch_pushed :
    (cls : List ℕ) (stream other : Str) (s : StateStore)
    → get_last_synced_cl other (mark_batch_pushed cls stream s) ≡ get_last_synced_cl other s
unfolding mark_batch_pushed
get_last_synced_cl-mark_batch_pushed [] stream other s = refl
get_last_synced_cl-mark_batch_pushed (cl ∷ cls) stream other s = ground (
  arith,
  get_last_synced_cl-update_push_status cl stream other pushed s,
  get_last_synced_cl-mark_batch_pushed cls stream other (update_push_status cl stream pushed s),
)

module _ {G : Type 0} (git : GitOperator G) (p4 : P4Client) (build : Build G)
    (cfg : SyncConfig) where
  -- the first of the changelists that are left, if there is one, has a failure on record
  abbrev pub HasFailed : List ℕ → StateStore → Type 0
  HasFailed [] s = Unit
  HasFailed (cl ∷ cls) s = is_some (open_error cl cfg.stream s) ≡ true

  -- what is left of a batch of which `n` were processed, and where the last changelist stands
  abbrev pub StopsAt : List ℕ → ℕ → ℕ × World G → Type 0
  StopsAt changes before (n, w) =
      (n ≤ length changes)
      × HasFailed (drop n changes) w.store
      × ((get_last_synced_cl cfg.stream w.store ≡ last_or before (take n changes))
          ⊎ ((n < length changes)
              × (get_last_synced_cl cfg.stream w.store ≡ last_or before (take (n + 1) changes))))

  step-StopsAt :
      (now cl : ℕ) (cls : List ℕ) (r : Result (Unit {0})) (w w' : World G)
      → Advances cfg.stream cl w (r, w')
      → StopsAt cls
          (get_last_synced_cl cfg.stream w'.store)
          (process_batch git p4 build cfg now cls w')
      → StopsAt
          (cl ∷ cls)
          (get_last_synced_cl cfg.stream w.store)
          (after_process cfg now cl r (process_batch git p4 build cfg now cls) w')
  unfolding on_failure
  step-StopsAt now cl cls (ok u) w w' a ih =
      let (n, v) = process_batch git p4 build cfg now cls w' in
      let rest : drop n cls ≡ drop (n + 1) (cl ∷ cls) = ground arith in
      (ground (arith, ih.0), subst (λ l. HasFailed l v.store) rest ih.1, ground (arith, a, ih.2))
  step-StopsAt now cl cls (err e) w w' a ih = (
    omega arith,
    is_some-open_error now cl cfg.stream e w'.store,
    ground (arith, a, get_last_synced_cl-record_sync_error now cl cfg.stream e cfg.stream w'.store),
  )

  -- The loop over the changelists stops at the first that fails: the last changelist is then the last
  -- processed one, or, if the batch stopped early, at most the one at which it stopped.
  pub process_batch-StopsAt :
      KeepsTables build
      → (now : ℕ) (changes : List ℕ) (w : World G)
      → StopsAt changes
          (get_last_synced_cl cfg.stream w.store)
          (process_batch git p4 build cfg now changes w)
  unfolding process_batch
  process_batch-StopsAt k now [] w = ground arith
  process_batch-StopsAt k now (cl ∷ cls) w =
      let (r, w') = process_changelist git p4 build cfg now cl cfg.stream cfg.default_branch w in
      step-StopsAt now cl cls r w w'
        (process_changelist-Advances git p4 build cfg k now cl cfg.stream cfg.default_branch w)
        (process_batch-StopsAt k now cls w')

  get_last_synced_cl-push_if_due :
      (now : ℕ) (changes : List ℕ) (w : World G)
      → let (r, w') = push_if_due git p4 build cfg now changes w in
        (r ≡ ok tt)
        × (get_last_synced_cl cfg.stream w'.store ≡ get_last_synced_cl cfg.stream w.store)
  unfolding push_if_due should_batch_push batch_push
  get_last_synced_cl-push_if_due now changes w =
      ground (arith, get_last_synced_cl-mark_batch_pushed changes cfg.stream cfg.stream w.store)

  open_error-push_if_due :
      (now cl : ℕ) (changes : List ℕ) (w : World G)
      → open_error cl cfg.stream (push_if_due git p4 build cfg now changes w).1.store
        ≡ open_error cl cfg.stream w.store
  unfolding push_if_due should_batch_push batch_push
  open_error-push_if_due now cl changes w =
      ground (arith, open_error-mark_batch_pushed changes cl cfg.stream cfg.stream w.store)

  HasFailed-keeps :
      (cls : List ℕ) (s t : StateStore)
      → ((cl : ℕ) → open_error cl cfg.stream t ≡ open_error cl cfg.stream s)
      → HasFailed cls s
      → HasFailed cls t
  HasFailed-keeps [] s t k h = tt
  HasFailed-keeps (cl ∷ cls) s t k h = rw (k cl) h

  -- How a batch runs: each changelist is processed in the world that the one before it left; the first
  -- that fails is put on record, and ends it.
  abbrev pub Ended : ℕ → List ℕ → World G → ℕ × World G → Type 0
  Ended now [] w (n, v) = (n ≡ 0) × (v ≡ w)
  Ended now (cl ∷ cls) w (n, v) =
      let step = process_changelist git p4 build cfg now cl cfg.stream cfg.default_branch w in
      ((w' : World G) × (m : ℕ) × (step ≡ (ok tt, w')) × (n ≡ m + 1) × Ended now cls w' (m, v))
      ⊎ ((e : Str) × (w' : World G) × (step ≡ (err e, w'))
          × (n ≡ 0)
          × (v ≡ on_failure cfg now cl cfg.stream e w'))

  step-Ended :
      (now cl : ℕ) (cls : List ℕ) (w : World G) (p : Result (Unit {0}) × World G)
      → process_changelist git p4 build cfg now cl cfg.stream cfg.default_branch w ≡ p
      → Ended now cls p.1 (process_batch git p4 build cfg now cls p.1)
      → Ended now
          (cl ∷ cls)
          w
          (after_process cfg now cl p.0 (process_batch git p4 build cfg now cls) p.1)
  step-Ended now cl cls w (ok u, w') e ih =
      inl (w', (process_batch git p4 build cfg now cls w').0, e, refl, ih)
  step-Ended now cl cls w (err x, w') e ih = inr (x, w', e, refl, refl)

  process_batch-Ended :
      (now : ℕ) (changes : List ℕ) (w : World G)
      → Ended now changes w (process_batch git p4 build cfg now changes w)
  unfolding process_batch
  process_batch-Ended now [] w = (refl, refl)
  process_batch-Ended now (cl ∷ cls) w =
      let p = process_changelist git p4 build cfg now cl cfg.stream cfg.default_branch w in
      step-Ended now cl cls w p refl (process_batch-Ended now cls p.1)

  -- a round that raises nothing, of whose changes a batch processed `n` and left the world `v`
  abbrev pub WithoutSkip : ℕ → List ℕ → World G → Result (Unit {0}) × World G → Type 0
  WithoutSkip now changes w (r, w') =
      (r ≡ ok tt)
      × ((n : ℕ) × (v : World G) × Ended now changes w (n, v)
          × (get_last_synced_cl cfg.stream w'.store ≡ get_last_synced_cl cfg.stream v.store)
          × StopsAt changes (get_last_synced_cl cfg.stream w.store) (n, w'))

  after_batch :
      (at_once : Bool) (now : ℕ) (changes : List ℕ) (w : World G) (p : ℕ × World G)
      → Ended now changes w p
      → StopsAt changes (get_last_synced_cl cfg.stream w.store) p
      → WithoutSkip now changes w
          (if at_once then (ok tt, p.1) else push_if_due git p4 build cfg now changes p.1)
  after_batch true now changes w (n, v) d s = (refl, (n, v, d, refl, s))
  after_batch false now changes w (n, v) d (b, f, e) =
      let (same, pushes) = get_last_synced_cl-push_if_due now changes v in
      (
        same,
        (
          n,
          v,
          d,
          pushes,
          (
            b,
            HasFailed-keeps (drop n changes) v.store _
                (λ cl. open_error-push_if_due now cl changes v) f,
            ground (arith, pushes, e),
          ),
        ),
      )

  sync_changes-WithoutSkip :
      KeepsTables build
      → (now : ℕ) (changes : List ℕ) (w : World G)
      → WithoutSkip now changes w (sync_changes git p4 build cfg now changes w)
  unfolding sync_changes
  sync_changes-WithoutSkip k now [] w = (refl, (0, w, (refl, refl), refl, ground arith))
  sync_changes-WithoutSkip k now (cl ∷ cls) w =
      after_batch cfg.push_after_every_commit now (cl ∷ cls) w
        (process_batch git p4 build cfg now (cl ∷ cls) w) (process_batch-Ended now (cl ∷ cls) w)
        (process_batch-StopsAt k now (cl ∷ cls) w)

  abbrev pub Round : ℕ → World G → Result (List ℕ) → Result (Unit {0}) × World G → Type 0
  Round now w (err e) (r, w') = (r ≡ err e) × (w' ≡ w)
  Round now w (ok changes) (r, w') = WithoutSkip now changes w (r, w')

  after_poll :
      KeepsTables build
      → (now : ℕ) (r : Result (List ℕ)) (w : World G)
      → Round now w r (continue r (sync_changes git p4 build cfg now) w)
  after_poll k now (ok changes) w = sync_changes-WithoutSkip k now changes w
  after_poll k now (err e) w = (refl, refl)

  -- One round does nothing while the circuit is open, and an error of the query ends it with nothing
  -- changed. Else no failure escapes it: the changes reported are processed in order, each in the world
  -- that the one before it left, all of them or up to the first that fails, whose failure is then on
  -- record; the last changelist is the last one processed or, if it stopped early, at most the one
  -- that failed. This is with a builder that changes no table.
  pub poll_and_sync-Round :
      KeepsTables build
      → (now : ℕ) (w : World G)
      → (allow_sync w.breaker ≡ false → poll_and_sync git p4 build cfg now w ≡ (ok tt, w))
        × (allow_sync w.breaker ≡ true
            → Round now w
                (poll p4 cfg.stream cfg.batch_size w.poll_stream w.store)
                (poll_and_sync git p4 build cfg now w))
  unfolding poll_and_sync
  poll_and_sync-Round k now w = (
    λ h. ground arith,
    λ h. rw h (after_poll k now (poll p4 cfg.stream cfg.batch_size w.poll_stream w.store) w),
  )
