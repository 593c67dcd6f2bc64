-- ===== src/Cutover/Positions.antt =====
-- Where the last synchronisation of a cutover leaves the stream, and what a dry run finds.
use p4sync_git.Prelude.{
  ℕ, ◌≡◌, refl, ap, ◌∙◌, subst, true, false, is_empty, is_empty→eq, both_true, ◌&&◌, List, [], ◌∷◌,
  length,
}
use p4sync_git.Exec.{Exec, Result, ok, err, continue, pure, modify, ◌>>=◌, ◌>>◌}
use p4sync_git.State.SyncState.{get_last_synced_cl}
use p4sync_git.State.CommitMap.{get_pending_pushes}
use p4sync_git.State.Errors.{get_unresolved_errors}
use p4sync_git.Monitor.Breaker.{IntegrityResult}
use p4sync_git.Sync.World.{GitOperator, P4Client, SyncConfig, World, on_git, on_store}
use p4sync_git.Sync.Changelist.{Build}
use p4sync_git.Sync.Poll.{mark_batch_pushed}
use p4sync_git.Sync.Poll.Laws.{last_or, get_last_synced_cl-mark_batch_pushed}
use p4sync_git.Sync.Replay.Laws.{StandsAt, sync_each-StandsAt}
use p4sync_git.Cutover.{
  get_pending_changelists, replay, sync_remaining, CutoverResult, is_ready, failed_result,
  dry_result, dry_run_checks, dry_run,
}

module _ {G : Type 0} (git : GitOperator G) (p4 : P4Client) (build : Build G)
    (verify : World G → Result IntegrityResult) (now : ℕ) (cfg : SyncConfig) where
  after_push :
      (n : ℕ) (cls : List ℕ) (r : Result (Unit {0})) (w : World G)
      → get_last_synced_cl cfg.stream w.store ≡ n
      → StandsAt cfg.stream n (
          continue r
            (λ u. modify (on_store (mark_batch_pushed cls cfg.stream)) >> pure (length cls))
            w)
  after_push n cls (ok u) w h =
      get_last_synced_cl-mark_batch_pushed cls cfg.stream cfg.stream w.store ∙ h
  after_push n cls (err e) w h = tt

  after_each :
      (n : ℕ) (cls : List ℕ) (p : Result (Unit {0}) × World G)
      → StandsAt cfg.stream n p
      → let (r, w) = p in
        StandsAt cfg.stream n (
          continue r
            (λ u. on_git (git.push cfg.default_branch) >>= λ v.
              modify (on_store (mark_batch_pushed cls cfg.stream)) >> pure (length cls))
            w)
  after_each n cls (ok u, w) h =
      let (r, g) = git.push cfg.default_branch w.git in after_push n cls r (record w { git = g }) h
  after_each n cls (err e, w) h = tt

  sync_remaining-StandsAt :
      (w : World G) (pending : List ℕ)
      → get_pending_changelists p4 cfg w.store ≡ ok pending
      → StandsAt cfg.stream
          (last_or (get_last_synced_cl cfg.stream w.store) pending)
          (sync_remaining git p4 build verify now cfg w)
  unfolding sync_remaining
  sync_remaining-StandsAt w [] e = rw e refl
  sync_remaining-StandsAt w (cl ∷ cls) e = rw e (
      after_each (last_or cl cls) (cl ∷ cls) (replay git p4 build verify now cfg (cl ∷ cls) w)
        (sync_each-StandsAt p4 build now cfg.stream cfg.default_branch (λ w. false) (cl ∷ cls) w))

  -- When the server lists the pending changelists and the last synchronisation returns, the stream
  -- stands at the last of them, or where it stood if there were none.
  pub sync_remaining_position :
      (w : World G) (pending : List ℕ) (n : ℕ)
      → get_pending_changelists p4 cfg w.store ≡ ok pending
      → (sync_remaining git p4 build verify now cfg w).0 ≡ ok n
      → get_last_synced_cl cfg.stream (sync_remaining git p4 build verify now cfg w).1.store
        ≡ last_or (get_last_synced_cl cfg.stream w.store) pending
  sync_remaining_position w pending n e r =
      subst
        (λ r.
          StandsAt cfg.stream (last_or (get_last_synced_cl cfg.stream w.store) pending)
            (r, (sync_remaining git p4 build verify now cfg w).1))
        r (sync_remaining-StandsAt w pending e)

  module _ (verify_sample : World G → Result IntegrityResult) where
    abbrev IsReady : World G → Type 0
    IsReady w =
        (get_pending_changelists p4 cfg w.store ≡ ok [])
        × (get_pending_pushes w.store ≡ [])
        × (get_unresolved_errors w.store ≡ [])
        × ((result : IntegrityResult) × (verify_sample w ≡ ok result) × (result.passed ≡ true))

    is_ready→IsReady :
        (pending : List ℕ) (w : World G) (result : IntegrityResult)
        → get_pending_changelists p4 cfg w.store ≡ ok pending
        → verify_sample w ≡ ok result
        → is_ready p4 verify_sample cfg pending w.store result ≡ true
        → IsReady w
    unfolding is_ready
    is_ready→IsReady pending w result p v h =
        let (a, h') =
          both_true (is_empty pending)
            (is_empty (get_pending_pushes w.store)
              && (is_empty (get_unresolved_errors w.store) && result.passed))
            h in
        let (b, h'') =
          both_true (is_empty (get_pending_pushes w.store))
            (is_empty (get_unresolved_errors w.store) && result.passed) h' in
        let (c, d) = both_true (is_empty (get_unresolved_errors w.store)) result.passed h'' in
        (
          p ∙ ap ok (is_empty→eq pending a),
          is_empty→eq (get_pending_pushes w.store) b,
          is_empty→eq (get_unresolved_errors w.store) c,
          (result, v, d),
        )

    abbrev Judged : World G → Result CutoverResult × World G → Type 0
    Judged w (r, w') =
        (w' ≡ w) × ((res : CutoverResult) × (r ≡ ok res) × (res.success ≡ true → IsReady w))

    dry_run-checked :
        (pending : List ℕ) (result : IntegrityResult) (w : World G)
        → get_pending_changelists p4 cfg w.store ≡ ok pending
        → verify_sample w ≡ ok result
        → dry_run p4 verify_sample cfg (pure tt) w
          ≡ (ok (dry_result p4 verify_sample cfg pending result w), w)
    unfolding dry_run dry_run_checks
    dry_run-checked pending result w p v = rw (p, v) refl

    dry_run-cases :
        (rp : Result (List ℕ)) (rv : Result IntegrityResult) (w : World G)
        → get_pending_changelists p4 cfg w.store ≡ rp
        → verify_sample w ≡ rv
        → Judged w (dry_run p4 verify_sample cfg (pure tt) w)
    unfolding dry_run dry_run_checks
    dry_run-cases (err e) rv w p v = rw p (refl, (failed_result e, refl, λ t. cc))
    dry_run-cases (ok pending) (err e) w p v = rw (p, v) (refl, (failed_result e, refl, λ t. cc))
    dry_run-cases (ok pending) (ok result) w p v = rw (dry_run-checked pending result w p v) (
      refl,
      (
        dry_result p4 verify_sample cfg pending result w,
        refl,
        λ t. is_ready→IsReady pending w result p v t,
      ),
    )

    abbrev Dry : World G → Result CutoverResult × World G → Type 0
    Dry v (r, w') =
        (w' ≡ v)
        × ((res : CutoverResult) × (r ≡ ok res)
            × (res.success ≡ true
                → IsReady v × (sync_remaining git p4 build verify now cfg v ≡ (ok 0, v))))

    after_connect :
        (p : Result (Unit {0}) × World G) (w : World G)
        → Dry p.1 (dry_run p4 verify_sample cfg (λ v. p) w)
    unfolding dry_run dry_run_checks sync_remaining
    after_connect (err e, v) w = (refl, (failed_result e, refl, λ t. cc))
    after_connect (ok u, v) w =
        let (k, (res, e, f)) =
          dry_run-cases (get_pending_changelists p4 cfg v.store) (verify_sample v) v refl refl in
        (k, (res, e, λ t. let ready = f t in (ready, rw ready.0 refl)))

    -- A dry run returns a result and changes nothing but what its set-up does; if it says ready, the
    -- last synchronisation has nothing to do from there.
    dry_run-IsReady :
        (connect : Exec (World G) (Unit {0})) (w : World G)
        → Dry (connect w).1 (dry_run p4 verify_sample cfg connect w)
    unfolding dry_run dry_run_checks
    dry_run-IsReady connect w = after_connect (connect w) w
