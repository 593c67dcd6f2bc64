-- ===== src/Cutover/Laws.antt =====
-- When a cutover may end as completed, and where it stops otherwise.
use p4sync_git.Prelude.{
  ℕ, ◌≡◌, refl, ◌⊎◌, inl, inr, ◌∙◌, sym, Bool, true, false, Bool-cases, is_empty, is_empty→eq, List,
  [], ◌∷◌, ◌++◌, arith,
}
use p4sync_git.Text.{Str, codes}
use p4sync_git.Exec.{Exec, Result, ok, err, continue, handle_err}
use p4sync_git.State.Schema.{StreamMapping}
use p4sync_git.State.CommitMap.{get_pending_pushes}
use p4sync_git.State.Streams.{get_all_registered_streams}
use p4sync_git.Monitor.Breaker.{IntegrityResult}
use p4sync_git.Sync.World.{GitOperator, P4Client, SyncConfig, World}
use p4sync_git.Sync.Changelist.{Build}
use p4sync_git.Cutover.{
  CutoverPhase, freeze_check, final_sync, integrity_verify, final_push, switch_source, completed,
  CutoverResult, CutoverManager, detail, push_branch, push_all, switch, push_others, passed_text,
  synced_text, judge, check_lag, sync_remaining, check_p4_frozen, push_final, verify_final,
  sync_final, run_phases, execute, on_exception, exception_result, initialize, send_info,
}

-- the phases in which P4 is still the source
abbrev pub before_switch : CutoverPhase → Bool
before_switch switch_source = false
before_switch completed = false
before_switch _ = true

module _ {G : Type 0} (git : GitOperator G) (p4 : P4Client) (build : Build G)
    (verify : World G → Result IntegrityResult) (now : ℕ) (cfg : SyncConfig) where
  -- The check passed on a world with this store, and from there the push went through.
  abbrev pub IsVerified : CutoverManager G → Type 0
  IsVerified c =
      (w : World G) × (result : IntegrityResult) × (verify w ≡ ok result)
      × (result.passed ≡ true)
      × (w.store ≡ c.world.store)
      × ((git.push cfg.default_branch w.git).0 ≡ ok tt)

  abbrev pub IsDone : CutoverResult → CutoverManager G → Type 0
  IsDone res c =
      (res.success ≡ true)
      × (res.phase ≡ completed)
      × (get_pending_pushes c.world.store ≡ [])
      × IsVerified c

  abbrev pub IsStopped : CutoverResult → Type 0
  IsStopped res = (res.success ≡ false) × (before_switch res.phase ≡ true)

  abbrev Ended : Result CutoverResult × CutoverManager G → Type 0
  Ended (ok res, c) = (res.phase ≡ c.phase) × (IsDone res c ⊎ IsStopped res)
  Ended (err e, c) = before_switch c.phase ≡ true

  -- it returns, and leaves the store as it is
  abbrev Keeps : CutoverManager G → Result (Unit {0}) × CutoverManager G → Type 0
  Keeps c (r, c') = (r ≡ ok tt) × (c'.world.store ≡ c.world.store)

  push_branch-Keeps :
      (branch : Str) (c : CutoverManager G)
      → Keeps c (push_branch git p4 build verify now cfg branch c)
  unfolding push_branch
  push_branch-Keeps branch c = ground arith

  push_all-Keeps :
      (ms : List StreamMapping) (c : CutoverManager G)
      → Keeps c (push_all git p4 build verify now cfg ms c)
  unfolding push_all
  push_all-Keeps [] c = (refl, refl)
  push_all-Keeps (m ∷ ms) c =
      let (r, c') = push_branch git p4 build verify now cfg m.branch c in
      let (e, k) = push_branch-Keeps m.branch c in
      let (f, l) = push_all-Keeps ms c' in rw e (f, l ∙ k)

  switch-Ended :
      (c : CutoverManager G)
      → get_pending_pushes c.world.store ≡ []
      → IsVerified c
      → Ended (switch git p4 build verify now cfg c)
  unfolding switch send_info
  switch-Ended c h v = elim (Bool-cases c.has_notifier) [
    | inl e ↦ rw e (refl, inl (refl, refl, h, v))
    | inr e ↦ rw e (refl, inl (refl, refl, h, v))
  ]

  push_others-Ended :
      (c : CutoverManager G)
      → get_pending_pushes c.world.store ≡ []
      → IsVerified c
      → Ended (push_others git p4 build verify now cfg c)
  unfolding push_others
  push_others-Ended c h (w, result, v, p, k, g) =
      let d = (detail (codes "최종 push 완료: " ++ cfg.default_branch) c).1 in
      let ms = get_all_registered_streams c.world.store in
      let (r, c') = push_all git p4 build verify now cfg ms d in
      let (e, l) = push_all-Keeps ms d in
      rw e (switch-Ended c' (rw l h) (w, result, v, p, k ∙ sym l, g))

  after_push :
      (r : Result (Unit {0})) (c : CutoverManager G)
      → before_switch c.phase ≡ true
      → (r ≡ ok tt → Ended (push_others git p4 build verify now cfg c))
      → Ended (continue r (λ u. push_others git p4 build verify now cfg) c)
  after_push (ok u) c b f = f refl
  after_push (err e) c b f = b

  push_final-Ended :
      (c : CutoverManager G) (result : IntegrityResult)
      → get_pending_pushes c.world.store ≡ []
      → verify c.world ≡ ok result
      → result.passed ≡ true
      → Ended (push_final git p4 build verify now cfg c)
  unfolding push_final
  push_final-Ended c result h v p =
      let (r, g) = git.push cfg.default_branch c.world.git in
      after_push r (record c { phase = final_push; world = record c.world { git = g } }) refl
        (λ e.
          push_others-Ended (record c { phase = final_push; world = record c.world { git = g } }) h
            (c.world, result, v, p, refl, e))

  after_verify :
      (r : Result IntegrityResult) (c : CutoverManager G)
      → verify c.world ≡ r
      → c.phase ≡ integrity_verify
      → get_pending_pushes c.world.store ≡ []
      → Ended (continue r (judge git p4 build verify now cfg) c)
  unfolding judge
  after_verify (err e) c v b h = rw b refl
  after_verify (ok result) c v b h = elim (Bool-cases result.passed) [
    | inl p ↦ rw p (push_final-Ended (detail (passed_text result) c).1 result h v p)
    | inr p ↦ rw p (sym b, inr (refl, refl))
  ]

  verify_final-Ended :
      (c : CutoverManager G)
      → get_pending_pushes c.world.store ≡ []
      → Ended (verify_final git p4 build verify now cfg c)
  unfolding verify_final
  verify_final-Ended c h =
      after_verify (verify c.world) (record c { phase = integrity_verify }) refl refl h

  after_sync :
      (r : Result ℕ) (c : CutoverManager G)
      → c.phase ≡ final_sync
      → Ended (continue r (check_lag git p4 build verify now cfg) c)
  unfolding check_lag
  after_sync (err e) c b = rw b refl
  after_sync (ok n) c b = elim (Bool-cases (is_empty (get_pending_pushes c.world.store))) [
    | inl p ↦ rw p (
        verify_final-Ended
          (record c {
            details = (c.details ++ (synced_text n ∷ [])) ++ (codes "total_lag=0 확인" ∷ []);
          })
          (is_empty→eq (get_pending_pushes c.world.store) p))
    | inr p ↦ rw p (sym b, inr (refl, refl))
  ]

  sync_final-Ended : (c : CutoverManager G) → Ended (sync_final git p4 build verify now cfg c)
  unfolding sync_final
  sync_final-Ended c =
      let (r, w) = sync_remaining git p4 build verify now cfg c.world in
      after_sync r (record c { phase = final_sync; world = w }) refl

  after_connect :
      (p : Result (Unit {0}) × World G) (c : CutoverManager G)
      → before_switch c.phase ≡ true
      → Ended (run_phases git p4 build verify now cfg (λ w. p) c)
  unfolding run_phases initialize
  after_connect (err e, w) c b = b
  after_connect (ok u, w) c b =
      let c' = record c { phase = freeze_check; has_notifier = true; world = w } in
      elim (Bool-cases (check_p4_frozen p4 cfg w.store)) [
        | inl f ↦ rw f (sync_final-Ended c')
        | inr f ↦ rw f (
            sync_final-Ended
              (record c' { details = c.details ++ (codes "WARN: P4 submit 차단 미확인 상태로 진행" ∷ []) }))
      ]

  run_phases-Ended :
      (connect : Exec (World G) (Unit {0})) (c : CutoverManager G)
      → before_switch c.phase ≡ true
      → Ended (run_phases git p4 build verify now cfg connect c)
  unfolding run_phases initialize
  run_phases-Ended connect c b = after_connect (connect c.world) c b

  or_exception :
      (p : Result CutoverResult × CutoverManager G)
      → Ended p
      → let (r, c) = p in
        let (s, d) = handle_err r on_exception c in
        (res : CutoverResult) × (s ≡ ok res)
        × (res.phase ≡ d.phase)
        × (IsDone res d ⊎ IsStopped res)
  unfolding on_exception
  or_exception (ok res, c) (e, h) = (res, refl, e, h)
  or_exception (err e, c) b = elim (Bool-cases c.has_notifier) [
    | inl n ↦ rw n (exception_result e c.phase, refl, refl, inr (refl, b))
    | inr n ↦ rw n (exception_result e c.phase, refl, refl, inr (refl, b))
  ]

  -- A cutover that starts before the switch always returns a result, of the phase it ended in. Either
  -- it is a success in the phase `completed`, and then no commit of the store is left to push, the
  -- integrity check passed with this store, and the push of the default branch went through from the
  -- repository that was checked; or it is none, and the phase lies before the switch.
  pub execute-IsDone :
      (connect : Exec (World G) (Unit {0})) (c : CutoverManager G)
      → before_switch c.phase ≡ true
      → let (r, c') = execute git p4 build verify now cfg connect c in
        (res : CutoverResult) × (r ≡ ok res)
        × (res.phase ≡ c'.phase)
        × (IsDone res c' ⊎ IsStopped res)
  unfolding execute
  execute-IsDone connect c b =
      or_exception (run_phases git p4 build verify now cfg connect c) (run_phases-Ended connect c b)
