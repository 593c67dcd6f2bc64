-- ===== src/Cutover.antt =====
-- services/cutover.py: the last synchronisation, and the switch to Git as the source. The commit
-- builder and the integrity check are parameters, and so is whether connecting succeeds.
pub mod Laws
pub mod Positions
use p4sync_git.Prelude.{
  ℕ, zero, suc, Bool, true, false, ◌&&◌, not, Option, none, some, List, [], ◌∷◌, ◌++◌, ltb, ◌==◌,
  if◌then◌else◌, length, is_empty,
}
use p4sync_git.Text.{Str, codes, str_eq}
use p4sync_git.Text.Decimal.{show_nat}
use p4sync_git.Exec.{
  Result, ok, err, Exec, ◌>>=◌, ◌>>◌, pure, raise, lift, gets, modify, try_except,
}
use p4sync_git.Perforce.Change.{P4ChangeInfo}
use p4sync_git.State.Schema.{StreamMapping, p4_to_git}
use p4sync_git.State.Connection.{StateStore}
use p4sync_git.State.SyncState.{get_last_synced_cl, set_last_synced_cl}
use p4sync_git.State.CommitMap.{record_commit, get_pending_pushes}
use p4sync_git.State.Streams.{get_all_registered_streams}
use p4sync_git.State.Errors.{get_unresolved_errors}
use p4sync_git.Monitor.Breaker.{IntegrityResult}
use p4sync_git.Sync.World.{GitOperator, P4Client, SyncConfig, World, on_git, on_store}
use p4sync_git.Sync.Changelist.{Build, parent_sha}
use p4sync_git.Sync.Poll.{mark_batch_pushed}
use p4sync_git.Sync.Replay.{sync_each}

pub data CutoverPhase : Type 0 where
  not_started freeze_check final_sync integrity_verify : CutoverPhase
  final_push switch_source completed failed : CutoverPhase

unfoldable pub phase_value : CutoverPhase → Str
phase_value not_started = codes "not_started"
phase_value freeze_check = codes "freeze_check"
phase_value final_sync = codes "final_sync"
phase_value integrity_verify = codes "integrity_verify"
phase_value final_push = codes "final_push"
phase_value switch_source = codes "switch_source"
phase_value completed = codes "completed"
phase_value failed = codes "failed"

pub record CutoverResult : Type 0 where
  pub success : Bool
  pub phase : CutoverPhase
  pub message : Str
  pub details : List Str

-- The manager: what it works on, its phase, whether the notifier exists, the texts that were sent
-- by `send_info`, and the local list `details`.
pub record CutoverManager (G : Type 0) : Type 0 where
  pub world : World G
  pub phase : CutoverPhase
  pub has_notifier : Bool
  pub infos_sent : List Str
  pub details : List Str

abbrev pub synced_text : ℕ → Str
synced_text n = codes "잔여 CL " ++ (show_nat n ++ codes "건 처리 완료")

abbrev pub passed_text : IntegrityResult → Str
passed_text result =
    codes "무결성 검증 통과("
    ++ (result.strategy
        ++ (codes "): "
            ++ (show_nat result.checked_files
                ++ (codes "/" ++ (show_nat result.total_files ++ codes "개 파일 확인")))))

module _ (p4 : P4Client) (cfg : SyncConfig) where
  unfoldable pub get_pending_changelists : StateStore → Result (List ℕ)
  get_pending_changelists s = p4.get_changes_after cfg.stream (get_last_synced_cl cfg.stream s)

  abbrev none_pending : Result (List ℕ) → Bool
  none_pending (ok pending) = is_empty pending
  none_pending (err e) = false

  unfoldable pub check_p4_frozen : StateStore → Bool
  unfolding get_pending_changelists
  check_p4_frozen s = none_pending (get_pending_changelists s)

abbrev pub exception_result : Str → CutoverPhase → CutoverResult
exception_result e p = record {
  success = false;
  phase = p;
  message = codes "컷오버 실패: " ++ e;
  details = [];
}

abbrev pub failed_result : Str → CutoverResult
failed_result e = record {
  success = false;
  phase = failed;
  message = codes "Dry run 실패: " ++ e;
  details = [];
}

module _ {G : Type 0} where
  abbrev pub on_world : {A : Type 0} → Exec (World G) A → Exec (CutoverManager G) A
  on_world m c = let (r, w) = m c.world in (r, record c { world = w })

  abbrev pub enter : CutoverPhase → Exec (CutoverManager G) (Unit {0})
  enter p = modify (λ c. record c { phase = p })

  abbrev pub detail : Str → Exec (CutoverManager G) (Unit {0})
  detail text = modify (λ c. record c { details = c.details ++ (text ∷ []) })

  -- `_initialize`: `connect` stands for the connections it makes, the database that it opens or
  -- migrates and the repository that it sets up, which may fail; the notifier comes after them
  unfoldable pub initialize : Exec (World G) (Unit {0}) → Exec (CutoverManager G) (Unit {0})
  initialize connect = on_world connect >> modify (λ c. record c { has_notifier = true })

  unfoldable pub send_info : Str → Exec (CutoverManager G) (Unit {0})
  send_info text =
      modify (λ c. if c.has_notifier then record c { infos_sent = text ∷ c.infos_sent } else c)

  -- `return CutoverResult(success=..., phase=..., message=..., details=details)`
  abbrev pub finish : Bool → CutoverPhase → Str → Exec (CutoverManager G) CutoverResult
  finish success p message =
      gets (λ c. record { success = success; phase = p; message = message; details = c.details })

  -- the branch of `execute` for an exception
  unfoldable pub on_exception : Str → Exec (CutoverManager G) CutoverResult
  unfolding phase_value
  on_exception e c = (
    ok (exception_result e c.phase),
    if c.has_notifier
        then record c {
          world = record c.world {
            errors_sent =
                (
                  0,
                  codes "cutover",
                  codes "컷오버 실패 (phase=" ++ (phase_value c.phase ++ (codes "): " ++ e)),
                )
                ∷ c.world.errors_sent;
          };
        }
        else c,
  )

  module _ (git : GitOperator G) (p4 : P4Client) (build : Build G)
      (verify : World G → Result IntegrityResult) (now : ℕ) (cfg : SyncConfig) where
    -- the loop of `_sync_remaining`
    abbrev pub replay : List ℕ → Exec (World G) (Unit {0})
    replay = sync_each p4 build now cfg.stream cfg.default_branch (λ w. false)

    abbrev pub sync_pending : List ℕ → Exec (World G) ℕ
    sync_pending [] = pure 0
    sync_pending (cl ∷ cls) = do
      replay (cl ∷ cls)
      on_git (git.push cfg.default_branch)
      modify (on_store (mark_batch_pushed (cl ∷ cls) cfg.stream))
      pure (length (cl ∷ cls))

    unfoldable pub sync_remaining : Exec (World G) ℕ
    unfolding get_pending_changelists sync_each
    sync_remaining w = (lift (get_pending_changelists p4 cfg w.store) >>= sync_pending) w

    -- a branch other than the default one, whose failure is only logged
    unfoldable pub push_branch : Str → Exec (CutoverManager G) (Unit {0})
    push_branch branch =
        if str_eq branch cfg.default_branch
        then pure tt
        else try_except
            (on_world (on_git (git.push branch)) >> detail (codes "branch push: " ++ branch))
            (λ e. pure tt)

    unfoldable pub push_all : List StreamMapping → Exec (CutoverManager G) (Unit {0})
    unfolding push_branch
    push_all [] = pure tt
    push_all (m ∷ ms) = push_branch m.branch >> push_all ms

    -- phase B
    unfoldable pub switch : Exec (CutoverManager G) CutoverResult
    unfolding send_info
    switch = do
      enter switch_source
      detail (codes "Git이 공식 소스로 지정됨")
      detail (codes "동기화 서비스 종료 준비 완료")
      send_info (codes "P4 -> Git 컷오버 완료. Git이 공식 소스입니다.")
      enter completed
      finish true completed (codes "컷오버 완료: Git이 공식 소스입니다")

    -- what follows the push of the default branch
    unfoldable pub push_others : Exec (CutoverManager G) CutoverResult
    unfolding push_all switch
    push_others = do
      detail (codes "최종 push 완료: " ++ cfg.default_branch)
      mappings ← gets (λ c. get_all_registered_streams c.world.store)
      push_all mappings
      switch

    -- A-4
    unfoldable pub push_final : Exec (CutoverManager G) CutoverResult
    unfolding push_others
    push_final = do enter final_push; on_world (on_git (git.push cfg.default_branch)); push_others

    -- what follows the check of the integrity
    unfoldable pub judge : IntegrityResult → Exec (CutoverManager G) CutoverResult
    unfolding push_final
    judge result =
        if result.passed
        then detail (passed_text result) >> push_final
        else finish false integrity_verify (
            codes "최종 무결성 검증 실패: "
            ++ (show_nat (length result.mismatched_files) ++ codes "개 파일 불일치"))

    -- A-3
    unfoldable pub verify_final : Exec (CutoverManager G) CutoverResult
    unfolding judge
    verify_final = do enter integrity_verify; result ← λ c. lift (verify c.world) c; judge result

    -- what follows the synchronisation: nothing may be left to push
    unfoldable pub check_lag : ℕ → Exec (CutoverManager G) CutoverResult
    unfolding verify_final
    check_lag synced = do
      detail (synced_text synced)
      pushes ← gets (λ c. get_pending_pushes c.world.store)
      if is_empty pushes
          then (detail (codes "total_lag=0 확인") >> verify_final)
          else finish false final_sync
              (codes "total_lag != 0: 미완료 push " ++ (show_nat (length pushes) ++ codes "건"))

    -- A-2
    unfoldable pub sync_final : Exec (CutoverManager G) CutoverResult
    unfolding sync_remaining check_lag
    sync_final = do enter final_sync; synced ← on_world sync_remaining; check_lag synced

    unfoldable pub run_phases : Exec (World G) (Unit {0}) → Exec (CutoverManager G) CutoverResult
    unfolding initialize check_p4_frozen sync_final
    run_phases connect = do
      initialize connect
      enter freeze_check
      frozen ← gets (λ c. check_p4_frozen p4 cfg c.world.store)
      if frozen then pure tt else detail (codes "WARN: P4 submit 차단 미확인 상태로 진행")
      sync_final

    unfoldable pub execute : Exec (World G) (Unit {0}) → Exec (CutoverManager G) CutoverResult
    unfolding run_phases on_exception
    execute connect = try_except (run_phases connect) on_exception

  module _ (p4 : P4Client) (verify_sample : World G → Result IntegrityResult)
      (cfg : SyncConfig) where
    abbrev count_text : Str → ℕ → Str
    count_text what n = what ++ (codes ": " ++ (show_nat n ++ codes "건"))

    abbrev checks_of : Bool → List ℕ → StateStore → IntegrityResult → List Str
    checks_of frozen pending s result =
        (codes "P4 freeze: " ++ (if frozen then codes "OK" else codes "WARN - submit 차단 미확인"))
        ∷ count_text (codes "잔여 CL") (length pending)
        ∷ count_text (codes "미완료 push") (length (get_pending_pushes s))
        ∷ count_text (codes "미해결 에러") (length (get_unresolved_errors s))
        ∷ (codes "무결성 검증 (50개 샘플): "
            ++ ((if result.passed then codes "PASS" else codes "FAIL")
                ++ (codes " ("
                    ++ (show_nat result.checked_files
                        ++ (codes "개 확인, "
                            ++ (show_nat (length result.mismatched_files) ++ codes "개 불일치)"))))))
        ∷ []

    unfoldable pub is_ready : List ℕ → StateStore → IntegrityResult → Bool
    is_ready pending s result =
        is_empty pending
        && (is_empty (get_pending_pushes s)
            && (is_empty (get_unresolved_errors s) && result.passed))

    abbrev pub dry_result : List ℕ → IntegrityResult → World G → CutoverResult
    dry_result pending result w = record {
      success = is_ready pending w.store result;
      phase = not_started;
      message =
          codes "Dry run 완료: "
          ++ (if is_ready pending w.store result then codes "READY" else codes "NOT READY");
      details = checks_of (check_p4_frozen p4 cfg w.store) pending w.store result;
    }

    unfoldable pub dry_run_checks : Exec (World G) (Unit {0}) → Exec (World G) CutoverResult
    dry_run_checks connect = do
      connect
      pending ← λ w. lift (get_pending_changelists p4 cfg w.store) w
      result ← λ w. lift (verify_sample w) w
      gets (dry_result pending result)

    unfoldable pub dry_run : Exec (World G) (Unit {0}) → Exec (World G) CutoverResult
    unfolding dry_run_checks
    dry_run connect = try_except (dry_run_checks connect) (λ e. pure (failed_result e))
