-- ===== src/Sync/Replay/Laws.antt =====
-- Where a replay of changelists leaves the stream.
use p4sync_git.Prelude.{ℕ, ◌≡◌, refl, subst, Bool, List, [], ◌∷◌, arith}
use p4sync_git.Text.{Str}
use p4sync_git.Text.Laws.{str_eq_refl}
use p4sync_git.Exec.{Result, ok, err, continue, modify}
use p4sync_git.Perforce.Change.{P4ChangeInfo}
use p4sync_git.State.Schema.{p4_to_git}
use p4sync_git.State.SyncState.{get_last_synced_cl}
use p4sync_git.State.SyncState.Laws.{get_last_synced_cl-set_last_synced_cl}
use p4sync_git.State.CommitMap.{record_commit}
use p4sync_git.Sync.World.{P4Client, World}
use p4sync_git.Sync.Changelist.{Build, parent_sha}
use p4sync_git.Sync.Poll.Laws.{last_or}
use p4sync_git.Sync.Replay.{record_one, build_one, sync_one, sync_each}

-- if it returns, the stream stands there
abbrev pub StandsAt : {G A : Type 0} → Str → ℕ → Result A × World G → Type 0
StandsAt stream n (ok a, w) = get_last_synced_cl stream w.store ≡ n
StandsAt stream n (err e, w) = Unit

module _ {G : Type 0} (p4 : P4Client) (build : Build G) (now : ℕ) (stream branch : Str)
    (flag : World G → Bool) where
  after_build :
      (cl : ℕ) (r : Result Str) (w : World G)
      → StandsAt stream cl
          (continue r (λ sha. modify (record_one p4 build now stream branch flag cl sha)) w)
  unfolding record_one
  after_build cl (err e) w = tt
  after_build cl (ok sha) w =
      let s = record_commit now cl sha stream branch (flag w) p4_to_git w.store in
      ground
        (arith, get_last_synced_cl-set_last_synced_cl stream stream cl sha s, str_eq_refl stream)

  after_describe :
      (cl : ℕ) (r : Result P4ChangeInfo) (w : World G)
      → StandsAt stream cl (continue r (build_one p4 build now stream branch flag cl) w)
  unfolding build_one
  after_describe cl (err e) w = tt
  after_describe cl (ok info) w =
      let (r, w') = build info branch (parent_sha stream w.store) w in after_build cl r w'

  sync_one-StandsAt :
      (cl : ℕ) (w : World G) → StandsAt stream cl (sync_one p4 build now stream branch flag cl w)
  unfolding sync_one
  sync_one-StandsAt cl w = after_describe cl (p4.describe cl) w

  pub sync_each-StandsAt :
      (cls : List ℕ) (w : World G)
      → StandsAt stream
          (last_or (get_last_synced_cl stream w.store) cls)
          (sync_each p4 build now stream branch flag cls w)
  unfolding sync_each
  sync_each-StandsAt [] w = refl
  sync_each-StandsAt (cl ∷ cls) w =
      let (r, w') = sync_one p4 build now stream branch flag cl w in
      then_each cl cls r w' (sync_one-StandsAt cl w) (sync_each-StandsAt cls w')
    where
      then_each :
          (cl : ℕ) (cls : List ℕ) (r : Result (Unit {0})) (w : World G)
          → StandsAt stream cl (r, w)
          → StandsAt stream
              (last_or (get_last_synced_cl stream w.store) cls)
              (sync_each p4 build now stream branch flag cls w)
          → StandsAt stream
              (last_or cl cls)
              (continue r (λ u. sync_each p4 build now stream branch flag cls) w)
      then_each cl cls (ok u) w h ih =
          subst
            (λ n. StandsAt stream (last_or n cls) (sync_each p4 build now stream branch flag cls w))
            h ih
      then_each cl cls (err e) w h ih = tt
