-- ===== src/Sync/Rounds/Laws.antt =====
-- A branch in conflict is left alone in both directions, until its conflict branch is gone.
use p4sync_git.Prelude.{ℕ, ◌≡◌, refl, ◌⊎◌, inl, inr, true, Bool-cases, some}
use p4sync_git.Text.{Str, codes}
use p4sync_git.Exec.{Result, ok, err}
use p4sync_git.Text.Laws.{str_eq_refl}
use p4sync_git.State.Schema.{ConflictRow}
use p4sync_git.State.Conflicts.{get_conflict, resolve_conflict}
use p4sync_git.Sync.World.{GitOperator, P4Client, World}
use p4sync_git.Sync.Builder.{Contents}
use p4sync_git.Sync.Changelist.{Build}
use p4sync_git.Sync.Rounds.{
  RemoteGit, RoundConfig, Submit, get_direction, is_resolved, check_conflict_resolved,
  check_and_handle_conflicts, single_round,
}

module _ {G : Type 0} (git : GitOperator G) (remote : RemoteGit G) (p4 : P4Client)
    (contents : Contents) (build : Build G) (submit : Submit) (cfg : RoundConfig) (now : ℕ) where
  -- Only the conflict may be gone, and only if its branch was not on the remote after a fetch.
  abbrev pub OnlyResolves : Str → Str → World G → Result (Unit {0}) × World G → Type 0
  OnlyResolves branch conflict_branch w (r, w') =
      (r ≡ ok tt)
      × ((w'.store ≡ w.store)
          ⊎ ((w'.store ≡ resolve_conflict branch w.store)
              × ((remote.fetch w.git).0 ≡ ok tt)
              × (is_resolved git remote p4 contents build submit cfg now conflict_branch w'
                  ≡ true)))

  after_fetch :
      (branch : Str) (c : ConflictRow) (w : World G) (r : Result (Unit {0})) (g : G)
      → remote.fetch w.git ≡ (r, g)
      → OnlyResolves branch c.conflict_branch w
          (check_conflict_resolved git remote p4 contents build submit cfg now branch c w)
  unfolding check_conflict_resolved
  after_fetch branch c w (err e) g h = rw h (refl, inl refl)
  after_fetch branch c w (ok u) g h =
      elim (Bool-cases (
        is_resolved git remote p4 contents build submit cfg now c.conflict_branch
          (record w { git = g }))) [
            | inl e ↦ rw (h, e) (refl, inr (refl, refl, e))
            | inr e ↦ rw (h, e) (refl, inl refl)
          ]

  check_conflict_resolved-OnlyResolves :
      (branch : Str) (c : ConflictRow) (w : World G)
      → OnlyResolves branch c.conflict_branch w
          (check_conflict_resolved git remote p4 contents build submit cfg now branch c w)
  check_conflict_resolved-OnlyResolves branch c w =
      let (r, g) = remote.fetch w.git in after_fetch branch c w r g refl

  blocked :
      (stream branch : Str) (c : ConflictRow) (w : World G)
      → cfg.has_detectors ≡ true
      → cfg.has_remote_url ≡ true
      → get_conflict branch w.store ≡ some c
      → check_and_handle_conflicts git remote p4 contents build submit cfg now stream branch w ≡ (
        ok true,
        (check_conflict_resolved git remote p4 contents build submit cfg now branch c w).1,
      )
  unfolding check_and_handle_conflicts
  blocked stream branch c w d u h =
      rw (d, u, h, (check_conflict_resolved-OnlyResolves branch c w).0) refl

  -- While the default branch is in conflict, a bidirectional round of a service that watches a remote
  -- brings nothing over in either direction and never raises: the store stays as it is, but for the
  -- conflict, which is gone only if its branch was not on the remote after a fetch.
  pub single_round-OnlyResolves :
      (c : ConflictRow) (w : World G)
      → cfg.has_detectors ≡ true
      → cfg.has_remote_url ≡ true
      → get_direction cfg.sync_directions cfg.sync.stream ≡ codes "bidirectional"
      → get_conflict cfg.sync.default_branch w.store ≡ some c
      → OnlyResolves cfg.sync.default_branch c.conflict_branch w
          (single_round git remote p4 contents build submit cfg now w)
  unfolding single_round
  single_round-OnlyResolves c w d u b h =
      rw
        (
          b,
          str_eq_refl (codes "bidirectional"),
          blocked cfg.sync.stream cfg.sync.default_branch c w d u h,
        )
        (refl, (check_conflict_resolved-OnlyResolves cfg.sync.default_branch c w).1)
