-- ===== src/Import/Run/Laws.antt =====
-- What a failed checkpoint records.
use p4sync_git.Prelude.{
  ℕ, suc, ◌%◌, ◌<◌, ◌≡◌, ◌≢◌, refl, Bool, true, false, Option, none, some, [], ◌∷◌, arith, ltb,
  ◌==◌, is_empty,
}
use p4sync_git.Text.{Str}
use p4sync_git.Text.Laws.{str_eq_refl}
use p4sync_git.Exec.{ok}
use p4sync_git.State.SyncState.{get_last_synced_cl, set_last_synced_cl}
use p4sync_git.State.SyncState.Laws.{get_last_synced_cl-set_last_synced_cl}
use p4sync_git.State.CommitMap.Laws.{get_last_synced_cl-record_commit}
use p4sync_git.Sync.Builder.{Contents, LfsSetup}
use p4sync_git.Import.Stream.{Exit, exited, finish}
use p4sync_git.Import.Run.{
  Import, ImportConfig, finish_importer, record_head, checkpoint_if_due, post_import, conclude,
}

pub is_empty-ne : (s : Str) → s ≢ [] → is_empty s ≡ false
is_empty-ne [] h = absurd (h refl)
is_empty-ne (c ∷ s) h = refl

module _ {G : Type 0} (broken : Str → Bool) (run_git : Str → G → Exit × G)
    (head_sha : Str → G → Str) (p4 : Contents) (lfs : Option LfsSetup) (cfg : ImportConfig)
    (now : ℕ) where
  pub get_last_synced_cl-record_head :
      (s : Import G)
      → get_last_synced_cl cfg.stream (record_head broken run_git head_sha p4 lfs cfg now s).store
        ≡ s.last_written_cl
  unfolding record_head
  get_last_synced_cl-record_head s =
      let sha = head_sha cfg.branch s.git in
      let t = set_last_synced_cl cfg.stream s.last_written_cl sha s.store in
      ground (
        arith,
        get_last_synced_cl-record_commit now s.last_written_cl cfg.stream cfg.branch cfg.stream
            false sha t,
        get_last_synced_cl-set_last_synced_cl cfg.stream cfg.stream s.last_written_cl sha s.store,
        str_eq_refl cfg.stream,
      )

  -- After the last `finish` of a process that is gone, what was written last is recorded.
  pub conclude-gone :
      (s : Import G)
      → s.importer.proc ≡ none
      → 0 < s.last_written_cl
      → head_sha cfg.branch s.git ≢ []
      → let (r, u) =
          conclude broken run_git head_sha p4 lfs cfg now
            (ok tt)
            (finish_importer broken run_git head_sha p4 lfs cfg now s) in
        (r ≡ ok tt) × (get_last_synced_cl cfg.stream u.store ≡ s.last_written_cl)
  unfolding finish_importer finish post_import
  conclude-gone s p l h =
      let positive : ltb 0 s.last_written_cl ≡ true = ground arith in
      rw (p, positive, is_empty-ne (head_sha cfg.branch s.git) h)
        (refl, get_last_synced_cl-record_head s)

  checkpoint-fails :
      (next_i : ℕ) (s : Import G) (out : Str) (rc : ℕ) (g : G)
      → s.importer.proc ≡ some out
      → run_git out s.git ≡ (exited (suc rc), g)
      → (next_i % cfg.checkpoint_interval == 0) ≡ true
      → 0 < s.last_written_cl
      → checkpoint_if_due broken run_git head_sha p4 lfs cfg now next_i s
        ≡ (false, record s { importer = record s.importer { proc = none }; git = g })
  unfolding checkpoint_if_due finish_importer finish
  checkpoint-fails next_i s out rc g p e d l =
      let positive : ltb 0 s.last_written_cl ≡ true = ground arith in
      let fails : (suc rc == 0) ≡ false = ground arith in rw (d, positive, p, e, fails) refl

  -- A checkpoint that is due and whose process fails ends the loop, and yet the import then records
  -- the last changelist that was written as synchronised, if the branch has a head: the process is gone,
  -- so that the last `finish` reports no failure.
  pub failed_checkpoint-recorded :
      (next_i : ℕ) (s : Import G) (out : Str) (rc : ℕ) (g : G)
      → s.importer.proc ≡ some out
      → run_git out s.git ≡ (exited (suc rc), g)
      → (next_i % cfg.checkpoint_interval == 0) ≡ true
      → 0 < s.last_written_cl
      → head_sha cfg.branch g ≢ []
      → let (more, t) = checkpoint_if_due broken run_git head_sha p4 lfs cfg now next_i s in
        let (r, u) =
          conclude broken run_git head_sha p4 lfs cfg now
            (ok tt)
            (finish_importer broken run_git head_sha p4 lfs cfg now t) in
        (more ≡ false) × (r ≡ ok tt) × (get_last_synced_cl cfg.stream u.store ≡ s.last_written_cl)
  unfolding checkpoint_if_due finish_importer finish
  failed_checkpoint-recorded next_i s out rc g p e d l h =
      let t = record s { importer = record s.importer { proc = none }; git = g } in
      let stops : checkpoint_if_due broken run_git head_sha p4 lfs cfg now next_i s ≡ (false, t) =
        checkpoint-fails next_i s out rc g p e d l in
      let (a, b) = conclude-gone t refl l h in rw stops (refl, a, b)
