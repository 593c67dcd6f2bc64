-- ===== src/Import/Run/Positions.antt =====
-- An import leaves the stream where it stood or at one of its changelists.
use p4sync_git.Prelude.{
  ℕ, ◌+◌, ◌%◌, ◌<◌, ◌≡◌, refl, sym, subst, ◌⊎◌, inl, inr, Bool, true, false, Bool-cases, both_true,
  ltb→lt, Option, List, [], ◌∷◌, arith, ltb, ◌==◌, ◌&&◌, is_empty,
}
use p4sync_git.Text.{Str}
use p4sync_git.Exec.{Result, ok, err}
use p4sync_git.State.Connection.{StateStore}
use p4sync_git.State.SyncState.{get_last_synced_cl, sync_row}
use p4sync_git.State.Users.Laws.{get_git_author_keeps}
use p4sync_git.Sync.Builder.{Contents, LfsSetup}
use p4sync_git.Import.Stream.{Exit, start, fast_importer}
use p4sync_git.Import.Initial.{ClData}
use p4sync_git.Import.Run.Laws.{get_last_synced_cl-record_head}
use p4sync_git.Import.Run.{
  Import, ImportConfig, finish_importer, record_head, checkpoint_if_due, after_finish, after_write,
  write_data, import_each, post_import, conclude, run, go_on, remaining,
}

-- one of the changelists that were extracted with files
abbrev pub Among : List ClData → ℕ → Type 0
Among [] n = ⊥
Among (d ∷ ds) n = ((d.cl ≡ n) × (d.skipped ≡ false)) ⊎ Among ds n

module _ {G : Type 0} (broken : Str → Bool) (run_git : Str → G → Exit × G)
    (head_sha : Str → G → Str) (p4 : Contents) (lfs : Option LfsSetup) (cfg : ImportConfig)
    (now : ℕ) where
  -- where the stream stands, and what was written last
  abbrev IsSound : List ClData → ℕ → Import G → Type 0
  IsSound all before s =
      ((get_last_synced_cl cfg.stream s.store ≡ before)
        ⊎ Among all (get_last_synced_cl cfg.stream s.store))
      × ((s.last_written_cl ≡ 0) ⊎ Among all s.last_written_cl)

  record_head-keeps :
      (s : Import G)
      → (record_head broken run_git head_sha p4 lfs cfg now s).last_written_cl ≡ s.last_written_cl
  unfolding record_head
  record_head-keeps s = refl

  record_head-IsSound :
      (all : List ClData) (before : ℕ) (s : Import G)
      → IsSound all before s
      → 0 < s.last_written_cl
      → IsSound all before (record_head broken run_git head_sha p4 lfs cfg now s)
  record_head-IsSound all before s (h, inl z) l = absurd (omega arith)
  record_head-IsSound all before s (h, inr a) l = (
    inr (
        subst (Among all)
          (sym (get_last_synced_cl-record_head broken run_git head_sha p4 lfs cfg now s)) a),
    inr (subst (Among all) (sym (record_head-keeps s)) a),
  )

  after_finish-IsSound :
      (all : List ClData) (before rc : ℕ) (s : Import G)
      → IsSound all before s
      → 0 < s.last_written_cl
      → IsSound all before (after_finish broken run_git head_sha p4 lfs cfg now (rc, s)).1
  after_finish-IsSound all before rc s h l = elim (Bool-cases (rc == 0)) [
    | inl e ↦ rw e (record_head-IsSound all before s h l)
    | inr e ↦ rw e h
  ]

  checkpoint-IsSound :
      (all : List ClData) (before next_i : ℕ) (s : Import G)
      → IsSound all before s
      → IsSound all before (checkpoint_if_due broken run_git head_sha p4 lfs cfg now next_i s).1
  unfolding checkpoint_if_due finish_importer
  checkpoint-IsSound all before next_i s h =
      let (rc, t) = finish_importer broken run_git head_sha p4 lfs cfg now s in
      elim (Bool-cases ((next_i % cfg.checkpoint_interval == 0) && ltb 0 s.last_written_cl)) [
        | inl e ↦
            let (d, l) =
              both_true (next_i % cfg.checkpoint_interval == 0) (ltb 0 s.last_written_cl) e in
            rw e (after_finish-IsSound all before rc t h (ltb→lt 0 s.last_written_cl l))
        | inr e ↦ rw e h
      ]

  go_on-IsSound :
      (all : List ClData) (before : ℕ) (p : Bool × Import G)
      (rest : Import G → Result (Unit {0}) × Import G)
      → IsSound all before p.1
      → ((t : Import G) → IsSound all before t → IsSound all before (rest t).1)
      → IsSound all before (go_on broken run_git head_sha p4 lfs cfg now p rest).1
  go_on-IsSound all before (true, s) rest h f = f s h
  go_on-IsSound all before (false, s) rest h f = h

  after_write-IsSound :
      (all : List ClData) (before next_i : ℕ) (d : ClData) (r : Result (Unit {0}))
      (rest : Import G → Result (Unit {0}) × Import G) (s : Import G)
      → Among all d.cl
      → IsSound all before s
      → ((t : Import G) → IsSound all before t → IsSound all before (rest t).1)
      → IsSound all before (after_write broken run_git head_sha p4 lfs cfg now next_i d r rest s).1
  after_write-IsSound all before next_i d (err e) rest s a h f = h
  after_write-IsSound all before next_i d (ok u) rest s a h f =
      let t = record s { last_written_cl = d.cl } in
      elim (Bool-cases (cfg.checkpoint_interval == 0)) [
        | inl e ↦ rw e (h.0, inr a)
        | inr e ↦ rw e (
            go_on-IsSound all before
              (checkpoint_if_due broken run_git head_sha p4 lfs cfg now next_i t) rest
              (checkpoint-IsSound all before next_i t (h.0, inr a)) f)
      ]

  write_data-IsSound :
      (all : List ClData) (before i : ℕ) (d : ClData) (s : Import G)
      → IsSound all before s
      → IsSound all before (write_data broken run_git head_sha p4 lfs cfg now i d s).1
  unfolding write_data get_last_synced_cl sync_row
  write_data-IsSound all before i d s h =
      rw (get_git_author_keeps now d.info.user cfg.domain s.store).0 h

  import_each-IsSound :
      (all : List ClData) (before i : ℕ) (ds : List ClData) (s : Import G)
      → ((n : ℕ) → Among ds n → Among all n)
      → IsSound all before s
      → IsSound all before (import_each broken run_git head_sha p4 lfs cfg now i ds s).1
  unfolding import_each
  import_each-IsSound all before i [] s m h = h
  import_each-IsSound all before i (d ∷ ds) s m h =
      let rest = import_each broken run_git head_sha p4 lfs cfg now (i + 1) ds in
      let step : (t : Import G) → IsSound all before t → IsSound all before (rest t).1 =
        λ t k. import_each-IsSound all before (i + 1) ds t (λ n a. m n (inr a)) k in
      let (r, t) = write_data broken run_git head_sha p4 lfs cfg now i d s in
      elim (Bool-cases d.skipped) [
        | inl e ↦ rw e (step s h)
        | inr e ↦ rw e (
            after_write-IsSound all before (i + 1) d r rest t (m d.cl (inl (refl, e)))
              (write_data-IsSound all before i d s h) step)
      ]

  post_import-IsSound :
      (all : List ClData) (before : ℕ) (s : Import G)
      → IsSound all before s
      → 0 < s.last_written_cl
      → IsSound all before (post_import broken run_git head_sha p4 lfs cfg now s)
  unfolding post_import
  post_import-IsSound all before s h l = elim (Bool-cases (is_empty (head_sha cfg.branch s.git))) [
    | inl e ↦ rw e h
    | inr e ↦ rw e (record_head-IsSound all before s h l)
  ]

  conclude-IsSound :
      (all : List ClData) (before rc : ℕ) (r : Result (Unit {0})) (s : Import G)
      → IsSound all before s
      → IsSound all before (conclude broken run_git head_sha p4 lfs cfg now r (rc, s)).1
  conclude-IsSound all before rc (err e) s h = h
  conclude-IsSound all before rc (ok u) s h =
      elim (Bool-cases (ltb 0 s.last_written_cl && (rc == 0))) [
        | inl e ↦ rw e (
            post_import-IsSound all before s h
              (ltb→lt 0 s.last_written_cl (both_true (ltb 0 s.last_written_cl) (rc == 0) e).0))
        | inr e ↦ rw e h
      ]

  -- However an import ends, the stream stands where it stood, or at a changelist that was extracted
  -- and has files to import.
  pub run-Among :
      (all : List ℕ) (ds : List ClData) (store : StateStore) (g : G)
      → let u = (run broken run_git head_sha p4 lfs cfg now all ds store g).1 in
        (get_last_synced_cl cfg.stream u.store ≡ get_last_synced_cl cfg.stream store)
        ⊎ Among ds (get_last_synced_cl cfg.stream u.store)
  unfolding run finish_importer
  run-Among all ds store g =
      let before = get_last_synced_cl cfg.stream store in
      let init : Import G = record {
        store = store;
        git = g;
        importer = start fast_importer;
        last_written_cl = 0;
      } in
      let (r, s) = import_each broken run_git head_sha p4 lfs cfg now 0 ds init in
      let (rc, t) = finish_importer broken run_git head_sha p4 lfs cfg now s in
      elim (Bool-cases (is_empty (remaining before all))) [
        | inl e ↦ rw e (inl refl)
        | inr e ↦
            rw e
              (conclude-IsSound ds before rc r t
                (import_each-IsSound ds before 0 ds init (λ n a. a) (inl refl, inl refl))).0
      ]
