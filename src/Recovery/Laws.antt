-- ===== src/Recovery/Laws.antt =====
-- What a rebuilt database holds, and where a range that was built again leaves the stream.
use p4sync_git.Prelude.{
  ℕ, ◌≤◌, ◌<◌, ◌-◌, ◌≡◌, ◌≢◌, refl, ap, ◌∙◌, true, false, Bool-cases, inl, inr, Option, none, some,
  List, [], ◌∷◌, arith, map, length, or_else, leb, leb→le, both_true, ◌&&◌, ◌==◌, if◌then◌else◌,
  subst,
}
use p4sync_git.Text.{Str}
use p4sync_git.Text.Laws.{str_eq_refl}
use p4sync_git.Exec.{Result, ok, err, continue, pure, ◌>>◌}
use p4sync_git.State.Schema.{p4_to_git}
use p4sync_git.State.Connection.{StateStore, transaction, commit}
use p4sync_git.State.SyncState.{get_last_synced_cl, set_last_synced_cl, sync_row}
use p4sync_git.State.SyncState.Laws.{get_last_synced_cl-set_last_synced_cl}
use p4sync_git.State.CommitMap.{get_commit_sha, record_commit, commit_row, get_any_commit_sha}
use p4sync_git.State.CommitMap.Laws.{get_commit_sha-record_commit}
use p4sync_git.Sync.Changelist.Laws.{get_commit_sha-set_last_synced_cl}
use p4sync_git.Sync.Poll.Laws.{last_or}
use p4sync_git.State.Streams.{get_stream_mapping}
use p4sync_git.Sync.World.{P4Client, SyncConfig, World}
use p4sync_git.Sync.Changelist.{Build}
use p4sync_git.Sync.Replay.{sync_each}
use p4sync_git.Sync.Replay.Laws.{StandsAt, sync_each-StandsAt}
use p4sync_git.Recovery.{
  LogEntry, within, selected, mapped_branch, resync_targets, resync_range, parse_log, recover_entry,
  recover, rebuild_state_from_git,
}

-- the sha of the last entry of a changelist
abbrev pub latest : ℕ → List LogEntry → Option Str
latest n [] = none
latest n ((cl, sha, i) ∷ es) = or_else (latest n es) (if cl == n then some sha else none)

abbrev pub changelists : List LogEntry → List ℕ
changelists es = map (λ e. e.0) es

get_commit_sha-recover :
    (now n : ℕ) (stream branch : Str) (es : List LogEntry) (s : StateStore)
    → stream ≢ []
    → get_commit_sha n stream (recover now stream branch es s)
      ≡ or_else (latest n es) (get_commit_sha n stream s)
unfolding recover recover_entry
get_commit_sha-recover now n stream branch [] s h = refl
get_commit_sha-recover now n stream branch ((cl, sha, i) ∷ es) s h =
    let t = record_commit now cl sha stream branch i p4_to_git s in
    ground (
      arith,
      get_commit_sha-recover now n stream branch es (set_last_synced_cl stream cl sha t) h,
      get_commit_sha-set_last_synced_cl n cl stream stream sha t,
      get_commit_sha-record_commit now cl sha stream branch i p4_to_git s n stream h,
      str_eq_refl stream,
    )

get_last_synced_cl-recover :
    (now : ℕ) (stream branch : Str) (es : List LogEntry) (s : StateStore)
    → get_last_synced_cl stream (recover now stream branch es s)
      ≡ last_or (get_last_synced_cl stream s) (changelists es)
unfolding recover recover_entry
get_last_synced_cl-recover now stream branch [] s = refl
get_last_synced_cl-recover now stream branch ((cl, sha, i) ∷ es) s =
    let t = record_commit now cl sha stream branch i p4_to_git s in
    ground (
      arith,
      get_last_synced_cl-recover now stream branch es (set_last_synced_cl stream cl sha t),
      get_last_synced_cl-set_last_synced_cl stream stream cl sha t,
      str_eq_refl stream,
    )

get_commit_sha-conn :
    (n : ℕ) (stream : Str) (s t : StateStore)
    → s.conn ≡ t.conn
    → get_commit_sha n stream s ≡ get_commit_sha n stream t
unfolding get_commit_sha commit_row get_any_commit_sha
get_commit_sha-conn n [] s t h = rw h refl
get_commit_sha-conn n (c ∷ stream) s t h = rw h refl

get_last_synced_cl-conn :
    (stream : Str) (s t : StateStore)
    → s.conn ≡ t.conn
    → get_last_synced_cl stream s ≡ get_last_synced_cl stream t
unfolding get_last_synced_cl sync_row
get_last_synced_cl-conn stream s t h = rw h refl

abbrev committed : StateStore → StateStore
committed s = record (commit s) { in_transaction = false }

transaction_commits :
    (n : ℕ) (f : StateStore → StateStore) (s : StateStore)
    → s.in_transaction ≡ false
    → transaction (λ t. (ok n, f t)) s ≡ (ok n, committed (f (record s { in_transaction = true })))
unfolding transaction
transaction_commits n f s h = rw h refl

-- Outside a transaction, on a stream with a name, rebuilding from a log returns the number of its
-- entries, commits, and leaves for every changelist the sha of its last entry, or what was known if
-- it has none; the stream then stands at the changelist of the last entry, in the order of the log.
pub rebuild_state_from_git_lem :
    (now : ℕ) (stream branch log : Str) (s : StateStore)
    → stream ≢ []
    → s.in_transaction ≡ false
    → let es = parse_log log in
      let (r, s') = rebuild_state_from_git now stream branch (ok log) s in
      (r ≡ ok (length es))
      × (s'.disk ≡ s'.conn)
      × ((n : ℕ) → get_commit_sha n stream s' ≡ or_else (latest n es) (get_commit_sha n stream s))
      × (get_last_synced_cl stream s' ≡ last_or (get_last_synced_cl stream s) (changelists es))
unfolding rebuild_state_from_git commit
rebuild_state_from_git_lem now stream branch log s h t =
    let es = parse_log log in
    let u = record s { in_transaction = true } in
    let v = recover now stream branch es u in
    rw (transaction_commits (length es) (recover now stream branch es) s t) (
      refl,
      refl,
      λ n.
          get_commit_sha-conn n stream (committed v) v refl
          ∙ (get_commit_sha-recover now n stream branch es u h
              ∙ ap (or_else (latest n es)) (get_commit_sha-conn n stream u s refl)),
      get_last_synced_cl-conn stream (committed v) v refl
          ∙ (get_last_synced_cl-recover now stream branch es u
              ∙ ap (λ n. last_or n (changelists es)) (get_last_synced_cl-conn stream u s refl)),
    )

last_or-within :
    (from_cl to_cl n : ℕ) (cls : List ℕ) → n ≤ to_cl → last_or n (within from_cl to_cl cls) ≤ to_cl
last_or-within from_cl to_cl n [] h = h
last_or-within from_cl to_cl n (cl ∷ cls) h = elim (Bool-cases (leb from_cl cl && leb cl to_cl)) [
  | inl e ↦ rw e (
      last_or-within from_cl to_cl cl cls
        (leb→le cl to_cl (both_true (leb from_cl cl) (leb cl to_cl) e).1))
  | inr e ↦ rw e (last_or-within from_cl to_cl n cls h)
]

last_or-within_le :
    (from_cl to_cl n : ℕ) (cls : List ℕ)
    → 0 < length (within from_cl to_cl cls)
    → last_or n (within from_cl to_cl cls) ≤ to_cl
last_or-within_le from_cl to_cl n (cl ∷ cls) h =
    elim (Bool-cases (leb from_cl cl && leb cl to_cl)) [
      | inl e ↦ rw e (
          last_or-within from_cl to_cl cl cls
            (leb→le cl to_cl (both_true (leb from_cl cl) (leb cl to_cl) e).1))
      | inr e ↦ rw e (
          last_or-within_le from_cl to_cl n cls (
            subst
              (λ b.
                0 < length (if b then cl ∷ within from_cl to_cl cls else within from_cl to_cl cls))
              e h))
    ]
last_or-within_le from_cl to_cl n [] h = absurd (omega arith)

module _ {G : Type 0} (p4 : P4Client) (build : Build G) (now : ℕ) (cfg : SyncConfig) where
  -- if something was built again, the stream stands there at most
  abbrev EndsWithin : Str → ℕ → Result ℕ × World G → Type 0
  EndsWithin stream to_cl (ok n, w) = 0 < n → get_last_synced_cl stream w.store ≤ to_cl
  EndsWithin stream to_cl (err e, w) = Unit

  after_each :
      (from_cl to_cl : ℕ) (stream : Str) (changes : List ℕ) (n : ℕ)
      (p : Result (Unit {0}) × World G)
      → StandsAt stream (last_or n (within from_cl to_cl changes)) p
      → let (r, w) = p in
        EndsWithin stream to_cl (continue r (λ u. pure (length (within from_cl to_cl changes))) w)
  after_each from_cl to_cl stream changes n (err e, w) h = tt
  after_each from_cl to_cl stream changes n (ok u, w) h =
      λ k. rw h (last_or-within_le from_cl to_cl n changes k)

  after_targets :
      (from_cl to_cl : ℕ) (stream branch : Str) (r : Result (List ℕ)) (w : World G)
      → EndsWithin stream to_cl (
          continue
            (selected from_cl to_cl r)
            (λ targets.
              sync_each p4 build now stream branch (λ w. w.last_has_integration) targets
              >> pure (length targets))
            w)
  after_targets from_cl to_cl stream branch (err e) w = tt
  after_targets from_cl to_cl stream branch (ok changes) w =
      after_each from_cl to_cl stream changes (get_last_synced_cl stream w.store)
        (sync_each p4 build now stream branch (λ w. w.last_has_integration)
          (within from_cl to_cl changes) w)
        (sync_each-StandsAt p4 build now stream branch (λ w. w.last_has_integration)
          (within from_cl to_cl changes) w)

  -- Building a range again moves the stream back: if it returns and built anything, the stream
  -- stands at a changelist of the range or before, wherever it stood.
  pub resync_range_bound :
      (from_cl to_cl : ℕ) (stream : Str) (w : World G) (n : ℕ)
      → (resync_range p4 build now cfg from_cl to_cl stream w).0 ≡ ok n
      → 0 < n
      → get_last_synced_cl stream (resync_range p4 build now cfg from_cl to_cl stream w).1.store
        ≤ to_cl
  unfolding resync_range resync_targets
  resync_range_bound from_cl to_cl stream w n e k =
      subst
        (λ r. EndsWithin stream to_cl (r, (resync_range p4 build now cfg from_cl to_cl stream w).1))
        e
        (after_targets from_cl to_cl stream
          (mapped_branch cfg.default_branch (get_stream_mapping stream w.store))
          (p4.get_changes_after stream (from_cl - 1)) w)
        k
