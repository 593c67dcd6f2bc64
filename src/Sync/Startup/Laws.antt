-- ===== src/Sync/Startup/Laws.antt =====
-- When the service starts, and what the retried pushes leave.
use p4sync_git.Prelude.{
  ℕ, ◌≡◌, ◌≢◌, refl, ◌∙◌, ap, inl, inr, Bool, true, false, Bool-cases, Option, none, some, List, [],
  ◌∷◌, arith, map, if◌then◌else◌,
}
use p4sync_git.Text.{Str, str_eq, contains}
use p4sync_git.Text.Laws.{str_eq_refl, str_eq→eq}
use p4sync_git.Exec.{Result, ok, err, Result-cases}
use p4sync_git.Sql.{fetch_one, select_where}
use p4sync_git.Sql.Laws.{upserted}
use p4sync_git.State.Schema.{CommitRow, StreamMapping, SyncStateRow, pushed}
use p4sync_git.State.Connection.{StateStore}
use p4sync_git.State.Connection.Laws.{write-conn}
use p4sync_git.State.SyncState.{
  get_last_synced_cl, set_last_synced_cl, verify_consistency, sync_row, same_sha_or_absent,
}
use p4sync_git.State.SyncState.Laws.{sync_row-set_last_synced_cl}
use p4sync_git.State.CommitMap.{get_pending_pushes, update_push_status}
use p4sync_git.Sync.World.{GitOperator, SyncConfig, World}
use p4sync_git.Sync.Changelist.Laws.{get_last_synced_cl-update_push_status}
use p4sync_git.Sync.Startup.{mismatch_text, retry_push, retry_pushes, verify_on_startup}

-- the streams of a branch, in the order of the registry
abbrev pub streams_of : Str → StateStore → List Str
streams_of branch s =
    map (λ (m : StreamMapping). m.stream)
      (select_where (λ (m : StreamMapping). str_eq m.branch branch) s.conn.stream_registry)

str_eq_sym : (s t : Str) → str_eq s t ≡ str_eq t s
unfolding str_eq
str_eq_sym [] [] = refl
str_eq_sym [] (y ∷ t) = refl
str_eq_sym (x ∷ s) [] = refl
str_eq_sym (x ∷ s) (y ∷ t) = ground (arith, str_eq_sym s t)

ne-str_eq : (s t : Str) → s ≢ t → str_eq s t ≡ false
ne-str_eq s t n = elim (Bool-cases (str_eq s t)) [
  | inl e ↦ absurd (n (str_eq→eq s t e))
  | inr e ↦ e
]

contains-one : (s t : Str) → contains (s ∷ []) t ≡ str_eq t s
unfolding contains
contains-one s t = ground (arith, str_eq_sym s t)

fetch_one-cong {ℓ} :
    {A : Type ℓ} (p q : A → Bool) (rs : List A)
    → ((r : A) → p r ≡ q r)
    → fetch_one p rs ≡ fetch_one q rs
unfolding fetch_one
fetch_one-cong p q [] h = refl
fetch_one-cong p q (r ∷ rs) h = ground (arith, h r, fetch_one-cong p q rs h)

same_sha-upserted :
    (cl : ℕ) (stream sha head : Str) (o : Option SyncStateRow)
    → same_sha_or_absent head (
        some (
          upserted
            (λ r. record r { last_cl = cl; commit_sha = sha })
            (record { stream = stream; last_cl = cl; commit_sha = sha })
            o))
      ≡ str_eq sha head
same_sha-upserted cl stream sha head none = refl
same_sha-upserted cl stream sha head (some r) = refl

streams_of-set_last_synced_cl :
    (branch stream sha : Str) (cl : ℕ) (s : StateStore)
    → streams_of branch (set_last_synced_cl stream cl sha s) ≡ streams_of branch s
unfolding set_last_synced_cl
streams_of-set_last_synced_cl branch stream sha cl s = rw write-conn refl

verify_consistency-one :
    (branch head stream : Str) (s : StateStore)
    → streams_of branch s ≡ stream ∷ []
    → verify_consistency branch head s ≡ same_sha_or_absent head (sync_row stream s)
unfolding verify_consistency sync_row
verify_consistency-one branch head stream s h = rw h (
    ap (same_sha_or_absent head) (
      fetch_one-cong (λ (r : SyncStateRow). contains (stream ∷ []) r.stream)
        (λ r. str_eq r.stream stream) s.conn.sync_state (λ r. contains-one stream r.stream)))

sync_row-reset :
    (stream sha : Str) (cl : ℕ) (s : StateStore)
    → sync_row stream (set_last_synced_cl stream cl sha s)
      ≡ some (
          upserted
            (λ r. record r { last_cl = cl; commit_sha = sha })
            (record { stream = stream; last_cl = cl; commit_sha = sha })
            (sync_row stream s))
sync_row-reset stream sha cl s =
    sync_row-set_last_synced_cl stream stream cl sha s ∙ rw (str_eq_refl stream) refl

-- With one stream on a branch, the store agrees with Git exactly if the commit that was stored with
-- the last changelist of that stream is the head.
pub verify_consistency-set_last_synced_cl :
    (branch head stream sha : Str) (cl : ℕ) (s : StateStore)
    → streams_of branch s ≡ stream ∷ []
    → verify_consistency branch head (set_last_synced_cl stream cl sha s) ≡ str_eq sha head
verify_consistency-set_last_synced_cl branch head stream sha cl s h =
    verify_consistency-one branch head stream (set_last_synced_cl stream cl sha s)
      (streams_of-set_last_synced_cl branch stream sha cl s ∙ h)
    ∙ (ap (same_sha_or_absent head) (sync_row-reset stream sha cl s)
        ∙ same_sha-upserted cl stream sha head (sync_row stream s))

module _ {G : Type 0} (git : GitOperator G) (cfg : SyncConfig) where
  -- It returns, and the stream stands where it stood.
  abbrev pub StaysPut : Str → World G → Result (Unit {0}) × World G → Type 0
  StaysPut stream w (r, w') =
      (r ≡ ok tt) × (get_last_synced_cl stream w'.store ≡ get_last_synced_cl stream w.store)

  retry_push-StaysPut :
      (stream : Str) (row : CommitRow) (w : World G) → StaysPut stream w (retry_push git cfg row w)
  unfolding retry_push
  retry_push-StaysPut stream row w =
      ground (
        arith,
        get_last_synced_cl-update_push_status row.changelist row.stream stream pushed w.store,
      )

  retry_pushes-StaysPut :
      (stream : Str) (rows : List CommitRow) (w : World G)
      → StaysPut stream w (retry_pushes git cfg rows w)
  unfolding retry_pushes
  retry_pushes-StaysPut stream [] w = (refl, refl)
  retry_pushes-StaysPut stream (row ∷ rows) w =
      let (r, w') = retry_push git cfg row w in
      let (e, k) = retry_push-StaysPut stream row w in
      let (f, l) = retry_pushes-StaysPut stream rows w' in rw e (f, l ∙ k)

  -- a push of a row, by its outcome: the row is pushed, or only Git has changed
  abbrev pub after_push : CommitRow → Result (Unit {0}) → World G → World G
  after_push r (ok u) w = record w {
    store = update_push_status r.changelist r.stream pushed w.store;
  }
  after_push r (err e) w = w

  -- the world when every row was pushed to the remote, one after the other
  abbrev pub pushed_each : List CommitRow → World G → World G
  pushed_each [] w = w
  pushed_each (r ∷ rs) w =
      let (sent, g) = git.push r.branch w.git in
      pushed_each rs (after_push r sent (record w { git = g }))

  retry_push_lem :
      (r : CommitRow) (w : World G)
      → let (sent, g) = git.push r.branch w.git in
        retry_push git cfg r w ≡ (ok tt, after_push r sent (record w { git = g }))
  unfolding retry_push
  retry_push_lem r w = elim (Result-cases (git.push r.branch w.git).0) [
    | inl (u, e) ↦ rw e refl
    | inr (x, e) ↦ rw e refl
  ]

  retry_pushes_lem :
      (rows : List CommitRow) (w : World G)
      → retry_pushes git cfg rows w ≡ (ok tt, pushed_each rows w)
  unfolding retry_pushes
  retry_pushes_lem [] w = refl
  retry_pushes_lem (r ∷ rs) w =
      let (sent, g) = git.push r.branch w.git in
      rw (retry_push_lem r w) (retry_pushes_lem rs (after_push r sent (record w { git = g })))

  verified :
      (head : Str) (w : World G)
      → git.get_head_sha cfg.default_branch w.git ≡ some head
      → verify_on_startup git cfg w ≡ (
          if verify_consistency cfg.default_branch head w.store
          then retry_pushes git cfg (get_pending_pushes w.store) w
          else (err mismatch_text, w))
  unfolding verify_on_startup
  verified head w h = elim (Bool-cases (verify_consistency cfg.default_branch head w.store)) [
    | inl e ↦ rw (h, e) refl
    | inr e ↦ rw (h, e) refl
  ]

  -- Starting up on a branch with a head, whose only stream was last set to a changelist and a commit:
  -- if that commit is not the head, as the empty one of an empty changelist never is, it raises and
  -- changes nothing; if it is, it returns after every push that is left was tried, in the order of the
  -- pending rows, and those that succeeded are marked; every stream stands where it stood.
  pub verify_on_startup_lem :
      (head stream sha other : Str) (cl : ℕ) (s : StateStore) (w : World G)
      → git.get_head_sha cfg.default_branch w.git ≡ some head
      → streams_of cfg.default_branch s ≡ stream ∷ []
      → w.store ≡ set_last_synced_cl stream cl sha s
      → (sha ≢ head → verify_on_startup git cfg w ≡ (err mismatch_text, w))
        × (sha ≡ head
            → (verify_on_startup git cfg w ≡ (ok tt, pushed_each (get_pending_pushes w.store) w))
              × StaysPut other w (verify_on_startup git cfg w))
  verify_on_startup_lem head stream sha other cl s w h o e =
      let same : verify_consistency cfg.default_branch head w.store ≡ str_eq sha head =
        ap (verify_consistency cfg.default_branch head) e
        ∙ verify_consistency-set_last_synced_cl cfg.default_branch head stream sha cl s o in
      (
        λ n. verified head w h ∙ rw (same, ne-str_eq sha head n) refl,
        λ k.
            let agrees : verify_consistency cfg.default_branch head w.store ≡ true =
              same ∙ rw k (str_eq_refl head) in
            let runs : verify_on_startup git cfg w
                ≡ retry_pushes git cfg (get_pending_pushes w.store) w =
              verified head w h ∙ rw agrees refl in
            (
              runs ∙ retry_pushes_lem (get_pending_pushes w.store) w,
              rw runs (retry_pushes-StaysPut other (get_pending_pushes w.store) w),
            ),
      )
