-- ===== src/Sync/Reverse/Laws.antt =====
-- That nothing is brought back and forth, and that a conflict is a common file.
use p4sync_git.Prelude.{
  ◌+◌, ◌⊎◌, inl, inr, ◌++◌, map, Any, ◌↔◌, Bool-cases, both_true, ℕ, ◌≤◌, ◌≡◌, ◌≢◌, All, or_else,
  refl, ◌∙◌, sym, subst, Bool, true, false, ◌&&◌, Option, none, some, List, [], ◌∷◌, arith, length,
  take, is_some,
}
use p4sync_git.Text.{Str, str_eq, contains, is_hex}
use p4sync_git.Text.Laws.{str_eq_iff, str_eq_refl, str_eq→eq}
use p4sync_git.Exec.{Result, ok, err, continue, Result-cases}
use p4sync_git.Sql.{fetch_one, upsert}
use p4sync_git.Sql.Sort.{sort_by, insert_by}
use p4sync_git.Paths.{normalize_path}
use p4sync_git.Git.Trailers.{parse_git_commit_from_description}
use p4sync_git.Git.Trailers.Laws.{parse_git_commit-written}
use p4sync_git.State.Schema.{CommitRow, git_to_p4, SyncDirection}
use p4sync_git.State.Connection.{StateStore}
use p4sync_git.State.Connection.Laws.{write-conn}
use p4sync_git.State.SyncState.{get_last_reverse_sync_sha, set_last_reverse_sync_sha}
use p4sync_git.State.SyncState.Laws.{get_last_reverse_sync_sha-set}
use p4sync_git.State.CommitMap.{get_commit_sha_by_sha, record_commit}
use p4sync_git.State.Users.{get_p4_user}
use p4sync_git.Sync.Reverse.{
  GitCommit, is_new_commit, ConflictInfo, common_files, p4_files, git_files, conflict_of, detect,
  str_leb, build_description, sync_commit, after_commit, reverse_sync,
}

contains-common_files :
    (f : Str) (p4 git : List Str)
    → contains (common_files p4 git) f ≡ (contains p4 f && contains git f)
unfolding common_files contains
contains-common_files f [] git = refl
contains-common_files f (g ∷ p4) git =
    ground (arith, contains-common_files f p4 git, contains-common_files g p4 git, str_eq_iff g f)

contains-insert_by :
    (f g : Str) (fs : List Str) → contains (insert_by str_leb g fs) f ≡ contains (g ∷ fs) f
unfolding insert_by contains
contains-insert_by f g [] = refl
contains-insert_by f g (h ∷ fs) = ground (arith, contains-insert_by f g fs)

contains-sort_by : (f : Str) (fs : List Str) → contains (sort_by str_leb fs) f ≡ contains fs f
unfolding sort_by contains
contains-sort_by f [] = refl
contains-sort_by f (g ∷ fs) =
    contains-insert_by f g (sort_by str_leb fs) ∙ ground (arith, contains-sort_by f fs)

-- P4 changed a file of this normal path
abbrev pub P4Changed : List (ℕ × List Str) → Str → Type 0
P4Changed ps f = Any (λ (p : ℕ × List Str). Any (λ path. normalize_path path ≡ f) p.1) ps

-- a commit changed or deleted a file of this normal path
abbrev pub GitChanged : (Str → List Str × List Str) → List GitCommit → Str → Type 0
GitChanged commit_files cs f =
    Any
      (λ (c : GitCommit).
        let (changed, deleted) = commit_files c.sha in
        Any (λ path. normalize_path path ≡ f) changed
        ⊎ Any (λ path. normalize_path path ≡ f) deleted)
      cs

-- what a detection says of the files that are changed on both sides
abbrev pub Detected : (Str → Type 0) → Option ConflictInfo → Type 0
Detected Both none = (f : Str) → Both f → ⊥
Detected Both (some info) = (f : Str) → ((contains info.conflict_files f ≡ true) ↔ Both f)

module _ (f : Str) where
  abbrev IsPath : List Str → Type 0
  IsPath files = Any (λ path. normalize_path path ≡ f) files

  there : {C : Type 0} (p : Str) (files : List Str) → IsPath files ⊎ C → IsPath (p ∷ files) ⊎ C
  there p files (inl a) = inl (inr a)
  there p files (inr c) = inr c

  not_here :
      {C : Type 0} (p : Str) (files : List Str)
      → str_eq (normalize_path p) f ≡ false
      → IsPath (p ∷ files) ⊎ C
      → IsPath files ⊎ C
  not_here p files e (inl (inl q)) = absurd (ground (arith, e, q, str_eq_refl f))
  not_here p files e (inl (inr a)) = inl a
  not_here p files e (inr c) = inr c

  contains-paths :
      (files rest : List Str)
      → (contains (map normalize_path files ++ rest) f ≡ true)
        ↔ (IsPath files ⊎ (contains rest f ≡ true))
  unfolding contains
  contains-paths [] rest = (λ h. inr h, λ h. elim h [ inl x ↦ absurd x | inr k ↦ k ])
  contains-paths (p ∷ files) rest = elim (Bool-cases (str_eq (normalize_path p) f)) [
    | inl e ↦ (λ h. inl (inl (str_eq→eq (normalize_path p) f e)), λ h. rw e refl)
    | inr e ↦ (
      λ h. there p files ((contains-paths files rest).0 (rw e at h)),
      λ h. rw e ((contains-paths files rest).1 (not_here p files e h)),
    )
  ]

  p4_files-P4Changed :
      (ps : List (ℕ × List Str)) → (contains (p4_files ps) f ≡ true) ↔ P4Changed ps f
  unfolding p4_files contains
  p4_files-P4Changed [] = (λ h. cc, λ h. absurd h)
  p4_files-P4Changed ((cl, files) ∷ ps) =
      let (to, from) = contains-paths files (p4_files ps) in
      let (below, above) = p4_files-P4Changed ps in
      (
        λ h. elim (to h) [ inl a ↦ inl a | inr k ↦ inr (below k) ],
        λ h. from (elim h [ inl a ↦ inl a | inr k ↦ inr (above k) ]),
      )

  module _ (commit_files : Str → List Str × List Str) where
    git_files-GitChanged :
        (cs : List GitCommit)
        → (contains (git_files commit_files cs) f ≡ true) ↔ GitChanged commit_files cs f
    unfolding git_files contains
    git_files-GitChanged [] = (λ h. cc, λ h. absurd h)
    git_files-GitChanged (c ∷ cs) =
        let (changed, deleted) = commit_files c.sha in
        let (to, from) =
          contains-paths changed (map normalize_path deleted ++ git_files commit_files cs) in
        let (to', from') = contains-paths deleted (git_files commit_files cs) in
        let (below, above) = git_files-GitChanged cs in
        (
          λ h. elim (to h) [
            | inl a ↦ inl (inl a)
            | inr k ↦ elim (to' k) [ inl b ↦ inl (inr b) | inr l ↦ inr (below l) ]
          ],
          λ h. from (elim h [
            | inl a ↦ elim a [ inl b ↦ inl b | inr d ↦ inr (from' (inl d)) ]
            | inr k ↦ inr (from' (inr (above k)))
          ]),
        )

    -- the two lists have the file exactly if both sides changed it
    both_lists :
        (ps : List (ℕ × List Str)) (cs : List GitCommit)
        → ((contains (p4_files ps) f && contains (git_files commit_files cs) f) ≡ true)
          ↔ (P4Changed ps f × GitChanged commit_files cs f)
    both_lists ps cs =
        let (a, b) = p4_files-P4Changed ps in
        let (c, d) = git_files-GitChanged cs in
        (
          λ h.
              let (k, l) =
                both_true (contains (p4_files ps) f) (contains (git_files commit_files cs) f) h in
              (a k, c l),
          λ h. rw (b h.0, d h.1) refl,
        )

module _ (commit_files : Str → List Str × List Str) (branch : Str) where
  conflict_of-Detected :
      (ps ps' : List (ℕ × List Str)) (cs cs' : List GitCommit) (files : List Str)
      → ((f : Str)
          → contains files f ≡ (contains (p4_files ps) f && contains (git_files commit_files cs) f))
      → Detected
          (λ f. P4Changed ps f × GitChanged commit_files cs f)
          (conflict_of branch ps' cs' files)
  unfolding contains
  conflict_of-Detected ps ps' cs cs' [] h =
      λ f k. let e = h f ∙ (both_lists f commit_files ps cs).1 k in cc
  conflict_of-Detected ps ps' cs cs' (g ∷ files) h = λ f.
      let (to, from) = both_lists f commit_files ps cs in
      (λ e. to (sym (h f) ∙ e), λ k. h f ∙ from k)

  -- A conflict is found exactly if some file, by its path below the stream, was changed in P4 and
  -- changed or deleted by a commit, and it names all such files and no other.
  pub detect_lem :
      (ps : List (ℕ × List Str)) (cs : List GitCommit)
      → Detected
          (λ f. P4Changed ps f × GitChanged commit_files cs f)
          (detect commit_files branch ps cs)
  unfolding detect
  detect_lem [] cs = λ f h. absurd h.0
  detect_lem (p ∷ ps) [] = λ f h. absurd h.1
  detect_lem (p ∷ ps) (c ∷ cs) =
      let p4 = p4_files (p ∷ ps) in
      let git = git_files commit_files (c ∷ cs) in
      conflict_of-Detected (p ∷ ps) (p ∷ ps) (c ∷ cs) (c ∷ cs)
        (sort_by str_leb (common_files p4 git))
        (λ f. contains-sort_by f (common_files p4 git) ∙ contains-common_files f p4 git)

-- a change of a table keeps some row that meets a query, if the new and the changed rows meet it
is_some-fetch_one-upsert :
    (q conflict : CommitRow → Bool) (change : CommitRow → CommitRow) (r : CommitRow)
    (rs : List CommitRow)
    → q r ≡ true
    → ((x : CommitRow) → q (change x) ≡ true)
    → is_some (fetch_one q (upsert conflict change r rs)) ≡ true
unfolding fetch_one upsert
is_some-fetch_one-upsert q conflict change r [] h k = ground arith
is_some-fetch_one-upsert q conflict change r (x ∷ rs) h k =
    ground (arith, k x, is_some-fetch_one-upsert q conflict change r rs h k)

get_commit_sha_by_sha-record_commit :
    (now cl : ℕ) (sha stream branch : Str) (i : Bool) (d : SyncDirection) (s : StateStore)
    → is_some (get_commit_sha_by_sha sha (record_commit now cl sha stream branch i d s)) ≡ true
unfolding get_commit_sha_by_sha record_commit
get_commit_sha_by_sha-record_commit now cl sha stream branch i d s = rw write-conn (
    is_some-fetch_one-upsert (λ r. str_eq r.commit_sha sha) _ _ _ s.conn.cl_commit_map
      (str_eq_refl sha) (λ x. str_eq_refl sha))

module _ (submit : Str → Str → Option Str → Result ℕ) where
  abbrev pub NotAgain : GitCommit → Result ℕ × StateStore → Type 0
  NotAgain c (ok cl, s) = is_new_commit s c ≡ false
  NotAgain c (err e, s) = Unit

  after_submit :
      (now : ℕ) (stream : Str) (c : GitCommit) (branch : Str) (r : Result ℕ) (s : StateStore)
      → NotAgain c (
          continue r
            (λ cl t. (ok cl, record_commit now cl c.sha stream branch false git_to_p4 t))
            s)
  unfolding is_new_commit
  after_submit now stream c branch (ok cl) s =
      ground
        (arith, get_commit_sha_by_sha-record_commit now cl c.sha stream branch false git_to_p4 s)
  after_submit now stream c branch (err e) s = tt

  -- A Git commit that was submitted to P4 is not detected as new again.
  pub sync_commit-NotAgain :
      (now : ℕ) (stream : Str) (c : GitCommit) (branch : Str) (s : StateStore)
      → NotAgain c (sync_commit submit now stream c branch s)
  unfolding sync_commit
  sync_commit-NotAgain now stream c branch s = after_submit now stream c branch _ s

  -- the commit up to which the branch is processed: the last of some, or what it was
  abbrev pub last_sha_or : Option Str → List GitCommit → Option Str
  last_sha_or o [] = o
  last_sha_or o (c ∷ cs) = last_sha_or (some c.sha) cs

  after_submit-keeps :
      (now : ℕ) (stream : Str) (c : GitCommit) (branch : Str) (r : Result ℕ) (s : StateStore)
      → get_last_reverse_sync_sha branch
          (continue r
            (λ cl t. (ok cl, record_commit now cl c.sha stream branch false git_to_p4 t))
            s).1
        ≡ get_last_reverse_sync_sha branch s
  unfolding get_last_reverse_sync_sha record_commit
  after_submit-keeps now stream c branch (ok cl) s = rw write-conn
  after_submit-keeps now stream c branch (err e) s = refl

  sync_commit-keeps :
      (now : ℕ) (stream : Str) (c : GitCommit) (branch : Str) (s : StateStore)
      → get_last_reverse_sync_sha branch (sync_commit submit now stream c branch s).1
        ≡ get_last_reverse_sync_sha branch s
  unfolding sync_commit
  sync_commit-keeps now stream c branch s = after_submit-keeps now stream c branch _ s

  -- P4 takes every commit
  abbrev pub Accepts : Type 0
  Accepts =
      (description sha : Str) (user : Option Str) → (cl : ℕ) × (submit description sha user ≡ ok cl)

  after_submit-ok :
      (now : ℕ) (stream : Str) (c : GitCommit) (branch : Str) (r : Result ℕ) (s : StateStore)
      → (cl : ℕ) × (r ≡ ok cl)
      → (cl : ℕ) × ((continue r
            (λ cl t. (ok cl, record_commit now cl c.sha stream branch false git_to_p4 t))
            s).0
          ≡ ok cl)
  after_submit-ok now stream c branch (ok n) s (cl, e) = (n, refl)
  after_submit-ok now stream c branch (err x) s (cl, e) = (cl, ground (arith, e))

  sync_commit-ok :
      (now : ℕ) (stream : Str) (c : GitCommit) (branch : Str) (s : StateStore)
      → Accepts
      → (cl : ℕ) × ((sync_commit submit now stream c branch s).0 ≡ ok cl)
  unfolding sync_commit
  sync_commit-ok now stream c branch s k =
      after_submit-ok now stream c branch _ s
        (k (build_description c) c.sha (get_p4_user c.author_email s))

  -- what a run over some commits leaves
  abbrev pub Processed : Str → List GitCommit → Option Str → ℕ × StateStore → Type 0
  Processed branch cs before (n, s) =
      (n ≤ length cs)
      × (Accepts → n ≡ length cs)
      × (get_last_reverse_sync_sha branch s ≡ last_sha_or before (take n cs))

  after_commit-Processed :
      (branch : Str) (c : GitCommit) (cs : List GitCommit) (r : Result ℕ) (before : Option Str)
      (rest : StateStore → ℕ × StateStore) (s : StateStore)
      → get_last_reverse_sync_sha branch s ≡ before
      → (Accepts → (cl : ℕ) × (r ≡ ok cl))
      → ((t : StateStore)
          → get_last_reverse_sync_sha branch t ≡ some c.sha
          → Processed branch cs (some c.sha) (rest t))
      → Processed branch (c ∷ cs) before (after_commit submit branch c r rest s)
  after_commit-Processed branch c cs (ok cl) before rest s h a k =
      let t = set_last_reverse_sync_sha branch c.sha s in
      let (b, all, e) =
        k t (
          ground
            (arith, get_last_reverse_sync_sha-set branch branch c.sha s, str_eq_refl branch)) in
      (ground (arith, b), λ x. ground (arith, all x), ground (arith, e))
  after_commit-Processed branch c cs (err e) before rest s h a k =
      (omega arith, λ x. let (cl, q) = a x in ground (arith, q), h)

  reverse_sync-Processed :
      (now : ℕ) (stream branch : Str) (cs : List GitCommit) (s : StateStore)
      → Processed branch cs
          (get_last_reverse_sync_sha branch s)
          (reverse_sync submit now stream branch cs s)
  unfolding reverse_sync
  reverse_sync-Processed now stream branch [] s = (omega arith, λ x. refl, refl)
  reverse_sync-Processed now stream branch (c ∷ cs) s =
      let (r, s') = sync_commit submit now stream c branch s in
      after_commit-Processed branch c cs r _ (reverse_sync submit now stream branch cs) s'
        (sync_commit-keeps now stream c branch s) (sync_commit-ok now stream c branch s)
        (λ t e.
          subst (λ o. Processed branch cs o (reverse_sync submit now stream branch cs t)) e
            (reverse_sync-Processed now stream branch cs t))

  -- How some commits are submitted: each with its description, its sha and the user of its author, as
  -- long as P4 takes them; a submitted one is recorded, and the first that is refused ends it.
  abbrev pub Submitted : ℕ → Str → Str → List GitCommit → StateStore → ℕ × StateStore → Type 0
  Submitted now stream branch [] s (n, t) = (n ≡ 0) × (t ≡ s)
  Submitted now stream branch (c ∷ cs) s (n, t) =
      let answer = submit (build_description c) c.sha (get_p4_user c.author_email s) in
      ((cl : ℕ) × (m : ℕ) × (answer ≡ ok cl)
        × (n ≡ m + 1)
        × Submitted now stream branch cs
            (set_last_reverse_sync_sha branch c.sha
              (record_commit now cl c.sha stream branch false git_to_p4 s))
            (m, t))
      ⊎ ((e : Str) × (answer ≡ err e) × (n ≡ 0) × (t ≡ s))

  reverse_sync-Submitted :
      (now : ℕ) (stream branch : Str) (cs : List GitCommit) (s : StateStore)
      → Submitted now stream branch cs s (reverse_sync submit now stream branch cs s)
  unfolding reverse_sync sync_commit
  reverse_sync-Submitted now stream branch [] s = (refl, refl)
  reverse_sync-Submitted now stream branch (c ∷ cs) s =
      let answer = submit (build_description c) c.sha (get_p4_user c.author_email s) in
      elim (Result-cases answer) [
        | inl (cl, e) ↦
            let t =
              set_last_reverse_sync_sha branch c.sha
                (record_commit now cl c.sha stream branch false git_to_p4 s) in
            rw e (
              inl (
                cl,
                (reverse_sync submit now stream branch cs t).0,
                refl,
                refl,
                reverse_sync-Submitted now stream branch cs t,
              ))
        | inr (x, e) ↦ rw e (inr (x, refl, refl, refl))
      ]

  -- The commits are submitted one after the other, each with its description and the user of its
  -- author, and recorded, up to the first that P4 refuses, which changes nothing; the branch is
  -- processed up to the last that was submitted, and if P4 takes every commit all of them are.
  pub reverse_sync_lem :
      (now : ℕ) (stream branch : Str) (cs : List GitCommit) (s : StateStore)
      → Submitted now stream branch cs s (reverse_sync submit now stream branch cs s)
        × Processed branch cs
            (get_last_reverse_sync_sha branch s)
            (reverse_sync submit now stream branch cs s)
  reverse_sync_lem now stream branch cs s =
      (reverse_sync-Submitted now stream branch cs s, reverse_sync-Processed now stream branch cs s)

-- The description written for a submitted commit, whose sha is hexadecimal and not empty, is
-- read back as that commit, unless the message has a GitCommit marker of its own, which is
-- read then.
pub parse_git_commit-build_description :
    (c : GitCommit)
    → c.sha ≢ []
    → All (λ d. is_hex d ≡ true) c.sha
    → parse_git_commit_from_description (build_description c)
      ≡ or_else (parse_git_commit_from_description c.message) (some c.sha)
unfolding build_description
parse_git_commit-build_description c n h = parse_git_commit-written c.message c.sha n h
