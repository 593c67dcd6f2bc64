-- ===== src/State/Users/Laws.antt =====
-- The author cache never shows another author than the table does.
use p4sync_git.Prelude.{ℕ, ◌≡◌, refl, some, List, [], ◌∷◌, arith, All, Option-cases, inl, inr, ◌∙◌}
use p4sync_git.Text.{Str, str_eq}
use p4sync_git.Text.Laws.{str_eq_iff, str_eq_refl}
use p4sync_git.Sql.{fetch_one, delete_where}
use p4sync_git.Sql.Laws.{fetch_one-upsert}
use p4sync_git.State.Schema.{UserRow, Db}
use p4sync_git.State.Connection.{StateStore, write}
use p4sync_git.State.Connection.Laws.{write-conn}
use p4sync_git.State.Users.{
  user_row, author_of, cached, refresh, from_cache, get_git_author, put_user, upsert_user_mapping,
  bulk_upsert_user_mappings,
}

-- Every cached author is the one that the table, or the default domain, gives.
abbrev IsCoherentWith : Str → Db → List (Str × (Str × Str)) → Type 0
IsCoherentWith domain db = All (λ e. e.1 ≡ author_of e.0 domain (user_row e.0 db))

abbrev pub IsCoherent : Str → StateStore → Type 0
IsCoherent domain s = IsCoherentWith domain s.conn s.author_cache

cached-IsCoherent :
    (domain p4_user : Str) (db : Db) (cache : List (Str × (Str × Str))) (e : Str × (Str × Str))
    → IsCoherentWith domain db cache
    → cached p4_user cache ≡ some e
    → e.1 ≡ author_of p4_user domain (user_row p4_user db)
unfolding fetch_one
cached-IsCoherent domain p4_user db [] e c h = ground arith
cached-IsCoherent domain p4_user db (x ∷ cache) e c h =
    ground (arith, str_eq_iff x.0 p4_user, cached-IsCoherent domain p4_user db cache e c.1)

refresh-IsCoherent :
    (domain : Str) (now : ℕ) (s : StateStore)
    → IsCoherent domain s
    → IsCoherent domain (refresh now s)
refresh-IsCoherent domain now s c = ground arith

-- With a cache that agrees with the table, the author returned is the one that the table gives
-- now, or the P4 user at the default domain if the table has none, whether or not it came from
-- the cache, and at any age of the cache.
pub get_git_author_lem :
    (now : ℕ) (p4_user domain : Str) (s : StateStore)
    → IsCoherent domain s
    → (get_git_author now p4_user domain s).0 ≡ author_of p4_user domain (user_row p4_user s.conn)
unfolding get_git_author user_row
get_git_author_lem now p4_user domain s c =
    lookup_in (refresh now s) (ground arith) (refresh-IsCoherent domain now s c)
  where
    lookup_in :
        (t : StateStore)
        → t.conn ≡ s.conn
        → IsCoherent domain t
        → (from_cache p4_user domain t (cached p4_user t.author_cache)).0
          ≡ author_of p4_user domain (user_row p4_user s.conn)
    lookup_in t e ct = elim (Option-cases (cached p4_user t.author_cache)) [
      | inl miss ↦ rw (miss, e)
      | inr (entry, hit) ↦
          rw (hit, ← e) (cached-IsCoherent domain p4_user t.conn t.author_cache entry ct hit)
    ]

-- Looking an author up keeps the cache coherent, and leaves the tables, the file and the
-- transaction alone.
pub get_git_author-IsCoherent :
    (now : ℕ) (p4_user domain : Str) (s : StateStore)
    → IsCoherent domain s
    → IsCoherent domain (get_git_author now p4_user domain s).1
unfolding get_git_author user_row fetch_one
get_git_author-IsCoherent now p4_user domain s c =
    elim (Option-cases (cached p4_user (refresh now s).author_cache)) [
      | inl miss ↦ rw miss (refl, refresh-IsCoherent domain now s c)
      | inr (entry, hit) ↦ rw hit (refresh-IsCoherent domain now s c)
    ]

pub get_git_author_keeps :
    (now : ℕ) (p4_user domain : Str) (s : StateStore)
    → let s' = (get_git_author now p4_user domain s).1 in
      (s'.conn ≡ s.conn) × (s'.disk ≡ s.disk) × (s'.in_transaction ≡ s.in_transaction)
unfolding get_git_author
get_git_author_keeps now p4_user domain s = ground arith

-- dropping a user's entry makes room for any change of that user's row
delete_where-IsCoherent :
    (domain p4_user git_name git_email : Str) (db : Db) (cache : List (Str × (Str × Str)))
    → IsCoherentWith domain db cache
    → IsCoherentWith domain
        (put_user p4_user git_name git_email db)
        (delete_where (λ e. str_eq e.0 p4_user) cache)
unfolding delete_where user_row
delete_where-IsCoherent domain p4_user git_name git_email db [] c = tt
delete_where-IsCoherent domain p4_user git_name git_email db (x ∷ cache) c = ground (
  arith,
  str_eq_iff x.0 p4_user,
  str_eq_iff p4_user x.0,
  fetch_one-upsert str_eq str_eq_iff (λ (r : UserRow). r.p4_user) p4_user x.0
      (λ r. record r { git_name = git_name; git_email = git_email })
      (record { p4_user = p4_user; git_name = git_name; git_email = git_email }) db.user_mappings
      refl (λ r. refl),
  delete_where-IsCoherent domain p4_user git_name git_email db cache c.1,
)

write-author_cache :
    (change : Db → Db) (s : StateStore) → (write change s).author_cache ≡ s.author_cache
unfolding write
write-author_cache change s = ground arith

-- Changing a user's mapping keeps the cache coherent with the table, whatever was cached before.
pub upsert_user_mapping-IsCoherent :
    (domain p4_user git_name git_email : Str) (s : StateStore)
    → IsCoherent domain s
    → IsCoherent domain (upsert_user_mapping p4_user git_name git_email s)
unfolding upsert_user_mapping
upsert_user_mapping-IsCoherent domain p4_user git_name git_email s c =
    rw (write-conn, write-author_cache)
      (delete_where-IsCoherent domain p4_user git_name git_email s.conn s.author_cache c)

bulk_upsert_user_mappings-IsCoherent :
    (domain : Str) (mappings : List (Str × Str × Str)) (s : StateStore)
    → IsCoherent domain (bulk_upsert_user_mappings mappings s).1
unfolding bulk_upsert_user_mappings
bulk_upsert_user_mappings-IsCoherent domain mappings s = tt

-- After a mapping is stored, where the cache agreed with the table, the user's author is that
-- mapping.
pub get_git_author-upsert :
    (now : ℕ) (domain p4_user git_name git_email : Str) (s : StateStore)
    → IsCoherent domain s
    → (get_git_author now p4_user domain (upsert_user_mapping p4_user git_name git_email s)).0
      ≡ (git_name, git_email)
unfolding user_row upsert_user_mapping
get_git_author-upsert now domain p4_user git_name git_email s c =
    get_git_author_lem now p4_user domain (upsert_user_mapping p4_user git_name git_email s)
      (upsert_user_mapping-IsCoherent domain p4_user git_name git_email s c)
    ∙ rw write-conn (
        ground (
          arith,
          str_eq_refl p4_user,
          fetch_one-upsert str_eq str_eq_iff (λ (r : UserRow). r.p4_user) p4_user p4_user
              (λ r. record r { git_name = git_name; git_email = git_email })
              (record { p4_user = p4_user; git_name = git_name; git_email = git_email })
              s.conn.user_mappings refl (λ r. refl),
        ))
