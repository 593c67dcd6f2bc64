-- ===== src/State/Users.antt =====
-- The methods over `user_mappings`, and the cache of authors in front of it.
pub mod Laws
use p4sync_git.Prelude.{
  ℕ, ◌+◌, Bool, true, false, Option, none, some, List, [], ◌∷◌, ◌++◌, ltb, if◌then◌else◌, length,
}
use p4sync_git.Text.{Str, str_eq}
use p4sync_git.Sql.{fetch_one, upsert, delete_where}
use p4sync_git.State.Schema.{UserRow, Db}
use p4sync_git.State.Connection.{StateStore, write}

abbrev pub Author : Type 0
Author = Str × Str

abbrev pub author_cache_ttl : ℕ
author_cache_ttl = 300

unfoldable pub user_row : Str → Db → Option UserRow
user_row p4_user db = fetch_one (λ r. str_eq r.p4_user p4_user) db.user_mappings

abbrev pub at_char : ℕ
at_char = b'@'

abbrev pub author_of : Str → Str → Option UserRow → Author
author_of p4_user domain none = (p4_user, p4_user ++ (at_char ∷ domain))
author_of p4_user domain (some r) = (r.git_name, r.git_email)

-- the clearing of a cache older than its time to live
abbrev pub refresh : ℕ → StateStore → StateStore
refresh now s =
    if ltb (s.author_cache_time + author_cache_ttl) now
    then record s { author_cache = []; author_cache_time = now }
    else s

abbrev pub Entry : Type 0
Entry = Str × Author

abbrev pub cached : Str → List (Str × (Str × Str)) → Option Entry
cached p4_user = fetch_one (λ e. str_eq e.0 p4_user)

abbrev pub from_cache : Str → Str → StateStore → Option Entry → Author × StateStore
from_cache p4_user domain s (some e) = (e.1, s)
from_cache p4_user domain s none =
    let author = author_of p4_user domain (user_row p4_user s.conn) in
    (author, record s { author_cache = (p4_user, author) ∷ s.author_cache })

-- `now` is `time.monotonic()`.
unfoldable pub get_git_author : ℕ → Str → Str → StateStore → Author × StateStore
unfolding user_row fetch_one
get_git_author now p4_user domain s =
    let s' = refresh now s in from_cache p4_user domain s' (cached p4_user s'.author_cache)

abbrev pub put_user : Str → Str → Str → Db → Db
put_user p4_user git_name git_email db = record db {
  user_mappings =
      upsert (λ r. str_eq r.p4_user p4_user)
        (λ r. record r { git_name = git_name; git_email = git_email })
        (record { p4_user = p4_user; git_name = git_name; git_email = git_email }) db.user_mappings;
}

unfoldable pub upsert_user_mapping : Str → Str → Str → StateStore → StateStore
unfolding delete_where
upsert_user_mapping p4_user git_name git_email s =
    let s' = write (put_user p4_user git_name git_email) s in
    record s' { author_cache = delete_where (λ e. str_eq e.0 p4_user) s'.author_cache }

-- `executemany`
unfoldable pub put_users : List (Str × Str × Str) → Db → Db
put_users [] db = db
put_users ((u, n, e) ∷ rest) db = put_users rest (put_user u n e db)

unfoldable pub bulk_upsert_user_mappings : List (Str × Str × Str) → StateStore → ℕ × StateStore
unfolding put_users
bulk_upsert_user_mappings mappings s =
    let s' = write (put_users mappings) s in (length mappings, record s' { author_cache = [] })

abbrev user_of : Option UserRow → Option Str
user_of none = none
user_of (some r) = some r.p4_user

-- SQL leaves open which of several users of one address is fetched: here it is the first.
unfoldable pub get_p4_user : Str → StateStore → Option Str
get_p4_user git_email s =
    user_of (fetch_one (λ r. str_eq r.git_email git_email) s.conn.user_mappings)
