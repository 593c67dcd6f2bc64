-- ===== src/Monitor/Compare.antt =====
-- services/integrity_compare.py, without the texts of the verdicts.
pub mod Laws
use p4sync_git.Prelude.{
  ℕ, Bool, true, false, Option, none, some, List, [], ◌∷◌, ◌==◌, if◌then◌else◌,
}
use p4sync_git.Text.{Str, str_eq, lower}

pub data Verdict : Type 0 where
  matches mismatch need_content : Verdict

abbrev pub verdict : Bool → Verdict
verdict same = if same then matches else mismatch

unfoldable pub decide_normal : Str → Str → Verdict
decide_normal git_sha256 p4_sha256 = verdict (str_eq git_sha256 p4_sha256)

abbrev pub is_missing : Option Bool → Bool
is_missing (some false) = true
is_missing _ = false

abbrev pub has_size : ℕ → Option ℕ → Bool
has_size ptr_size none = true
has_size ptr_size (some p4_size) = ptr_size == p4_size

-- a digest that is `None` or empty is not there
abbrev pub digest : Option Str → Option Str
digest none = none
digest (some []) = none
digest (some (c ∷ s)) = some (lower (c ∷ s))

abbrev pub compare_digests : Option Str → Option Str → Verdict
compare_digests (some p4_md5) (some local_md5) = verdict (str_eq local_md5 p4_md5)
compare_digests _ _ = need_content

unfoldable pub decide_lfs : ℕ → Option Bool → Option ℕ → Option Str → Option Str → Verdict
decide_lfs ptr_size object_exists p4_size p4_md5 local_md5 =
    if is_missing object_exists
    then mismatch
    else if has_size ptr_size p4_size
    then compare_digests (digest p4_md5) (digest local_md5)
    else mismatch

unfoldable pub decide_lfs_content : Str → Str → Verdict
decide_lfs_content ptr_oid p4_content_sha256 = verdict (str_eq ptr_oid p4_content_sha256)
