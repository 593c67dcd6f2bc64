-- ===== src/Monitor/Verify.antt =====
-- services/integrity_checker.py: the comparison of the files of Git with those of P4. The digests of
-- hashlib, the choice of random.sample, and what git prints are parameters. Log lines are left out, and
-- so is the temporary file of a content that is hashed, which is always removed.
pub mod Run
pub mod Slices
pub mod Verdicts
pub mod Reference
pub mod Scope
pub mod Laws
use p4sync_git.Prelude.{
  ℕ, zero, suc, ◌+◌, ◌-◌, ◌*◌, min, max, Bool, true, false, not, ◌&&◌, ◌||◌, Option, none, some,
  is_some, List, [], ◌∷◌, ◌++◌, map, length, drop, keep, any, is_empty, leb, ltb, if◌then◌else◌,
}
use p4sync_git.Text.{Str, codes, str_eq, contains, split, starts_with}
use p4sync_git.Text.Strip.{strip_spaces}
use p4sync_git.Text.Dict.{Dict, dict_get, dict_set}
use p4sync_git.Exec.{Result, ok, err, and_then}
use p4sync_git.Paths.{slash}
use p4sync_git.Lfs.Pointer.{LfsPointer, is_lfs_pointer, parse_lfs_pointer}
use p4sync_git.Lfs.Store.{LfsObjectStore, exists, object_path, file_at}
use p4sync_git.Lfs.Routing.{P4TypeClass, text, binary, unknown, classify_p4_file_type}
use p4sync_git.Perforce.Head.{
  HeadServer, HeadMeta, head_digests, print_file_to_bytes_head, iter_file_sizes,
}
use p4sync_git.Monitor.Breaker.{
  IntegrityResult, CheckSchedule, daily_sample, weekly_full, monthly_random,
}
use p4sync_git.Monitor.Compare.{
  Verdict, matches, mismatch, need_content, decide_normal, decide_lfs, decide_lfs_content,
}

-- `create_client i` creates and connects the `i`-th client of a parallel check; `portion n` is a
-- random share of `n`; `ls_tree` and `git_blob` are `none` where git fails.
pub record Checker : Type 0 where
  pub p4 : HeadServer
  pub stream : Str
  pub daily_sample_count : ℕ
  pub lfs_store : Option LfsObjectStore
  pub create_client : Option (ℕ → Result HeadServer)
  pub max_workers : ℕ
  pub ls_tree : Option Str
  pub git_blob : Str → Option Str
  pub sha256 : Str → Str
  pub md5 : Str → Str
  pub sample : ℕ → List Str → List Str
  pub portion : ℕ → ℕ

-- what the checker makes of the blob of a file
pub data Item : Type 0 where
  skipped : Item
  lfs_item : LfsPointer → Item
  normal_item : Str → Item

abbrev pub pointer_item : Result LfsPointer → Item
pointer_item (ok ptr) = lfs_item ptr
pointer_item (err e) = skipped

abbrev pub bad : Verdict → Bool
bad matches = false
bad mismatch = true
bad need_content = false

abbrev pub Items : Type 0
Items = List (Str × LfsPointer) × List (Str × Str)

abbrev add_item : Str → Item → Items → Items
add_item g skipped items = items
add_item g (lfs_item ptr) (lfs_items, normals) = ((g, ptr) ∷ lfs_items, normals)
add_item g (normal_item sha) (lfs_items, normals) = (lfs_items, (g, sha) ∷ normals)

-- one file more: not checked, or checked and counted, and named if it does not match
abbrev pub tally : Str → Option Bool → ℕ × List Str → ℕ × List Str
tally g none (checked, mismatched) = (checked, mismatched)
tally g (some b) (checked, mismatched) = (suc checked, (if b then g ∷ mismatched else mismatched))

abbrev pub add_tallies : ℕ × List Str → ℕ × List Str → ℕ × List Str
add_tallies (n, ms) (k, ns) = (n + k, ms ++ ns)

-- a difference that was found, none, or what the contents say
abbrev pub settled : Verdict → Result (Option Bool) → Result (Option Bool)
settled matches by_content = ok (some false)
settled mismatch by_content = ok (some true)
settled need_content by_content = by_content

abbrev pub is_binary : Str → Bool
is_binary p4_type = elim (classify_p4_file_type p4_type) [
  | text ↦ false
  | binary ↦ true
  | unknown ↦ false
]

-- the digest counts for a binary type only
abbrev md5_of_meta : Option HeadMeta → Option Str
md5_of_meta none = none
md5_of_meta (some (p4_md5, p4_size, p4_type)) = if is_binary p4_type then some p4_md5 else none

abbrev size_of_meta : Option HeadMeta → Option ℕ
size_of_meta none = none
size_of_meta (some (p4_md5, p4_size, p4_type)) = some p4_size

abbrev object_exists : Option LfsObjectStore → Str → Option Bool
object_exists none oid = none
object_exists (some store) oid = some (exists oid store)

module _ (c : Checker) where
  unfoldable pub depot_of : Str → Str
  depot_of git_path = c.stream ++ (slash ∷ git_path)

  abbrev pub item_of : Option Str → Item
  item_of none = skipped
  item_of (some blob) =
      if is_lfs_pointer blob
      then pointer_item (parse_lfs_pointer blob)
      else normal_item (c.sha256 blob)

  -- the loop that sorts the files
  unfoldable pub classify : List Str → Items
  unfolding is_lfs_pointer parse_lfs_pointer
  classify [] = ([], [])
  classify (g ∷ gs) = add_item g (item_of (c.git_blob g)) (classify gs)

  abbrev md5_of : Option (List ℕ) → Option Str
  md5_of none = none
  md5_of (some content) = some (c.md5 content)

  abbrev local_md5 : Option LfsObjectStore → Str → Option Str
  local_md5 none oid = none
  local_md5 (some store) oid = md5_of (file_at (object_path oid) store.objects)

  unfoldable pub lfs_status : LfsPointer → Option HeadMeta → Verdict
  unfolding decide_lfs exists file_at classify_p4_file_type object_path
  lfs_status ptr meta =
      decide_lfs ptr.size (object_exists c.lfs_store ptr.oid) (size_of_meta meta) (md5_of_meta meta)
        (local_md5 c.lfs_store ptr.oid)

  -- `_verify_lfs_by_content`, of what was printed
  abbrev pub content_verdict : LfsPointer → Option Str → Option Bool
  content_verdict ptr none = none
  content_verdict ptr (some content) = some (bad (decide_lfs_content ptr.oid (c.sha256 content)))

  abbrev pub normal_verdict : Str → Option Str → Option Bool
  normal_verdict git_sha none = none
  normal_verdict git_sha (some content) = some (bad (decide_normal git_sha (c.sha256 content)))

  module _ (p4 : HeadServer) where
    unfoldable verify_lfs_by_content : LfsPointer → Str → Result (Option Bool)
    unfolding decide_lfs_content
    verify_lfs_by_content ptr depot =
        and_then (p4.print_to_file depot) (λ content. ok (content_verdict ptr content))

    unfoldable pub verify_lfs : Str → LfsPointer → Option HeadMeta → Result (Option Bool)
    unfolding lfs_status verify_lfs_by_content
    verify_lfs depot ptr meta = settled (lfs_status ptr meta) (verify_lfs_by_content ptr depot)

    unfoldable pub lfs_each : Dict HeadMeta → List (Str × LfsPointer) → Result (ℕ × List Str)
    unfolding verify_lfs dict_get depot_of
    lfs_each metas [] = ok (0, [])
    lfs_each metas ((g, ptr) ∷ items) =
        and_then (verify_lfs (depot_of g) ptr (dict_get (depot_of g) metas))
          (λ v. and_then (lfs_each metas items) (λ t. ok (tally g v t)))

    unfoldable pub normal_each : List (Str × Str) → Result (ℕ × List Str)
    unfolding depot_of print_file_to_bytes_head decide_normal
    normal_each [] = ok (0, [])
    normal_each ((g, git_sha) ∷ items) =
        and_then (print_file_to_bytes_head p4 (depot_of g)) (λ content.
          and_then (normal_each items) (λ t. ok (tally g (normal_verdict git_sha content) t)))

    abbrev pub metas_of : List (Str × LfsPointer) → Result (Dict HeadMeta)
    metas_of items =
        if is_empty items
        then ok []
        else head_digests p4 (map (λ (i : Str × LfsPointer). depot_of i.0) items)

    unfoldable pub verify_slice : List Str → Result (ℕ × List Str)
    unfolding classify lfs_each normal_each head_digests
    verify_slice git_paths =
        let (lfs_items, normals) = classify git_paths in
        and_then (metas_of lfs_items) (λ metas.
          and_then (lfs_each metas lfs_items)
            (λ a. and_then (normal_each normals) (λ b. ok (add_tallies a b))))
