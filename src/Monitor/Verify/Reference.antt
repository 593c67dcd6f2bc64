-- ===== src/Monitor/Verify/Reference.antt =====
-- What is to be said of one file, by the digests and sizes alone, and that the checker says it.
use p4sync_git.Prelude.{
  ℕ, ◌≡◌, refl, ap, ◌∙◌, inl, inr, Bool, true, false, not, ◌||◌, Bool-cases, Option-cases, Option,
  none, some, is_some, List, [], ◌∷◌, ◌==◌, if◌then◌else◌, is_empty,
}
use p4sync_git.Text.{Str, str_eq, lower}
use p4sync_git.Exec.{Result, ok, err}
use p4sync_git.Lfs.Pointer.{LfsPointer, is_lfs_pointer, parse_lfs_pointer}
use p4sync_git.Lfs.Store.{LfsObjectStore, object_path, file_at, exists}
use p4sync_git.Perforce.Head.{HeadMeta}
use p4sync_git.Monitor.Compare.{
  need_content, verdict, is_missing, decide_normal, decide_lfs, decide_lfs_content, compare_digests,
  digest,
}
use p4sync_git.Monitor.Verify.{
  Checker, bad, is_binary, depot_of, lfs_status, content_verdict, normal_verdict, pointer_item,
  item_of, md5_of, md5_of_meta, size_of_meta, object_exists, local_md5,
}
use p4sync_git.Monitor.Verify.Verdicts.{
  Heads, is_true, lfs_judged, lfs_verdict, judged, own_verdict,
}

module _ (c : Checker) (heads : Heads) where
  -- by a content of P4: `none` if there is none to compare, else whether its digest is another one
  abbrev pub by_content : Str → Option Str → Option Bool
  by_content sha none = none
  by_content sha (some content) = some (not (str_eq sha (c.sha256 content)))

  -- by the MD5 digests, if both are there
  abbrev pub by_digest : Str → Str → Option Bool → Option Bool
  by_digest p4_md5 local_md5 otherwise =
      if is_empty p4_md5 || is_empty local_md5
      then otherwise
      else some (not (str_eq (lower local_md5) (lower p4_md5)))

  abbrev pub by_object : Str → Option (List ℕ) → Option Bool → Option Bool
  by_object p4_md5 none otherwise = otherwise
  by_object p4_md5 (some content) otherwise = by_digest p4_md5 (c.md5 content) otherwise

  -- by the metadata of P4: another size differs, and the digest counts for a binary type only
  abbrev pub by_meta : ℕ → Option (List ℕ) → Option HeadMeta → Option Bool → Option Bool
  by_meta size object none otherwise = otherwise
  by_meta size object (some (p4_md5, p4_size, p4_type)) otherwise =
      if size == p4_size
      then (if is_binary p4_type then by_object p4_md5 object otherwise else otherwise)
      else some true

  abbrev pub by_file : ℕ → Option (List ℕ) → Option HeadMeta → Option Bool → Option Bool
  by_file size none meta otherwise = some true
  by_file size (some object) meta otherwise = by_meta size (some object) meta otherwise

  -- by the object of the pointer in the LFS store, which counts as a difference if it is missing
  abbrev pub by_store :
      LfsPointer → Option LfsObjectStore → Option HeadMeta → Option Bool → Option Bool
  by_store ptr none meta otherwise = by_meta ptr.size none meta otherwise
  by_store ptr (some store) meta otherwise =
      by_file ptr.size (file_at (object_path ptr.oid) store.objects) meta otherwise

  abbrev pub by_pointer : Str → Result LfsPointer → Option Bool
  by_pointer g (err e) = none
  by_pointer g (ok ptr) =
      by_store ptr c.lfs_store (heads.meta (depot_of c g))
        (by_content ptr.oid (heads.to_file (depot_of c g)))

  abbrev pub by_blob : Str → Option Str → Option Bool
  by_blob g none = none
  by_blob g (some blob) =
      if is_lfs_pointer blob
      then by_pointer g (parse_lfs_pointer blob)
      else by_content (c.sha256 blob) (heads.printed (depot_of c g))

  -- what is to be said of a file: nothing if it cannot be compared, else whether it is wrong
  unfoldable pub verdict_on : Str → Option Bool
  verdict_on g = by_blob g (c.git_blob g)

  abbrev pub is_checked : Str → Bool
  is_checked g = is_some (verdict_on g)

  abbrev pub is_wrong : Str → Bool
  is_wrong g = is_true (verdict_on g)

  bad-verdict : (b : Bool) → bad (verdict b) ≡ not b
  bad-verdict true = refl
  bad-verdict false = refl

  lfs_judged-verdict : (b : Bool) (o : Option Bool) → lfs_judged (verdict b) o ≡ some (not b)
  lfs_judged-verdict true o = refl
  lfs_judged-verdict false o = refl

  content_verdict_lem :
      (ptr : LfsPointer) (o : Option Str) → content_verdict c ptr o ≡ by_content ptr.oid o
  unfolding decide_lfs_content
  content_verdict_lem ptr none = refl
  content_verdict_lem ptr (some s) = ap some (bad-verdict (str_eq ptr.oid (c.sha256 s)))

  normal_verdict_lem : (sha : Str) (o : Option Str) → normal_verdict c sha o ≡ by_content sha o
  unfolding decide_normal
  normal_verdict_lem sha none = refl
  normal_verdict_lem sha (some s) = ap some (bad-verdict (str_eq sha (c.sha256 s)))

  compare_digests_lem :
      (p4_md5 local_md5 : Str) (o : Option Bool)
      → lfs_judged (compare_digests (digest (some p4_md5)) (digest (some local_md5))) o
        ≡ by_digest p4_md5 local_md5 o
  compare_digests_lem [] l o = refl
  compare_digests_lem (x ∷ p) [] o = refl
  compare_digests_lem (x ∷ p) (y ∷ l) o =
      lfs_judged-verdict (str_eq (lower (y ∷ l)) (lower (x ∷ p))) o

  compare_digests-none : (x : Option Str) → compare_digests x none ≡ need_content
  compare_digests-none none = refl
  compare_digests-none (some s) = refl

  -- what the decision makes of a size, a digest of P4 and the object
  object_lem :
      (p4_md5 : Str) (object : Option (List ℕ)) (o : Option Bool)
      → lfs_judged (compare_digests (digest (some p4_md5)) (digest (md5_of c object))) o
        ≡ by_object p4_md5 object o
  object_lem p4_md5 none o = ap (λ v. lfs_judged v o) (compare_digests-none (digest (some p4_md5)))
  object_lem p4_md5 (some content) o = compare_digests_lem p4_md5 (c.md5 content) o

  meta_lem :
      (size : ℕ) (there : Option Bool) (object : Option (List ℕ)) (meta : Option HeadMeta)
      (o : Option Bool)
      → is_missing there ≡ false
      → lfs_judged
          (decide_lfs size there (size_of_meta meta) (md5_of_meta meta) (md5_of c object))
          o
        ≡ by_meta size object meta o
  unfolding decide_lfs
  meta_lem size there object none o h = rw h refl
  meta_lem size there object (some (p4_md5, p4_size, p4_type)) o h =
      elim (Bool-cases (size == p4_size)) [
        | inl e ↦ elim (Bool-cases (is_binary p4_type)) [
          | inl b ↦ rw (h, e, b) (object_lem p4_md5 object o)
          | inr b ↦ rw (h, e, b) refl
        ]
        | inr e ↦ rw (h, e) refl
      ]

  store_lem :
      (ptr : LfsPointer) (store : Option LfsObjectStore) (meta : Option HeadMeta) (o : Option Bool)
      → lfs_judged
          (decide_lfs ptr.size
            (object_exists store ptr.oid)
            (size_of_meta meta)
            (md5_of_meta meta)
            (local_md5 c store ptr.oid))
          o
        ≡ by_store ptr store meta o
  unfolding exists decide_lfs
  store_lem ptr none meta o = meta_lem ptr.size none none meta o refl
  store_lem ptr (some store) meta o =
      elim (Option-cases (file_at (object_path ptr.oid) store.objects)) [
        | inl e ↦ rw e refl
        | inr (object, e) ↦ rw e (meta_lem ptr.size (some true) (some object) meta o refl)
      ]

  lfs_verdict_lem : (g : Str) (ptr : LfsPointer) → lfs_verdict c heads g ptr ≡ by_pointer g (ok ptr)
  unfolding lfs_verdict lfs_status
  lfs_verdict_lem g ptr =
      store_lem ptr c.lfs_store (heads.meta (depot_of c g))
        (content_verdict c ptr (heads.to_file (depot_of c g)))
      ∙ ap (by_store ptr c.lfs_store (heads.meta (depot_of c g)))
          (content_verdict_lem ptr (heads.to_file (depot_of c g)))

  pointer_lem :
      (g : Str) (p : Result LfsPointer) → judged c heads g (pointer_item p) ≡ by_pointer g p
  unfolding judged
  pointer_lem g (err e) = refl
  pointer_lem g (ok ptr) = lfs_verdict_lem g ptr

  blob_lem : (g : Str) (o : Option Str) → judged c heads g (item_of c o) ≡ by_blob g o
  unfolding judged
  blob_lem g none = refl
  blob_lem g (some blob) = elim (Bool-cases (is_lfs_pointer blob)) [
    | inl e ↦ rw e (pointer_lem g (parse_lfs_pointer blob))
    | inr e ↦ rw e (normal_verdict_lem (c.sha256 blob) (heads.printed (depot_of c g)))
  ]

  -- The checker says of each file what is to be said.
  pub own_verdict_lem : (g : Str) → own_verdict c heads g ≡ verdict_on g
  unfolding own_verdict verdict_on
  own_verdict_lem g = blob_lem g (c.git_blob g)
