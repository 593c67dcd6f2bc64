-- ===== src/Monitor/Verify/Verdicts.antt =====
-- What one connection finds, against what is said of each file by itself.
use p4sync_git.Prelude.{
  ℕ, ◌+◌, ◌≡◌, refl, ap, ◌∙◌, Bool, true, false, Option, none, some, is_some, List, [], ◌∷◌, map,
  arith, if◌then◌else◌, All,
}
use p4sync_git.Text.{Str, str_eq}
use p4sync_git.Text.Dict.{Dict, dict_get}
use p4sync_git.Exec.{ok}
use p4sync_git.Lfs.Pointer.{LfsPointer, is_lfs_pointer, parse_lfs_pointer}
use p4sync_git.Import.Tree.Order.{count, count-append}
use p4sync_git.Perforce.Head.{HeadServer, HeadMeta, head_digests, print_file_to_bytes_head}
use p4sync_git.Monitor.Compare.{Verdict, matches, mismatch, need_content}
use p4sync_git.Monitor.Verify.{
  Checker, Item, skipped, lfs_item, normal_item, item_of, Items, tally, classify, add_item,
  depot_of, lfs_status, content_verdict, normal_verdict, verify_lfs, lfs_each, normal_each,
  metas_of, add_tallies, verify_slice,
}
use p4sync_git.Monitor.Verify.Slices.{sum_of}

-- What P4 has at the head: the metadata, and what it prints to memory and to a file.
pub record Heads : Type 0 where
  pub meta : Str → Option HeadMeta
  pub printed : Str → Option Str
  pub to_file : Str → Option Str

-- A connection that does not fail and reports what P4 has, in batches of any kind.
pub record IsReporting (heads : Heads) (p4 : HeadServer) : Type 0 where
  pub prints : (depot : Str) → print_file_to_bytes_head p4 depot ≡ ok (heads.printed depot)
  pub writes : (depot : Str) → p4.print_to_file depot ≡ ok (heads.to_file depot)
  pub digests :
      (depots : List Str)
      → (d : Dict HeadMeta) × (head_digests p4 depots ≡ ok d)
        × All (λ (x : Str). dict_get x d ≡ heads.meta x) depots

abbrev pub one_if : Bool → ℕ
one_if b = if b then 1 else 0

abbrev pub is_true : Option Bool → Bool
is_true none = false
is_true (some b) = b

abbrev pub lfs_judged : Verdict → Option Bool → Option Bool
lfs_judged matches by_content = some false
lfs_judged mismatch by_content = some true
lfs_judged need_content by_content = by_content

module _ (c : Checker) (heads : Heads) where
  -- the verdict on an LFS file
  unfoldable pub lfs_verdict : Str → LfsPointer → Option Bool
  unfolding depot_of lfs_status
  lfs_verdict g ptr =
      lfs_judged (lfs_status c ptr (heads.meta (depot_of c g)))
        (content_verdict c ptr (heads.to_file (depot_of c g)))

  unfoldable pub judged : Str → Item → Option Bool
  unfolding depot_of lfs_status
  judged g skipped = none
  judged g (lfs_item ptr) = lfs_verdict g ptr
  judged g (normal_item git_sha) = normal_verdict c git_sha (heads.printed (depot_of c g))

  -- what the checker says of one file by itself: nothing, or whether it differs
  unfoldable pub own_verdict : Str → Option Bool
  unfolding depot_of lfs_status is_lfs_pointer parse_lfs_pointer
  own_verdict g = judged g (item_of c (c.git_blob g))

  abbrev pub is_counted : Str → Bool
  is_counted g = is_some (own_verdict g)

  abbrev pub is_named : Str → Bool
  is_named g = is_true (own_verdict g)

  -- the tallies of the two loops
  abbrev lfs_tally : List (Str × LfsPointer) → ℕ × List Str
  lfs_tally [] = (0, [])
  lfs_tally ((g, ptr) ∷ items) = tally g (lfs_verdict g ptr) (lfs_tally items)

  abbrev normal_tally : List (Str × Str) → ℕ × List Str
  normal_tally [] = (0, [])
  normal_tally ((g, sha) ∷ items) =
      tally g (normal_verdict c sha (heads.printed (depot_of c g))) (normal_tally items)

  -- the two tallies together
  abbrev pub both : Items → ℕ × List Str
  both (items, normals) = add_tallies (lfs_tally items) (normal_tally normals)

  -- what a file adds to the number of differing files named `x`
  abbrev pub named : Str → Option Bool → Str → ℕ
  named x v g = if is_true v then one_if (str_eq g x) else 0

  count-tally :
      (x g : Str) (v : Option Bool) (t : ℕ × List Str)
      → count x (tally g v t).1 ≡ named x v g + count x t.1
  count-tally x g none t = omega arith
  count-tally x g (some false) t = omega arith
  count-tally x g (some true) t = refl

  tally_checked :
      (g : Str) (v : Option Bool) (t : ℕ × List Str) → (tally g v t).0 ≡ one_if (is_some v) + t.0
  tally_checked g none t = omega arith
  tally_checked g (some b) t = omega arith

  both_checked :
      (g : Str) (it : Item) (items : Items)
      → (both (add_item g it items)).0 ≡ one_if (is_some (judged g it)) + (both items).0
  unfolding judged
  both_checked g skipped (ls, ns) = omega arith
  both_checked g (lfs_item ptr) (ls, ns) =
      omega (arith, tally_checked g (lfs_verdict g ptr) (lfs_tally ls))
  both_checked g (normal_item sha) (ls, ns) =
      let v = normal_verdict c sha (heads.printed (depot_of c g)) in
      omega (arith, tally_checked g v (normal_tally ns))

  both-named :
      (x g : Str) (it : Item) (items : Items)
      → count x (both (add_item g it items)).1 ≡ named x (judged g it) g + count x (both items).1
  unfolding judged
  both-named x g skipped (ls, ns) = omega arith
  both-named x g (lfs_item ptr) (ls, ns) =
      let t = tally g (lfs_verdict g ptr) (lfs_tally ls) in
      omega (
        arith,
        count-append x t.1 (normal_tally ns).1,
        count-append x (lfs_tally ls).1 (normal_tally ns).1,
        count-tally x g (lfs_verdict g ptr) (lfs_tally ls),
      )
  both-named x g (normal_item sha) (ls, ns) =
      let v = normal_verdict c sha (heads.printed (depot_of c g)) in
      omega (
        arith,
        count-append x (lfs_tally ls).1 (tally g v (normal_tally ns)).1,
        count-append x (lfs_tally ls).1 (normal_tally ns).1,
        count-tally x g v (normal_tally ns),
      )

  abbrev pub weight : Str → ℕ
  weight g = one_if (is_counted g)

  abbrev pub naming : Str → Str → ℕ
  naming x g = named x (own_verdict g) g

  pub classify_checked : (gs : List Str) → (both (classify c gs)).0 ≡ sum_of weight gs
  unfolding classify own_verdict
  classify_checked [] = refl
  classify_checked (g ∷ gs) =
      both_checked g (item_of c (c.git_blob g)) (classify c gs)
      ∙ ap (λ n. weight g + n) (classify_checked gs)

  pub classify_named :
      (x : Str) (gs : List Str) → count x (both (classify c gs)).1 ≡ sum_of (naming x) gs
  unfolding classify own_verdict
  classify_named x [] = refl
  classify_named x (g ∷ gs) =
      both-named x g (item_of c (c.git_blob g)) (classify c gs)
      ∙ ap (λ n. naming x g + n) (classify_named x gs)

  module _ (p4 : HeadServer) (r : IsReporting heads p4) where
    verify_lfs_case :
        (g : Str) (ptr : LfsPointer) (v : Verdict)
        → lfs_status c ptr (heads.meta (depot_of c g)) ≡ v
        → verify_lfs c p4 (depot_of c g) ptr (heads.meta (depot_of c g)) ≡ ok (lfs_verdict g ptr)
    unfolding verify_lfs lfs_verdict
    verify_lfs_case g ptr matches e = rw e refl
    verify_lfs_case g ptr mismatch e = rw e refl
    verify_lfs_case g ptr need_content e = rw (e, r.writes (depot_of c g)) refl

    verify_lfs_lem :
        (g : Str) (ptr : LfsPointer)
        → verify_lfs c p4 (depot_of c g) ptr (heads.meta (depot_of c g)) ≡ ok (lfs_verdict g ptr)
    verify_lfs_lem g ptr = verify_lfs_case g ptr (lfs_status c ptr (heads.meta (depot_of c g))) refl

    lfs_each_lem :
        (d : Dict HeadMeta) (items : List (Str × LfsPointer))
        → All
            (λ (x : Str). dict_get x d ≡ heads.meta x)
            (map (λ (i : Str × LfsPointer). depot_of c i.0) items)
        → lfs_each c p4 d items ≡ ok (lfs_tally items)
    unfolding lfs_each
    lfs_each_lem d [] h = refl
    lfs_each_lem d ((g, ptr) ∷ items) h =
        rw (h.0, verify_lfs_lem g ptr, lfs_each_lem d items h.1) refl

    normal_each_lem : (items : List (Str × Str)) → normal_each c p4 items ≡ ok (normal_tally items)
    unfolding normal_each
    normal_each_lem [] = refl
    normal_each_lem ((g, sha) ∷ items) = rw (r.prints (depot_of c g), normal_each_lem items) refl

    metas_lem :
        (items : List (Str × LfsPointer))
        → (d : Dict HeadMeta) × (metas_of c p4 items ≡ ok d)
          × All
              (λ (x : Str). dict_get x d ≡ heads.meta x)
              (map (λ (i : Str × LfsPointer). depot_of c i.0) items)
    metas_lem [] = ([], refl, tt)
    metas_lem (i ∷ items) = r.digests (map (λ (i : Str × LfsPointer). depot_of c i.0) (i ∷ items))

    pub verify_slice_lem : (gs : List Str) → verify_slice c p4 gs ≡ ok (both (classify c gs))
    unfolding verify_slice
    verify_slice_lem gs =
        let (items, normals) = classify c gs in
        let (d, e, h) = metas_lem items in
        rw (e, lfs_each_lem d items h, normal_each_lem normals) refl
