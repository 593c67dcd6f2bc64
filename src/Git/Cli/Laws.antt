-- ===== src/Git/Cli/Laws.antt =====
-- The files that the two operators put into a commit.
use p4sync_git.Prelude.{
  ℕ, ◌≡◌, refl, ◌∙◌, Bool, true, false, Option, none, some, or_else, List, [], ◌∷◌, arith,
  if◌then◌else◌, Bool-cases, inl, inr,
}
use mathlib.Core.Option
use p4sync_git.Text.{Str, contains, split, str_eq}
use p4sync_git.Text.Dict.{Dict, dict_get, dict_set, dict_pop}
use p4sync_git.Text.Dict.Laws.{dict_get-dict_set, dict_get-dict_pop}
use p4sync_git.Text.Octal.{show_octal}
use p4sync_git.Exec.{ok}
use p4sync_git.Git.FileMode.{FileChange, unpack_change}
use p4sync_git.Git.Tree.{Blob, Tree, or_leaf, find, slash, blobs_of, build_tree_incremental, IsTree}
use p4sync_git.Git.Tree.Find.{changed}
use p4sync_git.Git.Tree.Laws.{is_clear_of, find-build_tree_incremental}
use p4sync_git.Git.Cli.{GitCli, Files, pop_all, hash_changes}

-- a blob as the command line has it
abbrev pub file_entry : Blob → Str × Str
file_entry (oid, mode) = (show_octal mode, oid)

dict_get-pop_all :
    (p : Str) (ds : List Str) (d : Files)
    → dict_get p (pop_all ds d) ≡ (if contains ds p then none else dict_get p d)
unfolding pop_all contains
dict_get-pop_all p [] d = refl
dict_get-pop_all p (q ∷ ds) d =
    ground (arith, dict_get-pop_all p ds (dict_pop q d), dict_get-dict_pop p q d)

same_choice :
    (new : Option Blob) (deleted : Bool) (o : Option (Str × Str)) (old : Option Blob)
    → o ≡ Option.map file_entry old
    → or_else (Option.map file_entry new) (if deleted then none else o)
      ≡ Option.map file_entry (changed new deleted old)
same_choice (some b) deleted o old h = refl
same_choice none true o old h = refl
same_choice none false o old h = h

module _ (create_blob : List ℕ → Str) where
  set_changes : List FileChange → Files → Files
  unfolding unpack_change
  set_changes [] d = d
  set_changes (item ∷ items) d =
      let (path, content, mode) = unpack_change item in
      set_changes items (dict_set path (show_octal mode, create_blob content) d)

  -- Both dictionaries are set by the same changes.
  dict_get-set_changes :
      (p : Str) (items : List FileChange) (d : Files) (bs : Dict Blob) (old : Option (Str × Str))
      → dict_get p d ≡ or_else (Option.map file_entry (dict_get p bs)) old
      → dict_get p (set_changes items d)
        ≡ or_else (Option.map file_entry (dict_get p (blobs_of create_blob items bs))) old
  unfolding set_changes blobs_of
  dict_get-set_changes p [] d bs old h = h
  dict_get-set_changes p (item ∷ items) d bs old h =
      let (path, content, mode) = unpack_change item in
      let oid = create_blob content in
      dict_get-set_changes p items (dict_set path (show_octal mode, oid) d)
        (dict_set path (oid, mode) bs) old
        (rw
          (
            dict_get-dict_set p path (show_octal mode, oid) d,
            dict_get-dict_set p path (oid, mode) bs,
          )
          (elim (Bool-cases (str_eq path p)) [ inl e ↦ rw e refl | inr e ↦ rw e h ]))

  module _ {G : Type 0} (cli : GitCli G) (sort_files : Files → Files)
      (hashes : (content : List ℕ) (g : G)
        → (cli.hash_object content g).0 ≡ ok (create_blob content)) where
    hash_changes-ok :
        (items : List FileChange) (d : Files) (g : G)
        → (hash_changes cli sort_files items d g).0 ≡ ok (set_changes items d)
    unfolding hash_changes set_changes
    hash_changes-ok [] d g = refl
    hash_changes-ok (item ∷ items) d g =
        let (path, content, mode) = unpack_change item in
        rw (hashes content g) (
          hash_changes-ok items (dict_set path (show_octal mode, create_blob content) d)
            (cli.hash_object content g).1)

    -- If Git hashes every content as the library does, hashing the changes succeeds, and the dictionary
    -- of files that it returns holds, at each path that is clear of the other changes, the file that the
    -- tree of the library holds there, when the two start from the same file.
    pub hash_changes-eq-find :
        (prev : Option Tree) (existing : Files) (changes : List FileChange) (deletes : List Str)
        (g : G)
        → IsTree (or_leaf prev)
        → (files : Files) × ((hash_changes cli sort_files changes (pop_all deletes existing) g).0
            ≡ ok files)
          × ((p : Str)
              → is_clear_of p (blobs_of create_blob changes []) deletes ≡ true
              → dict_get p existing ≡ Option.map file_entry (find (split slash p) (or_leaf prev))
              → dict_get p files
                ≡ Option.map file_entry (
                    find (split slash p) (build_tree_incremental create_blob prev changes deletes)))
    unfolding dict_get
    hash_changes-eq-find prev existing changes deletes g t = (
      set_changes changes (pop_all deletes existing),
      hash_changes-ok changes (pop_all deletes existing) g,
      λ p c h. rw (find-build_tree_incremental create_blob prev changes deletes p t c) (
          dict_get-set_changes p changes (pop_all deletes existing) []
            (if contains deletes p then none else dict_get p existing)
            (dict_get-pop_all p deletes existing)
          ∙ same_choice (dict_get p (blobs_of create_blob changes [])) (contains deletes p)
              (dict_get p existing) (find (split slash p) (or_leaf prev)) h),
    )
