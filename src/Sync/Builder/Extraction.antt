-- ===== src/Sync/Builder/Extraction.antt =====
-- What the builder of services/commit_builder.py takes over from a changelist.
use p4sync_git.Prelude.{
  ℕ, ◌≡◌, true, false, Any, All, ◌≢◌, ◌⊎◌, Option, none, some, List, [], ◌∷◌, map,
}
use p4sync_git.Text.{Str, contains}
use p4sync_git.Exec.{Result, ok, err}
use p4sync_git.Git.FileMode.{FileChange, git_mode_from_p4_type}
use p4sync_git.Lfs.Routing.{Target}
use p4sync_git.Perforce.Change.{P4FileAction, P4ChangeInfo, delete_actions, add_edit_actions}
use p4sync_git.Sync.Builder.{Contents, CommitBuilder, Found, target_path, file_spec}

-- What becomes of each file of a changelist, in their order: the files to add or edit with their
-- paths in Git, and the paths to delete.
pub data Classified (b : CommitBuilder) : List P4FileAction → List Target → List Str → Type 0 where
  finished : Classified b [] [] []
  outside :
      (fa : P4FileAction) (files : List P4FileAction) (ts : List Target) (ds : List Str)
      → target_path b fa ≡ none
      → Classified b files ts ds
      → Classified b (fa ∷ files) ts ds
  deleted :
      (fa : P4FileAction) (g : Str) (files : List P4FileAction) (ts : List Target) (ds : List Str)
      → target_path b fa ≡ some g
      → contains delete_actions fa.action ≡ true
      → Classified b files ts ds
      → Classified b (fa ∷ files) ts (g ∷ ds)
  written :
      (fa : P4FileAction) (g : Str) (files : List P4FileAction) (ts : List Target) (ds : List Str)
      → target_path b fa ≡ some g
      → contains delete_actions fa.action ≡ false
      → contains add_edit_actions fa.action ≡ true
      → Classified b files ts ds
      → Classified b (fa ∷ files) ((fa, g) ∷ ts) ds
  other :
      (fa : P4FileAction) (g : Str) (files : List P4FileAction) (ts : List Target) (ds : List Str)
      → target_path b fa ≡ some g
      → contains delete_actions fa.action ≡ false
      → contains add_edit_actions fa.action ≡ false
      → Classified b files ts ds
      → Classified b (fa ∷ files) ts ds

module _ (p4 : Contents) where
  abbrev pub batch : List Target → Result (List (Str × List ℕ))
  batch all = p4.print_files_batch (map (λ (t : Target). file_spec t.0) all)

  abbrev pub single : P4FileAction → Result (Option (List ℕ))
  single fa = p4.print_file_to_bytes fa.depot_path fa.revision

  -- P4 printed the content for the file: by itself where it is the only one, else in one batch of all.
  abbrev pub Printed : List Target → P4FileAction → List ℕ → Type 0
  Printed [] fa x = ⊥
  Printed (t ∷ []) fa x = single fa ≡ ok (some x)
  Printed (t ∷ u ∷ ts) fa x =
      (results : List (Str × List ℕ)) × (batch (t ∷ u ∷ ts) ≡ ok results)
      × Any (λ (r : Str × List ℕ). r ≡ (fa.depot_path, x)) results

  -- P4 printed nothing for the file, though the call did not fail.
  abbrev pub NotPrinted : List Target → Target → Type 0
  NotPrinted [] v = ⊥
  NotPrinted (t ∷ []) v = single v.0 ≡ ok none
  NotPrinted (t ∷ u ∷ ts) v =
      (results : List (Str × List ℕ)) × (batch (t ∷ u ∷ ts) ≡ ok results)
      × All (λ (r : Str × List ℕ). r.0 ≢ v.0.depot_path) results

  -- each file gives one change: at its path, with what P4 printed, and with the mode of its type
  abbrev pub Changes : List Target → List Target → List FileChange → Type 0
  Changes all [] [] = Unit
  Changes all [] (c ∷ cs) = ⊥
  Changes all (t ∷ ts) [] = ⊥
  Changes all (t ∷ ts) (c ∷ cs) =
      (c.path ≡ t.1)
      × (c.mode ≡ some (git_mode_from_p4_type t.0.file_type))
      × Printed all t.0 c.content
      × Changes all ts cs

  -- the call to P4 failed
  abbrev pub Failed : List Target → Str → Type 0
  Failed [] e = ⊥
  Failed (t ∷ []) e = single t.0 ≡ err e
  Failed (t ∷ u ∷ ts) e = batch (t ∷ u ∷ ts) ≡ err e

  abbrev Extracted : List Target → Result (List FileChange) → Type 0
  Extracted ts (ok changes) = Changes ts ts changes
  Extracted ts (err e) = Failed ts e ⊎ Any (NotPrinted ts) ts

  -- what is known of a gathering of the files `ts`
  abbrev Gathered : List Target → List Target → Found → Type 0
  Gathered all ts (changes, []) = Changes all ts changes
  Gathered all ts (changes, m ∷ missing) = Any (NotPrinted all) ts

  abbrev Reads : List Target → (P4FileAction → Option (List ℕ)) → Type 0
  Reads all read =
      (t : Target)
      → ((x : List ℕ) → read t.0 ≡ some x → Printed all t.0 x)
        × (read t.0 ≡ none → NotPrinted all t)

module _ (p4 : Contents) where
  abbrev pub Known : List Target → List Str → Result (List FileChange × List Str) → Type 0
  Known ts ds (ok (changes, deletes)) = Changes p4 ts ts changes × (deletes ≡ ds)
  Known ts ds (err e) = Failed p4 ts e ⊎ Any (NotPrinted p4 ts) ts

  abbrev pub Outcome : CommitBuilder → P4ChangeInfo → Result (List FileChange × List Str) → Type 0
  Outcome b info r =
      (ts : List Target) × (ds : List Str) × Classified b info.files ts ds × Known ts ds r
