-- ===== src/Import/Initial.antt =====
-- `_write_cl_to_importer` of services/initial_importer.py and what it calls: one extracted changelist
-- as a commit of `git fast-import`. The text of an exception begins with its class.
pub mod Laws
use p4sync_git.Prelude.{
  ℕ, zero, suc, ◌+◌, ◌%◌, Bool, true, false, not, ◌&&◌, ◌||◌, Option, none, some, List, [], ◌∷◌,
  ◌++◌, map, ltb, leb, ◌==◌, if◌then◌else◌, length, is_empty,
}
use p4sync_git.Text.{Str, codes, starts_with}
use p4sync_git.Exec.{Result, ok, err, Exec, ◌>>=◌, ◌>>◌, pure, raise, lift, gets, modify}
use p4sync_git.Git.Trailers.{CommitMetadata}
use p4sync_git.Git.FileMode.{FileChange, git_mode_file, git_mode_from_p4_type}
use p4sync_git.Lfs.Routing.{Target}
use p4sync_git.Perforce.Change.{P4FileAction, P4ChangeInfo}
use p4sync_git.State.Schema.{p4_to_git}
use p4sync_git.State.Connection.{StateStore}
use p4sync_git.State.SyncState.{set_last_synced_cl}
use p4sync_git.State.CommitMap.{record_commit}
use p4sync_git.State.Users.{Author, get_git_author}
use p4sync_git.Sync.Builder.{Contents, LfsSetup, file_spec, content_of}
use p4sync_git.Import.Stream.{
  FastImporter, fast_importer, Exit, start, begin_commit, write_file, write_files, write_deletes,
  end_commit, finish,
}

-- `_CLData`
pub record ClData : Type 0 where
  pub cl : ℕ
  pub info : P4ChangeInfo
  pub normal_results : List FileChange
  pub lfs_results : List FileChange
  pub deletes : List Str
  pub skipped : Bool
  pub streaming : Bool
  pub normal_files : List Target
  pub lfs_files : List Target

-- lists of at most `n` elements: `k` more fit into the present one, which holds `cur`
unfoldable pub chunks_from : {A : Type 0} → ℕ → ℕ → List A → List A → List (List A)
chunks_from n k [] [] = []
chunks_from n k (c ∷ cur) [] = (c ∷ cur) ∷ []
chunks_from n zero cur (x ∷ xs) = cur ∷ chunks_from n n (x ∷ []) xs
chunks_from n (suc k) cur (x ∷ xs) = chunks_from n k (cur ++ (x ∷ [])) xs

-- `[xs[s:s + n] for s in range(0, len(xs), n)]`, for an `n` of 1 or more
unfoldable pub chunks : {A : Type 0} → ℕ → List A → List (List A)
unfolding chunks_from
chunks zero xs = []
chunks (suc n) xs = chunks_from n (suc n) [] xs

abbrev pub batch_print_size : ℕ
batch_print_size = 200

abbrev pub extraction_error : Str
extraction_error = codes "ContentExtractionError"

abbrev pub missing_error : List Str → Exec FastImporter (Unit {0})
missing_error [] = pure tt
missing_error (m ∷ ms) = raise extraction_error

module _ (broken : Str → Bool) (p4 : Contents) where
  abbrev write_content :
      Target
      → Option (List ℕ)
      → (List Str → Exec FastImporter (List Str))
      → List Str
      → Exec FastImporter (List Str)
  write_content (fa, git_path) none rest missing = rest (missing ++ (file_spec fa ∷ []))
  write_content (fa, git_path) (some content) rest missing =
      write_file broken git_path content (git_mode_from_p4_type fa.file_type) >> rest missing

  -- the files of one chunk, and the specs of those that were not printed
  unfoldable pub write_chunk :
      List (Str × List ℕ) → List Target → List Str → Exec FastImporter (List Str)
  unfolding write_file
  write_chunk batch [] missing = pure missing
  write_chunk batch (t ∷ ts) missing =
      write_content t (content_of batch t.0) (write_chunk batch ts) missing

  unfoldable pub print_chunks : List (List Target) → List Str → Exec FastImporter (List Str)
  unfolding write_chunk
  print_chunks [] missing = pure missing
  print_chunks (ts ∷ tss) missing = do
    batch ← lift (p4.print_files_batch (map (λ (t : Target). file_spec t.0) ts))
    missing' ← write_chunk batch ts missing
    print_chunks tss missing'

  unfoldable pub stream_normal_to_importer : ClData → Exec FastImporter (Unit {0})
  unfolding print_chunks chunks
  stream_normal_to_importer d =
      print_chunks (chunks batch_print_size d.normal_files) [] >>= missing_error

  abbrev write_pointer :
      Target
      → Option (List ℕ)
      → (List Str → Exec FastImporter (List Str))
      → List Str
      → Exec FastImporter (List Str)
  write_pointer (fa, git_path) none rest missing = rest (missing ++ (file_spec fa ∷ []))
  write_pointer (fa, git_path) (some pointer) rest missing =
      write_file broken git_path pointer git_mode_file >> rest missing

  unfoldable pub write_pointers : List Target → List Str → Exec FastImporter (List Str)
  unfolding write_file
  write_pointers [] missing = pure missing
  write_pointers (t ∷ ts) missing = do
    pointer ← lift (p4.store_lfs t.0)
    write_pointer t pointer (write_pointers ts) missing

  unfoldable pub stream_lfs_to_importer : ClData → Exec FastImporter (Unit {0})
  unfolding write_pointers
  stream_lfs_to_importer d = write_pointers d.lfs_files [] >>= missing_error

  abbrev pub optional_config : Option (List ℕ) → Exec FastImporter (Unit {0})
  optional_config none = pure tt
  optional_config (some content) = write_file broken (codes ".lfsconfig") content git_mode_file

  -- the files of the LFS configuration, in the first commit of a run
  unfoldable pub write_config : ℕ → Option LfsSetup → Exec FastImporter (Unit {0})
  unfolding write_file
  write_config zero (some l) =
      if l.config.enabled
      then write_file broken (codes ".gitattributes") l.gitattributes git_mode_file
        >> optional_config l.lfsconfig
      else pure tt
  write_config index l = pure tt

  abbrev pub metadata_of : ClData → Author → CommitMetadata
  metadata_of d author = record {
    author_name = author.0;
    author_email = author.1;
    author_timestamp = d.info.timestamp;
    message = d.info.description;
    p4_changelist = d.cl;
    integration_info = none;
  }

  unfoldable pub write_cl :
      Option LfsSetup → Str → ℕ → ClData → Author → Exec FastImporter (Unit {0})
  unfolding begin_commit write_config write_deletes stream_normal_to_importer stream_lfs_to_importer
      write_files end_commit
  write_cl lfs branch index d author = do
    begin_commit broken branch (metadata_of d author)
    write_config index lfs
    write_deletes broken d.deletes
    if d.streaming
        then (stream_normal_to_importer d >> stream_lfs_to_importer d)
        else (write_files broken d.normal_results >> write_files broken d.lfs_results)
    end_commit broken
