-- ===== src/Lfs/Store.antt =====
-- lfs/lfs_object_store.py and lfs/lfs_store_factory.py: the contents of large files, each under
-- the path that its digest names. `hexdigest` is `hashlib.sha256(...).hexdigest()` of what was
-- given to `update`, one after the other. A path of an object is its three parts below
-- `_objects_dir`; that of a temporary file is its name below `_tmp_dir`.
pub mod Laws
use p4sync_git.Prelude.{
  ℕ, ◌+◌, ◌-◌, Bool, true, false, ◌&&◌, Option, none, some, List, [], ◌∷◌, ◌++◌, ltb, if◌then◌else◌,
  is_some, length, take, drop,
}
use p4sync_git.Text.{Str, codes, str_eq}
use p4sync_git.Exec.{Result, ok, err, Exec, ◌>>=◌, ◌>>◌, pure, raise, gets, modify, try_except}
use p4sync_git.Lfs.Pointer.{LfsPointer, format_lfs_pointer}

-- an entry of the temporary directory
pub record TmpFile : Type 0 where
  pub name : Str
  pub content : List ℕ
  pub mtime : ℕ
  pub is_file : Bool

abbrev pub ObjectPath : Type 0
ObjectPath = Str × Str × Str

pub record LfsObjectStore : Type 0 where
  pub objects : List (ObjectPath × List ℕ)
  pub tmp : List TmpFile

-- an iterable of chunks, which may raise
pub data Chunks : Type 0 where
  done : Chunks
  raises : Str → Chunks
  chunk : List ℕ → Chunks → Chunks

unfoldable pub object_path : Str → ObjectPath
object_path oid = (take 2 oid, take 2 (drop 2 oid), oid)

unfoldable pub path_eq : ObjectPath → ObjectPath → Bool
unfolding str_eq
path_eq (a, b, c) (x, y, z) = str_eq a x && (str_eq b y && str_eq c z)

-- the file at a path
unfoldable pub file_at : ObjectPath → List (ObjectPath × List ℕ) → Option (List ℕ)
unfolding path_eq
file_at p [] = none
file_at p ((q, content) ∷ files) = if path_eq q p then some content else file_at p files

unfoldable pub exists : Str → LfsObjectStore → Bool
unfolding object_path file_at
exists oid s = is_some (file_at (object_path oid) s.objects)

unfoldable pub retrieve : Str → LfsObjectStore → Result ObjectPath
unfolding exists
retrieve oid s =
    if exists oid s then ok (object_path oid) else err (codes "LFS object not found: " ++ oid)

abbrev pub on_tmp : (List TmpFile → List TmpFile) → LfsObjectStore → LfsObjectStore
on_tmp f s = record s { tmp = f s.tmp }

-- `mkstemp`, with the name it chose
abbrev pub mkstemp : Str → ℕ → List TmpFile → List TmpFile
mkstemp name now files = (record { name = name; content = []; mtime = now; is_file = true }) ∷ files

unfoldable pub append_to : Str → List ℕ → List TmpFile → List TmpFile
unfolding str_eq
append_to name bytes [] = []
append_to name bytes (f ∷ files) =
    if str_eq f.name name
    then (record f { content = f.content ++ bytes }) ∷ files
    else f ∷ append_to name bytes files

-- `unlink(missing_ok=True)`
unfoldable pub unlink : Str → List TmpFile → List TmpFile
unfolding str_eq
unlink name [] = []
unlink name (f ∷ files) = if str_eq f.name name then files else f ∷ unlink name files

unfoldable pub tmp_content : Str → List TmpFile → Option (List ℕ)
unfolding str_eq
tmp_content name [] = none
tmp_content name (f ∷ files) = if str_eq f.name name then some f.content else tmp_content name files

-- `os.replace` of a temporary file
abbrev move : ObjectPath → Str → Option (List ℕ) → Exec LfsObjectStore (Unit {0})
move dest name none = raise (codes "FileNotFoundError")
move dest name (some content) =
    modify (λ s. record s { objects = (dest, content) ∷ s.objects; tmp = unlink name s.tmp })

unfoldable pub replace : ObjectPath → Str → Exec LfsObjectStore (Unit {0})
unfolding tmp_content unlink
replace dest name s = move dest name (tmp_content name s.tmp) s

abbrev pub pointer_of : Str → ℕ → LfsPointer
pointer_of oid size = record { oid = oid; size = size; pointer_bytes = format_lfs_pointer oid size }

-- also the second half of `store_from_file`
unfoldable pub finalize : Str → ℕ → Str → Exec LfsObjectStore LfsPointer
unfolding exists replace unlink
finalize oid size name = do
  known ← gets (exists oid)
  if known then modify (on_tmp (unlink name)) else replace (object_path oid) name
  pure (pointer_of oid size)

-- the loop over the chunks, and what was written by it
unfoldable pub write_chunks : Str → List ℕ → Chunks → Exec LfsObjectStore (List ℕ)
unfolding append_to
write_chunks name written done = pure written
write_chunks name written (raises e) = raise e
write_chunks name written (chunk c rest) =
    modify (on_tmp (append_to name c)) >> write_chunks name (written ++ c) rest

-- what `cleanup_tmp` removes, on a directory whose entries can be read and removed
abbrev is_stale : ℕ → ℕ → TmpFile → Bool
is_stale now older_than f =
    if f.is_file then (if ltb 0 older_than then not_before else true) else false
  where
    not_before : Bool
    not_before = if ltb (now - f.mtime) older_than then false else true

unfoldable pub cleanup : ℕ → ℕ → List TmpFile → ℕ × List TmpFile
cleanup now older_than [] = (0, [])
cleanup now older_than (f ∷ files) =
    let (removed, kept) = cleanup now older_than files in
    if is_stale now older_than f then (removed + 1, kept) else (removed, f ∷ kept)

unfoldable pub cleanup_tmp : ℕ → ℕ → LfsObjectStore → ℕ × LfsObjectStore
unfolding cleanup
cleanup_tmp now older_than s =
    let (removed, kept) = cleanup now older_than s.tmp in (removed, record s { tmp = kept })

-- `build_lfs_store`, over what stands below each directory of a repository
unfoldable pub build_lfs_store : (Str → LfsObjectStore) → Str → Bool → Bool → Option LfsObjectStore
build_lfs_store disk repo_path bare enabled =
    if enabled then some (disk (if bare then repo_path else repo_path ++ codes "/.git")) else none

module _ (hexdigest : List ℕ → Str) where
  unfoldable pub store_from_stream : Str → ℕ → Chunks → Exec LfsObjectStore LfsPointer
  unfolding write_chunks finalize unlink
  store_from_stream name now chunks =
      modify (on_tmp (mkstemp name now))
      >> try_except
          (write_chunks name [] chunks >>= λ content.
            finalize (hexdigest content) (length content) name)
          (λ e. modify (on_tmp (unlink name)) >> raise e)

  -- a source below the temporary directory, which cannot be opened if it is missing
  abbrev store_content : Str → Option (List ℕ) → Exec LfsObjectStore LfsPointer
  store_content name none = raise (codes "FileNotFoundError")
  store_content name (some content) = finalize (hexdigest content) (length content) name

  unfoldable pub store_from_file : Str → Exec LfsObjectStore LfsPointer
  unfolding finalize tmp_content
  store_from_file name s = store_content name (tmp_content name s.tmp) s
