-- ===== src/Import/Stream.antt =====
-- git/fast_importer.py: what is written to `git fast-import`. Texts are their UTF-8 bytes. `broken`
-- says whether the pipe of the process is broken once it was given so much, and `run` what the
-- process makes of all it was given: its end and the repository then.
pub mod Laws
use p4sync_git.Prelude.{
  ℕ, zero, suc, ◌+◌, ◌/◌, ◌%◌, Bool, Option, none, some, List, [], ◌∷◌, ◌++◌, ltb, if◌then◌else◌,
  length,
}
use p4sync_git.Text.{Str, codes}
use p4sync_git.Text.Decimal.{show_nat}
use p4sync_git.Text.Octal.{show_octal}
use p4sync_git.Exec.{Result, ok, err, Exec, ◌>>=◌, ◌>>◌, pure, gets, modify}
use p4sync_git.Git.Trailers.{CommitMetadata, format_message}
use p4sync_git.Git.FileMode.{FileChange, unpack_change}

-- `proc` is what the running process was given, if one runs.
pub record FastImporter : Type 0 where
  pub proc : Option Str
  pub mark : ℕ

-- a process that ends, and one that does not within the ten seconds that `finish` waits
pub data Exit : Type 0 where
  exited : ℕ → Exit
  hung : Exit

abbrev pub fast_importer : FastImporter
fast_importer = record { proc = none; mark = 0 }

unfoldable pub start : FastImporter → FastImporter
start f = record f { proc = some [] }

-- what announces a block of data: its length
unfoldable pub data_line : List ℕ → Str
data_line bytes = codes "data " ++ (show_nat (length bytes) ++ codes "\n")

unfoldable pub signature : Str → CommitMetadata → Str
signature role m =
    role
    ++ (codes " "
        ++ (m.author_name
            ++ (codes " <"
                ++ (m.author_email
                    ++ (codes "> " ++ (show_nat m.author_timestamp ++ codes " +0000\n"))))))

unfoldable pub commit_head : Str → ℕ → CommitMetadata → Str
unfolding signature
commit_head branch mark m =
    codes "commit refs/heads/"
    ++ (branch
        ++ (codes "\nmark :"
            ++ (show_nat mark
                ++ (codes "\n"
                    ++ (signature (codes "author") m ++ signature (codes "committer") m)))))

unfoldable pub file_line : Str → ℕ → Str
unfolding show_octal
file_line path mode = codes "M " ++ (show_octal mode ++ (codes " inline " ++ (path ++ codes "\n")))

unfoldable pub delete_line : Str → Str
delete_line path = codes "D " ++ (path ++ codes "\n")

module _ (broken : Str → Bool) where
  abbrev give : Str → FastImporter → Option Str → Result (Unit {0}) × FastImporter
  give bytes f none = (err (codes "OSError: fast-import 프로세스가 실행 중이 아닙니다"), f)
  give bytes f (some out) =
      if broken out
      then (err (codes "OSError: broken pipe"), f)
      else (ok tt, record f { proc = some (out ++ bytes) })

  unfoldable pub write_bytes : Str → Exec FastImporter (Unit {0})
  write_bytes bytes f = give bytes f f.proc

  unfoldable pub begin_commit : Str → CommitMetadata → Exec FastImporter ℕ
  unfolding write_bytes commit_head data_line
  begin_commit branch m = do
    modify (λ f. record f { mark = f.mark + 1 })
    mark ← gets (λ f. f.mark)
    write_bytes (commit_head branch mark m ++ data_line (format_message m))
    write_bytes (format_message m ++ codes "\n")
    pure mark

  unfoldable pub write_file : Str → List ℕ → ℕ → Exec FastImporter (Unit {0})
  unfolding write_bytes file_line data_line
  write_file path content mode = do
    write_bytes (file_line path mode)
    write_bytes (data_line content)
    write_bytes (content ++ codes "\n")

  unfoldable pub write_delete : Str → Exec FastImporter (Unit {0})
  unfolding write_bytes delete_line
  write_delete path = write_bytes (delete_line path)

  unfoldable pub end_commit : Exec FastImporter (Unit {0})
  unfolding write_bytes
  end_commit = write_bytes (codes "\n")

  unfoldable pub write_files : List FileChange → Exec FastImporter (Unit {0})
  unfolding write_file
  write_files [] = pure tt
  write_files (item ∷ items) =
      let (path, content, mode) = unpack_change item in
      write_file path content mode >> write_files items

  unfoldable pub write_deletes : List Str → Exec FastImporter (Unit {0})
  unfolding write_delete
  write_deletes [] = pure tt
  write_deletes (path ∷ paths) = write_delete path >> write_deletes paths

  unfoldable pub add_commit :
      Str → CommitMetadata → List FileChange → List Str → Exec FastImporter ℕ
  unfolding begin_commit write_files write_deletes end_commit
  add_commit branch m files deletes = do
    mark ← begin_commit branch m
    write_files files
    write_deletes deletes
    end_commit
    pure mark

  -- a mark of 0 is none
  abbrev merge_line : Option ℕ → Option Str → Str
  merge_line (some (suc n)) ref = codes "merge :" ++ (show_nat (suc n) ++ codes "\n")
  merge_line mark none = []
  merge_line mark (some []) = []
  merge_line mark (some (c ∷ ref)) = codes "merge " ++ ((c ∷ ref) ++ codes "\n")

  unfoldable pub add_merge_commit :
      Str
      → Option ℕ
      → Option Str
      → CommitMetadata
      → List FileChange
      → List Str
      → Exec FastImporter ℕ
  unfolding begin_commit write_files write_deletes end_commit
  add_merge_commit branch from_mark from_ref m files deletes = do
    mark ← begin_commit branch m
    write_bytes (merge_line from_mark from_ref)
    write_files files
    write_deletes deletes
    end_commit
    pure mark

  unfoldable pub checkpoint : Exec FastImporter (Unit {0})
  unfolding write_bytes
  checkpoint = write_bytes (codes "checkpoint\n\n")

module _ {G : Type 0} (run : Str → G → Exit × G) where
  -- A process that hangs is killed, and its code is not read again: `returncode or 0` is 0.
  abbrev code_of : Exit → ℕ
  code_of (exited rc) = rc
  code_of hung = 0

  abbrev ended : FastImporter → Option Str → G → ℕ × FastImporter × G
  ended f none g = (0, f, g)
  ended f (some out) g = let (e, g') = run out g in (code_of e, record f { proc = none }, g')

  unfoldable pub finish : FastImporter → G → ℕ × FastImporter × G
  finish f g = ended f f.proc g
