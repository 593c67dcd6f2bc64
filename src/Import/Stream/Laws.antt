-- ===== src/Import/Stream/Laws.antt =====
-- What is written for the files of a commit is read back, whatever bytes they hold.
use mathlib.Core.List.{append-nil, append_assoc}
use p4sync_git.Prelude.{
  ℕ, zero, suc, ◌≡◌, refl, ap, sym, ◌∙◌, Bool, false, Option, none, some, List, [], ◌∷◌, ◌++◌, map,
  arith, length, take, drop, take-append, drop-append, ◌==◌, if◌then◌else◌, All,
}
use p4sync_git.Text.{Str, codes, starts_with, before_char, after_char, is_digit}
use p4sync_git.Text.Decimal.{show_nat, read_nat, AllDigits, show_nat-AllDigits, read-show_nat}
use p4sync_git.Exec.{ok}
use p4sync_git.Text.Octal.{show_octal, show_octal-AllDigits}
use p4sync_git.Git.Trailers.{newline}
use p4sync_git.Git.FileMode.{FileChange, unpack_change}
use p4sync_git.Import.Stream.{
  FastImporter, data_line, file_line, write_bytes, write_file, write_files,
}

-- none of them is the character
abbrev pub Free : ℕ → Str → Type 0
Free sep = All (λ c. (c == sep) ≡ false)

split_first :
    (sep : ℕ) (s t : Str)
    → Free sep s
    → (before_char sep (s ++ (sep ∷ t)) ≡ s) × (after_char sep (s ++ (sep ∷ t)) ≡ t)
unfolding before_char after_char
split_first sep [] t h = ground arith
split_first sep (c ∷ s) t h = let (a, b) = split_first sep s t h.1 in rw h.0 (ap (λ s. c ∷ s) a, b)

digits-Free : (sep : ℕ) (s : Str) → is_digit sep ≡ false → AllDigits s → Free sep s
digits-Free sep [] d h = tt
digits-Free sep (c ∷ s) d h = (ground (arith, h.0), digits-Free sep s d h.1)

-- the reader of a block of data: its length is counted out, whatever stands in it
read_counted : ℕ → Str → Option (List ℕ × Str)
read_counted n s =
    if starts_with (drop n s) (codes "\n") then some (take n s, drop 1 (drop n s)) else none

read_data : Str → Option (List ℕ × Str)
read_data s =
    if starts_with s (codes "data ")
    then read_counted (read_nat (before_char newline (drop 5 s))) (after_char newline (drop 5 s))
    else none

read_counted-append :
    (c rest : List ℕ) → read_counted (length c) (c ++ (codes "\n" ++ rest)) ≡ some (c, rest)
unfolding read_counted starts_with
read_counted-append c rest =
    rw (drop-append c (codes "\n" ++ rest), take-append c (codes "\n" ++ rest)) refl

abbrev pub data_block : List ℕ → Str
data_block c = data_line c ++ (c ++ codes "\n")

data_block-append :
    (c rest : List ℕ)
    → data_block c ++ rest
      ≡ codes "data " ++ (show_nat (length c) ++ (codes "\n" ++ (c ++ (codes "\n" ++ rest))))
unfolding data_line
data_block-append c rest =
    append_assoc (data_line c) (c ++ codes "\n") rest
    ∙ (ap (λ t. data_line c ++ t) (append_assoc c (codes "\n") rest)
        ∙ ap (λ t. codes "data " ++ t)
            (append_assoc (show_nat (length c)) (codes "\n") (c ++ (codes "\n" ++ rest))))

read_data-data_block : (c rest : List ℕ) → read_data (data_block c ++ rest) ≡ some (c, rest)
unfolding read_data starts_with
read_data-data_block c rest =
    let n = show_nat (length c) in
    let (a, b) =
      split_first newline n (c ++ (codes "\n" ++ rest))
        (digits-Free newline n refl (show_nat-AllDigits (length c))) in
    rw (data_block-append c rest, a, b, read-show_nat (length c)) (read_counted-append c rest)

-- a changed file as the reader gives it: its mode as it is written, its path and its content
abbrev pub ReadFile : Type 0
ReadFile = Str × Str × List ℕ

abbrev with_data : Str → Str → Option (List ℕ × Str) → Option (ReadFile × Str)
with_data mode path none = none
with_data mode path (some (c, rest)) = some ((mode, path, c), rest)

read_file : Str → Option (ReadFile × Str)
read_file s =
    if starts_with s (codes "M ")
    then (let t = drop 7 (after_char b' ' (drop 2 s)) in
        with_data (before_char b' ' (drop 2 s)) (before_char newline t)
          (read_data (after_char newline t)))
    else none

abbrev pub file_block : Str → List ℕ → ℕ → Str
file_block path c mode = file_line path mode ++ data_block c

file_block-append :
    (path : Str) (c : List ℕ) (mode : ℕ) (rest : Str)
    → file_block path c mode ++ rest
      ≡ codes "M "
        ++ (show_octal mode
            ++ (codes " inline " ++ (path ++ (codes "\n" ++ (data_block c ++ rest)))))
unfolding file_line
file_block-append path c mode rest =
    append_assoc (file_line path mode) (data_block c) rest
    ∙ (ap (λ t. codes "M " ++ t)
          (append_assoc (show_octal mode) (codes " inline " ++ (path ++ codes "\n"))
            (data_block c ++ rest))
        ∙ ap (λ t. codes "M " ++ (show_octal mode ++ (codes " inline " ++ t)))
            (append_assoc path (codes "\n") (data_block c ++ rest)))

read_file-file_block :
    (path : Str) (c : List ℕ) (mode : ℕ) (rest : Str)
    → Free newline path
    → read_file (file_block path c mode ++ rest) ≡ some ((show_octal mode, path, c), rest)
unfolding read_file starts_with
read_file-file_block path c mode rest h =
    let m = show_octal mode in
    let (a, b) =
      split_first b' ' m (codes "inline " ++ (path ++ (codes "\n" ++ (data_block c ++ rest))))
        (digits-Free b' ' m refl (show_octal-AllDigits mode)) in
    let (d, e) = split_first newline path (data_block c ++ rest) h in
    rw (file_block-append path c mode rest, a, b, d, e, read_data-data_block c rest) refl

abbrev add_read : ReadFile → Option (List ReadFile × Str) → Option (List ReadFile × Str)
add_read file none = none
add_read file (some (files, rest)) = some (file ∷ files, rest)

abbrev and_more :
    Option (ReadFile × Str) → (Str → Option (List ReadFile × Str)) → Option (List ReadFile × Str)
and_more none more = none
and_more (some (file, rest)) more = add_read file (more rest)

pub read_files : ℕ → Str → Option (List ReadFile × Str)
read_files zero s = some ([], s)
read_files (suc n) s = and_more (read_file s) (read_files n)

-- a pipe that does not break
abbrev pub whole : Str → Bool
whole out = false

abbrev pub blocks : List FileChange → Str
blocks [] = []
blocks (item ∷ items) =
    let (path, content, mode) = unpack_change item in file_block path content mode ++ blocks items

abbrev pub read_of : FileChange → ReadFile
read_of item = let (path, content, mode) = unpack_change item in (show_octal mode, path, content)

read_files-blocks :
    (items : List FileChange) (rest : Str)
    → All (λ (item : FileChange). Free newline item.path) items
    → read_files (length items) (blocks items ++ rest) ≡ some (map read_of items, rest)
unfolding read_files unpack_change
read_files-blocks [] rest h = refl
read_files-blocks (item ∷ items) rest h =
    let (path, c, mode) = unpack_change item in
    ap (λ t. and_more (read_file t) (λ u. read_files (length items) u))
      (append_assoc (file_block path c mode) (blocks items) rest)
    ∙ rw
        (
          read_file-file_block path c mode (blocks items ++ rest) h.0,
          read_files-blocks items rest h.1,
        )
        refl

write_file-whole :
    (path : Str) (c : List ℕ) (mode : ℕ) (out : Str) (f : FastImporter)
    → f.proc ≡ some out
    → write_file whole path c mode f
      ≡ (ok tt, record f { proc = some (out ++ file_block path c mode) })
unfolding write_file write_bytes
write_file-whole path c mode out f h = rw h (
    ap (λ t. (ok tt, record f { proc = some t }))
      (append_assoc (out ++ file_line path mode) (data_line c) (c ++ codes "\n")
        ∙ append_assoc out (file_line path mode) (data_block c)))

write_files-whole :
    (items : List FileChange) (out : Str) (f : FastImporter)
    → f.proc ≡ some out
    → write_files whole items f ≡ (ok tt, record f { proc = some (out ++ blocks items) })
unfolding write_files
write_files-whole [] out f h =
    ap (λ (p : Option Str). (ok tt, record f { proc = p })) (h ∙ ap some (sym (append-nil out)))
write_files-whole (item ∷ items) out f h =
    let (path, c, mode) = unpack_change item in
    let g = record f { proc = some (out ++ file_block path c mode) } in
    rw (write_file-whole path c mode out f h) (
      write_files-whole items (out ++ file_block path c mode) g refl
      ∙ ap (λ t. (ok tt, record f { proc = some t }))
          (append_assoc out (file_block path c mode) (blocks items)))

-- While the pipe holds, writing the files of a commit to a running process returns and adds one text
-- to what it was given; from that text, whatever follows it, a reader that counts out the bytes gets
-- back the mode, the path and the content of every file in order, if no path holds a newline.
pub read_files-write_files :
    (items : List FileChange) (out rest : Str) (f : FastImporter)
    → f.proc ≡ some out
    → All (λ (item : FileChange). Free newline item.path) items
    → (text : Str) × (write_files whole items f ≡ (ok tt, record f { proc = some (out ++ text) }))
      × (read_files (length items) (text ++ rest) ≡ some (map read_of items, rest))
read_files-write_files items out rest f h p =
    (blocks items, write_files-whole items out f h, read_files-blocks items rest p)
