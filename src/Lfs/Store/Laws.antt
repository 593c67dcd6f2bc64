-- ===== src/Lfs/Store/Laws.antt =====
-- What the store holds is found under its digest, and a failed stream leaves nothing behind.
use p4sync_git.Prelude.{
  ℕ, ◌≡◌, refl, ap, true, some, List, [], ◌∷◌, ◌++◌, arith, length, if◌then◌else◌, is_some, All,
  Bool-cases, is_some→some, inl, inr, subst, sym, ◌∙◌,
}
use p4sync_git.Text.{Str}
use p4sync_git.Text.Laws.{str_eq→eq, str_eq_refl}
use p4sync_git.Exec.{Result, ok, err, try_except, continue, modify, ◌>>◌, raise}
use p4sync_git.Lfs.Pointer.{LfsPointer}
use p4sync_git.Lfs.Store.{
  TmpFile, ObjectPath, LfsObjectStore, Chunks, done, raises, chunk, object_path, path_eq, file_at,
  exists, retrieve, on_tmp, append_to, unlink, tmp_content, replace, pointer_of, finalize,
  write_chunks, store_from_stream,
}

-- all that the stream gives, or its error
unfoldable pub whole_stream : List ℕ → Chunks → Result (List ℕ)
whole_stream written done = ok written
whole_stream written (raises e) = err e
whole_stream written (chunk c rest) = whole_stream (written ++ c) rest

abbrev tmp_file : Str → ℕ → List ℕ → TmpFile
tmp_file name now content = record { name = name; content = content; mtime = now; is_file = true }

abbrev holding : Str → ℕ → List ℕ → LfsObjectStore → LfsObjectStore
holding name now content s = record s { tmp = tmp_file name now content ∷ s.tmp }

append_to-tmp_file :
    (name : Str) (now : ℕ) (c written : List ℕ) (files : List TmpFile)
    → append_to name c (tmp_file name now written ∷ files)
      ≡ tmp_file name now (written ++ c) ∷ files
unfolding append_to
append_to-tmp_file name now c written files = rw (str_eq_refl name) refl

-- While a stream is read, its temporary file holds what was read of it.
write_chunks_lem :
    (name : Str) (now : ℕ) (written : List ℕ) (chunks : Chunks) (s : LfsObjectStore)
    → (w : List ℕ) × (write_chunks name written chunks (holding name now written s)
        ≡ (whole_stream written chunks, holding name now w s))
      × ((c : List ℕ) → whole_stream written chunks ≡ ok c → w ≡ c)
unfolding write_chunks whole_stream
write_chunks_lem name now written done s = (written, refl, λ c h. cc)
write_chunks_lem name now written (raises e) s = (written, refl, λ c h. cc)
write_chunks_lem name now written (chunk c rest) s =
    let (w, e, f) = write_chunks_lem name now (written ++ c) rest s in
    (w, rw (append_to-tmp_file name now c written s.tmp) e, f)

-- the objects after a content was stored: it is written only if its digest is not there yet
abbrev pub put : Str → List ℕ → List (ObjectPath × List ℕ) → List (ObjectPath × List ℕ)
put oid content objects =
    if is_some (file_at (object_path oid) objects)
    then objects
    else (object_path oid, content) ∷ objects

finalize_lem :
    (oid : Str) (size : ℕ) (name : Str) (now : ℕ) (content : List ℕ) (s : LfsObjectStore)
    → finalize oid size name (holding name now content s)
      ≡ (ok (pointer_of oid size), record s { objects = put oid content s.objects })
unfolding finalize exists replace unlink tmp_content
finalize_lem oid size name now content s = elim (Bool-cases (exists oid s)) [
  | inl e ↦ rw (e, str_eq_refl name) refl
  | inr e ↦ rw (e, str_eq_refl name, str_eq_refl name) refl
]

module _ (hexdigest : List ℕ → Str) where
  -- what storing a stream amounts to
  abbrev pub stored : Result (List ℕ) → LfsObjectStore → Result LfsPointer × LfsObjectStore
  stored (err e) s = (err e, s)
  stored (ok c) s = (
    ok (pointer_of (hexdigest c) (length c)),
    record s { objects = put (hexdigest c) c s.objects },
  )

  stored-cases :
      (name : Str) (now : ℕ) (w : List ℕ) (r : Result (List ℕ)) (s : LfsObjectStore)
      → ((c : List ℕ) → r ≡ ok c → w ≡ c)
      → try_except
          (continue r (λ content. finalize (hexdigest content) (length content) name))
          (λ e. modify (on_tmp (unlink name)) >> raise e)
          (holding name now w s)
        ≡ stored r s
  unfolding unlink
  stored-cases name now w (err e) s h = rw (str_eq_refl name) refl
  stored-cases name now w (ok c) s h =
      subst
        (λ w.
          try_except
            (continue (ok c) (λ content. finalize (hexdigest content) (length content) name))
            (λ e. modify (on_tmp (unlink name)) >> raise e) (holding name now w s)
          ≡ stored (ok c) s)
        (sym (h c refl)) (rw (finalize_lem (hexdigest c) (length c) name now c s) refl)

  -- Storing a stream amounts to putting the content under its digest unless the digest is there, with
  -- the pointer of its oid and length returned; a stream that raises leaves the store as it was.
  pub store_from_stream_lem :
      (name : Str) (now : ℕ) (chunks : Chunks) (s : LfsObjectStore)
      → store_from_stream hexdigest name now chunks s ≡ stored (whole_stream [] chunks) s
  unfolding store_from_stream
  store_from_stream_lem name now chunks s =
      let (w, e, f) = write_chunks_lem name now [] chunks s in
      rw e (stored-cases name now w (whole_stream [] chunks) s f)

  abbrev pub IsAddressed : List (ObjectPath × List ℕ) → Type 0
  IsAddressed = All (λ (p, c). p ≡ object_path (hexdigest c))

  put-IsAddressed :
      (c : List ℕ) (objects : List (ObjectPath × List ℕ))
      → IsAddressed objects
      → IsAddressed (put (hexdigest c) c objects)
  put-IsAddressed c objects h =
      elim (Bool-cases (is_some (file_at (object_path (hexdigest c)) objects))) [
        | inl e ↦ rw e h
        | inr e ↦ rw e (refl, h)
      ]

  path_eq→eq : (p q : ObjectPath) → path_eq p q ≡ true → p ≡ q
  unfolding path_eq
  path_eq→eq (a, b, c) (x, y, z) h = ground (arith, str_eq→eq a x, str_eq→eq b y, str_eq→eq c z)

  path_eq_refl : (p : ObjectPath) → path_eq p p ≡ true
  unfolding path_eq
  path_eq_refl (a, b, c) = rw (str_eq_refl a, str_eq_refl b, str_eq_refl c) refl

  -- Under the path of a digest stands a content with that digest.
  file_at-digest :
      (oid : Str) (objects : List (ObjectPath × List ℕ)) (c : List ℕ)
      → IsAddressed objects
      → file_at (object_path oid) objects ≡ some c
      → hexdigest c ≡ oid
  unfolding file_at object_path
  file_at-digest oid [] c h e = cc
  file_at-digest oid ((p, content) ∷ objects) c h e =
      elim (Bool-cases (path_eq p (object_path oid))) [
        | inl k ↦
            let same : hexdigest content ≡ oid =
              ap (λ q. q.2) (sym h.0 ∙ path_eq→eq p (object_path oid) k) in
            ground arith
        | inr k ↦ ground (arith, file_at-digest oid objects c h.1)
      ]

  file_at-put :
      (c : List ℕ) (objects : List (ObjectPath × List ℕ))
      → is_some (file_at (object_path (hexdigest c)) (put (hexdigest c) c objects)) ≡ true
  unfolding file_at
  file_at-put c objects =
      elim (Bool-cases (is_some (file_at (object_path (hexdigest c)) objects))) [
        | inl e ↦ rw (e, e) refl
        | inr e ↦ rw (e, path_eq_refl (object_path (hexdigest c))) refl
      ]

  -- When every object stands under the path of its digest and a stream gives its content `c`,
  -- storing it keeps that, and the oid of the returned pointer is then found, under its path, with
  -- a content that has the digest of `c`.
  pub store_from_stream-retrieve :
      (name : Str) (now : ℕ) (chunks : Chunks) (s : LfsObjectStore) (c : List ℕ)
      → IsAddressed s.objects
      → whole_stream [] chunks ≡ ok c
      → let s' = (store_from_stream hexdigest name now chunks s).1 in
        IsAddressed s'.objects
        × (retrieve (hexdigest c) s' ≡ ok (object_path (hexdigest c)))
        × ((d : List ℕ) × (file_at (object_path (hexdigest c)) s'.objects ≡ some d)
            × (hexdigest d ≡ hexdigest c))
  unfolding retrieve exists
  store_from_stream-retrieve name now chunks s c h j =
      let kept = put-IsAddressed c s.objects h in
      let here = file_at-put c s.objects in
      let (d, e) =
        is_some→some (file_at (object_path (hexdigest c)) (put (hexdigest c) c s.objects)) here in
      rw (store_from_stream_lem name now chunks s, j)
        (
          kept,
          rw here refl,
          (d, e, file_at-digest (hexdigest c) (put (hexdigest c) c s.objects) d kept e),
        )
