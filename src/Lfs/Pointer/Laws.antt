-- ===== src/Lfs/Pointer/Laws.antt =====
-- A pointer that is written is recognised and read back, and what is read is well formed.
use p4sync_git.Prelude.{
  ℕ, ◌==◌, inl, inr, guarded, both_true, ◌&&◌, Option-cases, drop, ◌≡◌, refl, ◌≢◌, true, Option,
  none, some, [], ◌∷◌, ◌++◌, arith, length, subst, take, take-append,
}
use p4sync_git.Text.{Str, codes, starts_with}
use p4sync_git.Text.Decimal.{
  show_nat, AllDigits, show_nat-AllDigits, show_nat-ne-nil, read-show_nat,
}
use p4sync_git.Exec.{ok}
use p4sync_git.Lfs.Pointer.{
  LfsPointer, format_lfs_pointer, is_lfs_pointer, search_from, take_digits, some_digits, size_re,
  all_hex, hex64, oid_re, with_oid, with_size, parse_lfs_pointer,
}

-- No hexadecimal digit begins `size `.
search_size-hex :
    (oid t : Str) → all_hex oid ≡ true → search_from size_re (oid ++ t) ≡ search_from size_re t
unfolding search_from size_re starts_with all_hex
search_size-hex [] t h = refl
search_size-hex (c ∷ oid) t h = ground (arith, search_size-hex oid t)

take_digits-append : (d : Str) → AllDigits d → take_digits (d ++ codes "\n") ≡ d
unfolding take_digits
take_digits-append [] h = refl
take_digits-append (c ∷ d) h = ground (arith, take_digits-append d)

some_digits-cons : (d : Str) → d ≢ [] → some_digits d ≡ some d
some_digits-cons [] h = absurd (h refl)
some_digits-cons (c ∷ d) h = refl

-- The size is found behind the digits of the oid, and read in full.
search-size :
    (oid d : Str)
    → all_hex oid ≡ true
    → AllDigits d
    → d ≢ []
    → search_from size_re (
        codes "version https://git-lfs.github.com/spec/v1\noid sha256:"
        ++ (oid ++ (codes "\nsize " ++ (d ++ codes "\n"))))
      ≡ some d
unfolding search_from size_re starts_with
search-size oid d h a n =
    rw
      (
        search_size-hex oid (codes "\nsize " ++ (d ++ codes "\n")) h,
        take_digits-append d a,
        some_digits-cons d n,
      )
      refl

hex64-take :
    (oid t : Str) → length oid ≡ 64 → all_hex oid ≡ true → hex64 (take 64 (oid ++ t)) ≡ some oid
hex64-take oid t l h =
    subst (λ n. hex64 (take n (oid ++ t)) ≡ some oid) l (rw (take-append oid t) (ground arith))

search-oid :
    (oid t : Str)
    → length oid ≡ 64
    → all_hex oid ≡ true
    → search_from oid_re
        (codes "version https://git-lfs.github.com/spec/v1\noid sha256:" ++ (oid ++ t))
      ≡ some oid
unfolding search_from oid_re starts_with
search-oid oid t l h = rw (hex64-take oid t l h) refl

-- A pointer written for an oid of 64 hexadecimal digits is recognised as one, and parsing it gives
-- back the oid, the size and the text itself.
pub parse_lfs_pointer-format_lfs_pointer :
    (oid : Str) (size : ℕ)
    → length oid ≡ 64
    → all_hex oid ≡ true
    → (is_lfs_pointer (format_lfs_pointer oid size) ≡ true)
      × (parse_lfs_pointer (format_lfs_pointer oid size)
          ≡ ok (record { oid = oid; size = size; pointer_bytes = format_lfs_pointer oid size }))
unfolding parse_lfs_pointer format_lfs_pointer is_lfs_pointer starts_with
parse_lfs_pointer-format_lfs_pointer oid size l h = (
  refl,
  rw
      (
        search-size oid (show_nat size) h (show_nat-AllDigits size) (show_nat-ne-nil size),
        search-oid oid (codes "\nsize " ++ (show_nat size ++ codes "\n")) l h,
        read-show_nat size,
      )
      refl,
)

-- What a pattern finds, it found somewhere: a property of all it captures holds of it.
search_from-holds :
    (pat : Str → Option Str) (P : Str → Type 0)
    → ((s x : Str) → pat s ≡ some x → P x)
    → (s x : Str) → search_from pat s ≡ some x
    → P x
unfolding search_from
search_from-holds pat P f [] x h = f [] x h
search_from-holds pat P f (c ∷ s) x h = ground (arith, f (c ∷ s) x, search_from-holds pat P f s x)

abbrev IsOid : Str → Type 0
IsOid oid = (length oid ≡ 64) × (all_hex oid ≡ true)

hex64-IsOid : (s x : Str) → hex64 s ≡ some x → IsOid x
hex64-IsOid s x h =
    let (b, e) = guarded ((length s == 64) && all_hex s) (some s) x h in
    let (l, a) = both_true (length s == 64) (all_hex s) b in ground arith

oid_re-IsOid : (s x : Str) → oid_re s ≡ some x → IsOid x
unfolding oid_re
oid_re-IsOid s x h =
    hex64-IsOid (take 64 (drop 11 s)) x
      (guarded (starts_with s (codes "oid sha256:")) (hex64 (take 64 (drop 11 s))) x h).1

parsed-IsOid :
    (content digits : Str) (o : Option Str) (p : LfsPointer)
    → ((x : Str) → o ≡ some x → IsOid x)
    → with_oid content digits o ≡ ok p
    → (length p.oid ≡ 64) × (all_hex p.oid ≡ true) × (p.pointer_bytes ≡ content)
parsed-IsOid content digits none p f h = cc
parsed-IsOid content digits (some oid) p f h = ground (arith, f oid refl)

-- A text that parses as a pointer gives an oid of 64 hexadecimal digits, and is kept as it was.
pub parse_lfs_pointer-IsOid :
    (content : Str) (p : LfsPointer)
    → parse_lfs_pointer content ≡ ok p
    → (length p.oid ≡ 64) × (all_hex p.oid ≡ true) × (p.pointer_bytes ≡ content)
unfolding parse_lfs_pointer
parse_lfs_pointer-IsOid content p h = elim (Option-cases (search_from size_re content)) [
  | inl e ↦ cc
  | inr (digits, e) ↦
      parsed-IsOid content digits (search_from oid_re content) p
        (search_from-holds oid_re IsOid oid_re-IsOid content)
        (subst (λ o. with_size content o ≡ ok p) e h)
]
