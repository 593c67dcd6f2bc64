-- ===== src/Text.antt =====
-- Python's `str` and `bytes` as lists of code points (of bytes), and the methods of them that the
-- program calls. `lower` and the character classes are those of ASCII.
pub mod Laws
pub mod Decimal
pub mod Dict
pub mod Lines
pub mod Octal
pub mod Strip
use Prim.Native.Char.{code}
use p4sync_git.Prelude.{
  ℕ, zero, suc, ◌+◌, ◌*◌, ◌-◌, ◌/◌, ◌%◌, String, Bool, true, false, ◌&&◌, ◌||◌, List, [], ◌∷◌, ◌++◌,
  map, leb, ltb, ◌==◌, if◌then◌else◌, length, drop,
}

abbrev pub Str : Type 0
Str = List ℕ

abbrev pub codes : String → Str
codes String.[] = []
codes (String.◌∷◌ c s) = code c ∷ codes s

-- `s == t`
unfoldable pub str_eq : Str → Str → Bool
str_eq [] [] = true
str_eq (x ∷ xs) (y ∷ ys) = if x == y then str_eq xs ys else false
str_eq _ _ = false

-- `x in [...]` and `x in frozenset`
unfoldable pub contains : List Str → Str → Bool
unfolding str_eq
contains [] x = false
contains (y ∷ ys) x = if str_eq y x then true else contains ys x

-- `s.startswith(p)`
unfoldable pub starts_with : Str → Str → Bool
starts_with s [] = true
starts_with [] (p ∷ ps) = false
starts_with (c ∷ s) (p ∷ ps) = if c == p then starts_with s ps else false

-- `p in s`
unfoldable pub has_substring : Str → Str → Bool
unfolding starts_with
has_substring p [] = starts_with [] p
has_substring p (c ∷ s) = if starts_with (c ∷ s) p then true else has_substring p s

-- `s.split(sep)` for a separator of one character: what stands before the first one comes first.
abbrev pub push_head : ℕ → List Str → List Str
push_head c [] = (c ∷ []) ∷ []
push_head c (w ∷ ws) = (c ∷ w) ∷ ws

unfoldable pub split : ℕ → Str → List Str
split sep [] = [] ∷ []
split sep (c ∷ s) = let rest = split sep s in if c == sep then [] ∷ rest else push_head c rest

-- `s.split(sep)` for a separator of several characters; `k` of them are still to be skipped.
unfoldable pub split_from : Str → ℕ → Str → List Str
unfolding starts_with
split_from sep k [] = [] ∷ []
split_from sep (suc k) (c ∷ s) = split_from sep k s
split_from sep zero (c ∷ s) =
    let rest = split_from sep zero s in
    if starts_with (c ∷ s) sep then [] ∷ split_from sep (length sep - 1) s else push_head c rest

-- `sep.join(parts)`
unfoldable pub join : Str → List Str → Str
join sep [] = []
join sep (w ∷ []) = w
join sep (w ∷ v ∷ ws) = w ++ (sep ++ join sep (v ∷ ws))

-- `s.partition(sep)`, without the separator: all of `s` and nothing if it has none.
unfoldable pub before_char : ℕ → Str → Str
before_char sep [] = []
before_char sep (c ∷ s) = if c == sep then [] else c ∷ before_char sep s

unfoldable pub after_char : ℕ → Str → Str
after_char sep [] = []
after_char sep (c ∷ s) = if c == sep then s else after_char sep s

-- `s.strip(c)`
unfoldable pub strip_left : ℕ → Str → Str
strip_left sep [] = []
strip_left sep (c ∷ s) = if c == sep then strip_left sep s else c ∷ s

abbrev snoc_unless : ℕ → ℕ → Str → Str
snoc_unless sep c [] = if c == sep then [] else c ∷ []
snoc_unless sep c (d ∷ s) = c ∷ d ∷ s

unfoldable pub strip_right : ℕ → Str → Str
strip_right sep [] = []
strip_right sep (c ∷ s) = snoc_unless sep c (strip_right sep s)

unfoldable pub strip : ℕ → Str → Str
unfolding strip_left strip_right
strip sep s = strip_right sep (strip_left sep s)

-- `s.lower()`
unfoldable pub lower_char : ℕ → ℕ
lower_char c = if leb b'A' c && leb c b'Z' then c + 32 else c

unfoldable pub lower : Str → Str
unfolding lower_char
lower s = map lower_char s

abbrev pub is_digit : ℕ → Bool
is_digit c = leb b'0' c && leb c b'9'

abbrev pub is_hex : ℕ → Bool
is_hex c = is_digit c || (leb b'a' c && leb c b'f')

-- `\s`
abbrev pub is_space : ℕ → Bool
is_space c = (leb 9 c && leb c 13) || (leb 28 c && leb c 32)
