-- ===== src/Text/Octal.antt =====
-- The octal numerals of file modes.
use p4sync_git.Prelude.{ℕ, zero, suc, ◌+◌, ◌/◌, ◌%◌, [], ◌∷◌, arith, ltb, if◌then◌else◌}
use p4sync_git.Text.{Str}
use p4sync_git.Text.Decimal.{AllDigits}

-- `{mode:o}`
octal_onto : ℕ → ℕ → Str → Str
octal_onto zero n acc = acc
octal_onto (suc fuel) n acc =
    let rest = octal_onto fuel (n / 8) ((b'0' + n % 8) ∷ acc) in
    if ltb n 8 then (b'0' + n % 8) ∷ acc else rest

unfoldable pub show_octal : ℕ → Str
unfolding octal_onto
show_octal n = octal_onto (suc n) n []

octal_onto-AllDigits : (fuel n : ℕ) (acc : Str) → AllDigits acc → AllDigits (octal_onto fuel n acc)
unfolding octal_onto
octal_onto-AllDigits zero n acc h = h
octal_onto-AllDigits (suc fuel) n acc h =
    ground (arith, octal_onto-AllDigits fuel (n / 8) ((b'0' + n % 8) ∷ acc))

pub show_octal-AllDigits : (n : ℕ) → AllDigits (show_octal n)
unfolding show_octal
show_octal-AllDigits n = octal_onto-AllDigits (suc n) n [] tt
