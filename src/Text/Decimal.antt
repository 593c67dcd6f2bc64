-- ===== src/Text/Decimal.antt =====
-- `str(n)` and `int(s)` of decimal numbers, and that reading what is printed gives the number back.
use p4sync_git.Prelude.{
  ℕ, zero, suc, ◌+◌, ◌*◌, ◌-◌, ◌/◌, ◌%◌, ◌<◌, ◌≡◌, refl, ◌≢◌, true, [], ◌∷◌, arith, ltb,
  if◌then◌else◌, All,
}
use p4sync_git.Text.{Str, is_digit}

-- The digits of `n`, in front of those that stand already; the fuel is more than the digits.
digits_onto : ℕ → ℕ → Str → Str
digits_onto zero n acc = acc
digits_onto (suc fuel) n acc =
    let rest = digits_onto fuel (n / 10) ((b'0' + n % 10) ∷ acc) in
    if ltb n 10 then (b'0' + n % 10) ∷ acc else rest

unfoldable pub show_nat : ℕ → Str
unfolding digits_onto
show_nat n = digits_onto (suc n) n []

-- `int` of a text of digits, from the number read so far.
unfoldable pub read_onto : ℕ → Str → ℕ
read_onto n [] = n
read_onto n (c ∷ s) = read_onto (n * 10 + (c - b'0')) s

unfoldable pub read_nat : Str → ℕ
unfolding read_onto
read_nat s = read_onto 0 s

abbrev pub AllDigits : Str → Type 0
AllDigits = All (λ c. is_digit c ≡ true)

read-digits_onto :
    (fuel n : ℕ) (acc : Str) → n < fuel → read_onto 0 (digits_onto fuel n acc) ≡ read_onto n acc
unfolding digits_onto read_onto
read-digits_onto zero n acc h = absurd (omega arith)
read-digits_onto (suc fuel) n acc h =
    ground (arith, read-digits_onto fuel (n / 10) ((b'0' + n % 10) ∷ acc))

pub read-show_nat : (n : ℕ) → read_nat (show_nat n) ≡ n
unfolding read_nat show_nat
read-show_nat n = read-digits_onto (suc n) n [] (omega arith)

digits_onto-AllDigits :
    (fuel n : ℕ) (acc : Str) → AllDigits acc → AllDigits (digits_onto fuel n acc)
unfolding digits_onto
digits_onto-AllDigits zero n acc h = h
digits_onto-AllDigits (suc fuel) n acc h =
    ground (arith, digits_onto-AllDigits fuel (n / 10) ((b'0' + n % 10) ∷ acc))

pub show_nat-AllDigits : (n : ℕ) → AllDigits (show_nat n)
unfolding show_nat
show_nat-AllDigits n = digits_onto-AllDigits (suc n) n [] tt

digits_onto-cons : (fuel n : ℕ) (acc : Str) → acc ≢ [] → digits_onto fuel n acc ≢ []
unfolding digits_onto
digits_onto-cons zero n acc h = h
digits_onto-cons (suc fuel) n acc h =
    ground (arith, digits_onto-cons fuel (n / 10) ((b'0' + n % 10) ∷ acc))

pub show_nat-ne-nil : (n : ℕ) → show_nat n ≢ []
unfolding show_nat digits_onto
show_nat-ne-nil n = ground (arith, digits_onto-cons n (n / 10) ((b'0' + n % 10) ∷ []))

show-1024 : show_nat 1024 ≡ b'1' ∷ b'0' ∷ b'2' ∷ b'4' ∷ []
unfolding show_nat
show-1024 = refl
