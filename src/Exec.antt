-- ===== src/Exec.antt =====
-- Methods that change an object and may raise. What was written before a raise stays written, so
-- the state comes back beside the error, which is the text of the exception, `str(e)`.
use p4sync_git.Prelude.{◌≡◌, ◌≢◌, refl, ◌⊎◌, inl, inr}
use p4sync_git.Text.{Str}

pub data Result {ℓ} (A : Type ℓ) : Type ℓ where
  ok : A → Result A
  err : Str → Result A

pub Result-cases {ℓ} :
    {A : Type ℓ} (r : Result A) → ((a : A) × (r ≡ ok a)) ⊎ ((e : Str) × (r ≡ err e))
Result-cases (ok a) = inl (a, refl)
Result-cases (err e) = inr (e, refl)

pub ok-ne-err {ℓ} : {A : Type ℓ} (a : A) (e : Str) → ok a ≢ err e
ok-ne-err a e h = cc

pub ok_inj {ℓ} : {A : Type ℓ} (a b : A) → ok a ≡ ok b → a ≡ b
ok_inj a b h = cc

abbrev pub and_then {ℓ κ} : {A : Type ℓ} {B : Type κ} → Result A → (A → Result B) → Result B
and_then (ok a) f = f a
and_then (err e) f = err e

abbrev pub Exec {ℓ} : Type ℓ → Type ℓ → Type ℓ
Exec S A = S → Result A × S

module _ {ℓ} {S A : Type ℓ} where
  abbrev pub pure : A → Exec S A
  pure a s = (ok a, s)

  abbrev pub raise : Str → Exec S A
  raise e s = (err e, s)

  abbrev pub lift : Result A → Exec S A
  lift r s = (r, s)

  abbrev pub gets : (S → A) → Exec S A
  gets f s = (ok (f s), s)

module _ {ℓ} {S A B : Type ℓ} where
  abbrev pub continue : Result A → (A → Exec S B) → Exec S B
  continue (ok a) f s = f a s
  continue (err e) f s = (err e, s)

  infixl 5 ◌>>=◌ ◌>>◌
  abbrev pub ◌>>=◌ : Exec S A → (A → Exec S B) → Exec S B
  ◌>>=◌ m f s = let (r, s') = m s in continue r f s'

  abbrev pub ◌>>◌ : Exec S A → Exec S B → Exec S B
  m >> n = m >>= λ _. n

module _ {ℓ} {S : Type ℓ} where
  abbrev pub modify : (S → S) → S → Result (Unit {0}) × S
  modify f s = (ok tt, f s)

  -- `try: m except Exception as e: handle(e)`
  abbrev pub handle_err : {A : Type ℓ} → Result A → (Str → Exec S A) → Exec S A
  handle_err (ok a) h s = (ok a, s)
  handle_err (err e) h s = h e s

  abbrev pub try_except : {A : Type ℓ} → Exec S A → (Str → Exec S A) → Exec S A
  try_except m h s = let (r, s') = m s in handle_err r h s'
