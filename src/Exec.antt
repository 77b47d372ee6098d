-- ===== src/Exec.antt =====
-- Functions that change a state and may return an error. What was written before the error stays
-- written, as in Go, so the state comes back beside the error too.
pub mod Keeps
use teiid_operator.Result.{Err, Result, ok, err, panic}

abbrev pub Exec {ℓ} : Type ℓ → Type ℓ → Type ℓ
Exec S A = S → Result A × S

module _ {ℓ} {S A : Type ℓ} where
  abbrev pub pure : A → Exec S A
  pure a s = (ok a, s)

  abbrev pub raise : Err → Exec S A
  raise e s = (err e, s)

  abbrev pub lift : Result A → Exec S A
  lift r s = (r, s)

  abbrev pub gets : (S → A) → Exec S A
  gets f s = (ok (f s), s)

  -- `x, err := m`, with the error as a value.
  abbrev pub attempt : Exec S A → Exec S (Result A)
  attempt m s = let (r, s') = m s in (ok r, s')

  abbrev pub caught : Result A → S → Result (Result A) × S
  caught (ok a) s = (ok (ok a), s)
  caught (err panic) s = (err panic, s)
  caught (err e) s = (ok (err e), s)

  -- The same where the call is the operator's own code, which may panic: a panic is no error value.
  abbrev pub guarded : Exec S A → Exec S (Result A)
  guarded m s = let (r, s') = m s in caught r s'

module _ {ℓ} {S : Type ℓ} where
  abbrev pub update : (S → S) → Exec S (Unit {ℓ})
  update f s = (ok tt, f s)

module _ {ℓ} {S A B : Type ℓ} where
  abbrev pub continue : Result A → (A → Exec S B) → Exec S B
  continue (ok a) f s = f a s
  continue (err e) f s = (err e, s)

  infixl 5 ◌>>=◌ ◌>>◌
  abbrev pub ◌>>=◌ : Exec S A → (A → Exec S B) → Exec S B
  ◌>>=◌ m f s = let (r, s') = m s in continue r f s'

  abbrev pub ◌>>◌ : Exec S A → Exec S B → Exec S B
  m >> n = m >>= λ _. n
