-- ===== src/Exec/Keeps.antt =====
-- What a call leaves as it is: a property of the state.
use teiid_operator.Prelude.{Bool, true, false, if◌then◌else◌}
use teiid_operator.Result.{Result, ok, err, not_found, conflict, panic, failed}
use teiid_operator.Exec.{Exec, continue, guarded, caught, ◌>>=◌}

-- A call keeps a property, whether it returns or fails.
abbrev pub Keeps : {W A : Type 0} → (W → Type 0) → Exec W A → Type 0
Keeps {W = W} P m = (w : W) → P w → P (m w).1

module _ {W A B : Type 0} (P : W → Type 0) where
  pub Keeps-continue :
      (r : Result A) (f : A → Exec W B) (w : W)
      → P w
      → ((a : A) → P (f a w).1)
      → P (continue r f w).1
  Keeps-continue (ok a) f w p k = k a
  Keeps-continue (err e) f w p k = p

  -- A call, and what follows it where it succeeds.
  pub Keeps-bind :
      (m : Exec W A) (f : A → Exec W B) → Keeps P m → ((a : A) → Keeps P (f a)) → Keeps P (m >>= f)
  Keeps-bind m f km kf w p = Keeps-continue (m w).0 f (m w).1 (km w p) (λ a. kf a (m w).1 (km w p))

  Keeps-caught :
      (r : Result A) (f : Result A → Exec W B) (w : W)
      → P w
      → ((r : Result A) → P (f r w).1)
      → let end : Result (Result A) × W = caught r w in P (continue end.0 f end.1).1
  Keeps-caught (ok a) f w p k = k (ok a)
  Keeps-caught (err not_found) f w p k = k (err not_found)
  Keeps-caught (err conflict) f w p k = k (err conflict)
  Keeps-caught (err panic) f w p k = p
  Keeps-caught (err (failed text)) f w p k = k (err (failed text))

  -- The same where a panic ends the run.
  pub Keeps-guarded :
      (m : Exec W A) (f : Result A → Exec W B)
      → Keeps P m
      → ((r : Result A) → Keeps P (f r))
      → Keeps P (guarded m >>= f)
  Keeps-guarded m f km kf w p = Keeps-caught (m w).0 f (m w).1 (km w p) (λ r. kf r (m w).1 (km w p))

module _ {W A : Type 0} (P : W → Type 0) where
  pub Keeps-if : (b : Bool) (m n : Exec W A) → Keeps P m → Keeps P n → Keeps P (if b then m else n)
  Keeps-if true m n km kn = km
  Keeps-if false m n km kn = kn

  pub Keeps-elim :
      (b : Bool) (m n : Exec W A)
      → Keeps P m
      → Keeps P n
      → Keeps P (elim b [ true ↦ m | false ↦ n ])
  Keeps-elim true m n km kn = km
  Keeps-elim false m n km kn = kn
