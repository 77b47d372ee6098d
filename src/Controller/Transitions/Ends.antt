-- ===== src/Controller/Transitions/Ends.antt =====
-- A property of the resource in memory, behind the calls of a step: the calls leave the resource as it is.
use teiid_operator.Prelude.{◌≡◌, arith, Bool, true, false, if◌then◌else◌}
use teiid_operator.Result.{Result, ok, err, is_ok, not_found, conflict, panic, failed}
use teiid_operator.Exec.{Exec, continue, caught, guarded, ◌>>=◌}
use teiid_operator.Vdb.{VirtualDatabase}
use teiid_operator.Controller.Cluster.{Context, call}

-- The resource that a run ends with has the property, whether it returned an error or not.
abbrev pub Ends : {W A : Type 0} → (VirtualDatabase → Type 0) → Result A × Context W → Type 0
Ends Q end = Q end.1.vdb

-- The same, and the run returns no error.
abbrev pub Finishes : {W A : Type 0} → (VirtualDatabase → Type 0) → Result A × Context W → Type 0
Finishes Q end = (is_ok end.0 ≡ true) × Q end.1.vdb

module _ {W A : Type 0} (Q : VirtualDatabase → Type 0) where
  pub Ends-if :
      (b : Bool) (m n : Exec (Context W) A) (s : Context W)
      → Ends Q (m s)
      → Ends Q (n s)
      → Ends Q ((if b then m else n) s)
  Ends-if true m n s p q = p
  Ends-if false m n s p q = q

  pub Finishes-if :
      (b : Bool) (m n : Exec (Context W) A) (s : Context W)
      → Finishes Q (m s)
      → Finishes Q (n s)
      → Finishes Q ((if b then m else n) s)
  Finishes-if true m n s p q = p
  Finishes-if false m n s p q = q

module _ {W A B : Type 0} (Q : VirtualDatabase → Type 0) where
  pub Ends-continue :
      (r : Result A) (k : A → Exec (Context W) B) (s : Context W)
      → Q s.vdb
      → ((a : A) → Ends Q (k a s))
      → Ends Q (continue r k s)
  Ends-continue (ok a) k s q h = h a
  Ends-continue (err e) k s q h = q

  -- Behind a call, with its error passed on.
  pub Ends-call :
      (m : Exec W A) (k : A → Exec (Context W) B) (s : Context W)
      → Q s.vdb
      → ((a : A) (w : W) → Ends Q (k a (record s { world = w })))
      → Ends Q ((call m >>= k) s)
  Ends-call m k s q h =
      let end : Result A × W = m s.world in
      Ends-continue end.0 k (record s { world = end.1 }) q (λ a. h a end.1)

  -- Behind a part of the step that has a property of its own.
  pub Ends-bind :
      (P : VirtualDatabase → Type 0) (m : Exec (Context W) A) (k : A → Exec (Context W) B)
      (s : Context W)
      → Ends P (m s)
      → ((v : VirtualDatabase) → P v → Q v)
      → ((a : A) (t : Context W) → P t.vdb → Ends Q (k a t))
      → Ends Q ((m >>= k) s)
  Ends-bind P m k s p q h =
      let end : Result A × Context W = m s in
      Ends-continue end.0 k end.1 (q end.1.vdb p) (λ a. h a end.1 p)

  pub Finishes-bind :
      (P : VirtualDatabase → Type 0) (m : Exec (Context W) A) (k : A → Exec (Context W) B)
      (s : Context W)
      → Finishes P (m s)
      → ((a : A) (t : Context W) → P t.vdb → Finishes Q (k a t))
      → Finishes Q ((m >>= k) s)
  Finishes-bind P m k s p h = let end : Result A × Context W = m s in go end.0 end.1 p.0 p.1
    where
      go : (r : Result A) (t : Context W) → is_ok r ≡ true → P t.vdb → Finishes Q (continue r k t)
      go (ok a) t e p = h a t p
      go (err x) t e p = ground (arith, e)

  pub Finishes-call :
      (m : Exec W A) (k : A → Exec (Context W) B) (s : Context W)
      → is_ok (m s.world).0 ≡ true
      → ((a : A) (w : W) → Finishes Q (k a (record s { world = w })))
      → Finishes Q ((call m >>= k) s)
  Finishes-call m k s e h = let end : Result A × W = m s.world in go end.0 end.1 e
    where
      go :
          (r : Result A) (w : W)
          → is_ok r ≡ true
          → Finishes Q (continue r k (record s { world = w }))
      go (ok a) w e = h a w
      go (err x) w e = ground (arith, e)

  -- Behind a call that may panic, with its error as a value.
  pub Ends-guarded :
      (m : Exec W A) (k : Result A → Exec (Context W) B) (s : Context W)
      → Q s.vdb
      → ((r : Result A) (w : W) → Ends Q (k r (record s { world = w })))
      → Ends Q ((guarded (call m) >>= k) s)
  Ends-guarded m k s q h =
      let end : Result A × W = m s.world in go end.0 (record s { world = end.1 }) q (λ r. h r end.1)
    where
      go :
          (r : Result A) (t : Context W)
          → Q t.vdb
          → ((x : Result A) → Ends Q (k x t))
          → let c : Result (Result A) × Context W = caught r t in Ends Q (continue c.0 k c.1)
      go (ok a) t q h = h (ok a)
      go (err not_found) t q h = h (err not_found)
      go (err conflict) t q h = h (err conflict)
      go (err panic) t q h = q
      go (err (failed text)) t q h = h (err (failed text))
