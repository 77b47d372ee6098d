-- ===== src/Controller/Deep.antt =====
-- reflect.DeepEqual on the resource's specification and status, and hasChanges of
-- pkg/controller/virtualdatabase/virtualdatabase_controller.go.
use native.Nat.{ℕᴺ_discrete}
use teiid_operator.Prelude.{◌≡◌, refl, Bool, true, false, ◌||◌, arith}
use teiid_operator.Vdb.{VirtualDatabase, Spec, Status}

pub Spec-discrete : Discrete Spec
Spec-discrete = hlevel (ℕᴺ_discrete)

pub Status-discrete : Discrete Status
Status-discrete = hlevel (ℕᴺ_discrete)

abbrev pub refutes : {A : Type 0} → Dec A → Bool
refutes (yes _) = false
refutes (no _) = true

abbrev pub differs : {A : Type 0} → Discrete A → A → A → Bool
differs d a b = refutes (d a b)

unfoldable pub has_changes : VirtualDatabase → VirtualDatabase → Bool
has_changes instance cached =
    differs Spec-discrete instance.spec cached.spec
    || differs Status-discrete instance.status cached.status

pub refutes-proved : {A : Type 0} (d : Dec A) → A → refutes d ≡ false
refutes-proved (yes _) a = refl
refutes-proved (no n) a = absurd (n a)

differs_refl : {A : Type 0} (d : Discrete A) (a : A) → differs d a a ≡ false
differs_refl d a = refutes-proved (d a a) refl

-- An untouched resource has no changes.
pub has_changes_refl : (vdb : VirtualDatabase) → has_changes vdb vdb ≡ false
unfolding has_changes
has_changes_refl vdb =
    rw (differs_refl Spec-discrete vdb.spec, differs_refl Status-discrete vdb.status)

pub refutes-refuted : {A : Type 0} (d : Dec A) → (A → ⊥) → refutes d ≡ true
refutes-refuted (yes a) n = absurd (n a)
refutes-refuted (no _) n = refl

-- A resource whose status differs has changes.
pub has_changes-status :
    (u v : VirtualDatabase) → (u.status ≡ v.status → ⊥) → has_changes u v ≡ true
unfolding has_changes
has_changes-status u v n = ground (arith, refutes-refuted (Status-discrete u.status v.status) n)

pub proved-refutes : {A : Type 0} (d : Dec A) → refutes d ≡ false → A
proved-refutes (yes a) h = a
proved-refutes (no n) h = ground (arith, h)

-- Without changes, specification and status are those of before.
pub has_changes-false :
    (u v : VirtualDatabase) → has_changes u v ≡ false → (u.spec ≡ v.spec) × (u.status ≡ v.status)
unfolding has_changes
has_changes-false u v h = (
  proved-refutes (Spec-discrete u.spec v.spec) (ground (arith, h)),
  proved-refutes (Status-discrete u.status v.status) (ground (arith, h)),
)

pub same_resource :
    (u v : VirtualDatabase)
    → u.name ≡ v.name
    → u.namespace ≡ v.namespace
    → u.spec ≡ v.spec
    → u.status ≡ v.status
    → u ≡ v
same_resource u v a b c d = cc
