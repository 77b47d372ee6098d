-- ===== src/Controller/ServiceImage/Latest.antt =====
-- Which build decides about the phase of the service's image, and when a build is due.
use teiid_operator.Prelude.{
  ◌≡◌, refl, ◌⊎◌, inl, inr, ℕ, ◌≤◌, ◌<◌, true, false, List, [], ◌∷◌, nat_Eq, ltb, arith, Bool-cases,
  sym, subst,
}
use teiid_operator.Text.{text_Eq}
use teiid_operator.Controller.Cluster.{BuildRun}
use teiid_operator.Controller.ServiceImage.{latest_build, no_build}
use teiid_operator.Controller.Updater.Decimal.{atoi_or_zero}

abbrev pub number : BuildRun → ℕ
number b = atoi_or_zero b.number

-- No build of the list has a greater number than `m`.
abbrev pub AtMost : ℕ → List BuildRun → Type 0
AtMost m [] = Unit
AtMost m (b ∷ builds) = (number b ≤ m) × AtMost m builds

-- One of the builds.
abbrev pub Among : BuildRun → List BuildRun → Type 0
Among c [] = ⊥
Among c (b ∷ builds) = (c ≡ b) ⊎ Among c builds

lt_of_ltb : (m n : ℕ) → ltb m n ≡ true → m < n
lt_of_ltb m n h = ground (arith, h)

le_of_ltb : (m n : ℕ) → ltb m n ≡ false → n ≤ m
le_of_ltb m n h = ground (arith, h)

-- The two turns of the loop.
pub newer :
    (b : BuildRun) (builds : List BuildRun) (m : ℕ) (c : BuildRun)
    → ltb m (number b) ≡ true
    → latest_build (b ∷ builds) m c ≡ latest_build builds (number b) b
unfolding latest_build
newer b builds m c h = rw h refl

pub older :
    (b : BuildRun) (builds : List BuildRun) (m : ℕ) (c : BuildRun)
    → ltb m (number b) ≡ false
    → latest_build (b ∷ builds) m c ≡ latest_build builds m c
unfolding latest_build
older b builds m c h = rw h refl

-- The chosen build has at least the number that it is to beat.
latest_build-ge :
    (builds : List BuildRun) (m : ℕ) (c : BuildRun)
    → number c ≡ m
    → m ≤ number (latest_build builds m c)
latest_build-ge [] m c h = unfold latest_build in omega (arith, h)
latest_build-ge (b ∷ builds) m c h = elim (Bool-cases (ltb m (number b))) [
  | inl e ↦
      rw (newer b builds m c e)
        (omega (arith, latest_build-ge builds (number b) b refl, lt_of_ltb m (number b) e))
  | inr e ↦ rw (older b builds m c e) (latest_build-ge builds m c h)
]

latest_build-AtMost :
    (builds : List BuildRun) (m : ℕ) (c : BuildRun)
    → number c ≡ m
    → AtMost (number (latest_build builds m c)) builds
latest_build-AtMost [] m c h = tt
latest_build-AtMost (b ∷ builds) m c h = elim (Bool-cases (ltb m (number b))) [
  | inl e ↦
      subst (λ x. AtMost (number x) (b ∷ builds)) (sym (newer b builds m c e))
        (latest_build-ge builds (number b) b refl, latest_build-AtMost builds (number b) b refl)
  | inr e ↦
      subst (λ x. AtMost (number x) (b ∷ builds)) (sym (older b builds m c e))
        (
          omega (arith, latest_build-ge builds m c h, le_of_ltb m (number b) e),
          latest_build-AtMost builds m c h,
        )
]

-- The choice among builds, from a first choice `c`.
abbrev IsChoice : BuildRun → List BuildRun → BuildRun → Type 0
IsChoice c builds x = (x ≡ c) ⊎ Among x builds

latest_build-IsChoice :
    (builds : List BuildRun) (m : ℕ) (c : BuildRun) → IsChoice c builds (latest_build builds m c)
latest_build-IsChoice [] m c = unfold latest_build in inl refl
latest_build-IsChoice (b ∷ builds) m c = elim (Bool-cases (ltb m (number b))) [
  | inl e ↦
      subst (IsChoice c (b ∷ builds)) (sym (newer b builds m c e))
        (inr (latest_build-IsChoice builds (number b) b))
  | inr e ↦
      subst (IsChoice c (b ∷ builds)) (sym (older b builds m c e))
        (keep (latest_build-IsChoice builds m c))
]
  where
    keep :
        IsChoice c builds (latest_build builds m c)
        → IsChoice c (b ∷ builds) (latest_build builds m c)
    keep (inl x) = inl x
    keep (inr x) = inr (inr x)

-- The build that decides about the service's image is one of the list, or none at all, and no build of the
-- list has a greater number.
pub latest_build-greatest :
    (builds : List BuildRun)
    → ((latest_build builds 0 no_build ≡ no_build) ⊎ Among (latest_build builds 0 no_build) builds)
      × AtMost (number (latest_build builds 0 no_build)) builds
latest_build-greatest builds = (
  latest_build-IsChoice builds 0 no_build,
  latest_build-AtMost builds 0 no_build (unfold atoi_or_zero in refl),
)
