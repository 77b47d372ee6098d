-- ===== src/Text/Laws.antt =====
-- Laws of the text functions.
use teiid_operator.Prelude.{
  ℕ, ◌≡◌, refl, ◌≢◌, true, false, [], ◌∷◌, ◌++◌, arith, Bool-cases, inl, inr, ◌==◌,
}
use teiid_operator.Prelude.{ap, some, length, All, nat_Eq, nat_beq_iff}
use teiid_operator.Text.Defs.{
  index_byte, split_byte, Str, text_beq_iff, text_Eq, remove_byte, lower, to_lower,
}

pub eq_refl : (s : Str) → (s == s) ≡ true
eq_refl s = (text_beq_iff s s).1 refl

pub eq→≡ : (s t : Str) → (s == t) ≡ true → s ≡ t
eq→≡ s t = (text_beq_iff s t).0

pub ne→neq : (s t : Str) → s ≢ t → (s == t) ≡ false
ne→neq s t h = elim (Bool-cases (s == t)) [ inl e ↦ absurd (h (eq→≡ s t e)) | inr e ↦ e ]

-- The byte `b` does not stand in the text.
abbrev pub Lacks : ℕ → Str → Type 0
Lacks b = All (λ (c : ℕ). (c == b) ≡ false)

pub index_byte-append :
    (w s : Str) (b : ℕ) → Lacks b w → index_byte (w ++ b ∷ s) b ≡ some (length w)
unfolding index_byte
index_byte-append [] s b l = rw ((nat_beq_iff b b).1 refl)
index_byte-append (c ∷ w) s b l = rw (l.0, index_byte-append w s b l.1)

pub split_byte-Lacks : (s : Str) (b : ℕ) → Lacks b s → split_byte s b ≡ s ∷ []
unfolding split_byte
split_byte-Lacks [] b l = refl
split_byte-Lacks (c ∷ s) b l = rw (l.0, split_byte-Lacks s b l.1)

pub remove_byte-append :
    (b : ℕ) (s t : Str) → remove_byte b (s ++ t) ≡ remove_byte b s ++ remove_byte b t
unfolding remove_byte
remove_byte-append b [] t = refl
remove_byte-append b (c ∷ s) t = elim (Bool-cases (c == b)) [
  | inl e ↦ rw e (remove_byte-append b s t)
  | inr e ↦ rw e (ap (λ (u : Str). c ∷ u) (remove_byte-append b s t))
]

lower_idem : (c : ℕ) → lower (lower c) ≡ lower c
unfolding lower
lower_idem c = ground arith

pub to_lower_idem : (s : Str) → to_lower (to_lower s) ≡ to_lower s
unfolding to_lower
to_lower_idem [] = refl
to_lower_idem (c ∷ s) = cc (lower_idem c, to_lower_idem s)

pub to_lower-append : (s t : Str) → to_lower (s ++ t) ≡ to_lower s ++ to_lower t
unfolding to_lower
to_lower-append [] t = refl
to_lower-append (c ∷ s) t = ap (λ (u : Str). lower c ∷ u) (to_lower-append s t)
