-- ===== src/Regex/Words.antt =====
-- Expressions of the form `^p q*$`, with which names are checked.
use teiid_operator.Prelude.{
  ℕ, zero, suc, ◌≤◌, ◌≡◌, refl, Bool, true, false, ◌&&◌, Option, none, some, List, [], ◌∷◌, ◌++◌,
  arith, length, All, Bool-cases, inl, inr, append-nil, append_assoc,
}
use teiid_operator.Text.{Str}
use teiid_operator.Regex.Defs.{
  Re, set, seq, star, eol, Caps, Found, run, star_run, concat_map, find_anchored,
}
use teiid_operator.Regex.First.{
  First, First-seq, First-set, First-star_set, ltb-suc, Fails, find_anchored-First,
  find_anchored-Fails,
}

abbrev pub all_of : (ℕ → Bool) → Str → Bool
all_of q [] = true
all_of q (c ∷ w) = q c && all_of q w

abbrev pub starts_all : (ℕ → Bool) → (ℕ → Bool) → Str → Bool
starts_all p q [] = false
starts_all p q (c ∷ w) = p c && all_of q w

abbrev pub word_regex : (ℕ → Bool) → (ℕ → Bool) → Re
word_regex p q = seq (set p) (seq (star (set q)) eol)

concat_map-append :
    (f : Found → List Found) (xs ys : List Found)
    → concat_map f (xs ++ ys) ≡ concat_map f xs ++ concat_map f ys
unfolding concat_map
concat_map-append f [] ys = refl
concat_map-append f (x ∷ xs) ys = simp (concat_map-append f xs ys, append_assoc)

abbrev ends : Found → List Found
ends found = run eol found.0 found.1

-- No split of the text by the star leaves nothing.
star_run_stuck :
    (q : ℕ → Bool) (w : Str) (caps : Caps) (n : ℕ)
    → all_of q w ≡ false
    → length w ≤ n
    → concat_map ends (star_run (run (set q)) n w caps) ≡ []
unfolding star_run run
star_run_stuck q [] caps n h fits = cc
star_run_stuck q (c ∷ w) caps zero h fits = absurd (omega arith)
star_run_stuck q (c ∷ w) caps (suc n) h fits = elim (Bool-cases (q c)) [
  | inr e ↦ rw e
  | inl e ↦
      rw (e, ltb-suc (length w), append-nil (star_run (run (set q)) n w caps), concat_map-append)
        (rw (star_run_stuck q w caps n (ground (arith, e)) (omega arith)))
]

All-all_of : (q : ℕ → Bool) (w : Str) → all_of q w ≡ true → All (λ c. q c ≡ true) w
All-all_of q [] h = tt
All-all_of q (c ∷ w) h = (ground arith, All-all_of q w (ground arith))

Fails-rest :
    (q : ℕ → Bool) (w : Str) (caps : Caps)
    → all_of q w ≡ false
    → Fails (seq (star (set q)) eol) w caps
unfolding run
Fails-rest q w caps h = star_run_stuck q w caps (length w) h (omega arith)

Fails-word_regex :
    (p q : ℕ → Bool) (w : Str) → starts_all p q w ≡ false → Fails (word_regex p q) w []
unfolding run
Fails-word_regex p q [] h = refl
Fails-word_regex p q (c ∷ w) h = elim (Bool-cases (p c)) [
  | inl e ↦ rw (e, Fails-rest q w [] (ground (arith, e)))
  | inr e ↦ rw e
]

First-word_regex :
    (p q : ℕ → Bool) (w : Str) → starts_all p q w ≡ true → First (word_regex p q) w [] ([], [])
First-word_regex p q [] h = cc
First-word_regex p q (c ∷ w) h =
    First-seq (set p) (seq (star (set q)) eol) (c ∷ w) [] (w, []) ([], [])
      (First-set p c w [] (ground arith))
      (First-seq (star (set q)) eol w [] ([], []) ([], [])
        (rw (append-nil w) at (First-star_set q w [] [] (All-all_of q w (ground arith)) tt))
        ([], unfold run in refl))

-- What a search says of a text.
abbrev pub found? : Option Found → Bool
found? none = false
found? (some _) = true

pub find_anchored-word_regex :
    (p q : ℕ → Bool) (w : Str) → found? (find_anchored (word_regex p q) w) ≡ starts_all p q w
find_anchored-word_regex p q w = elim (Bool-cases (starts_all p q w)) [
  | inl e ↦ rw (e, find_anchored-First (word_regex p q) w ([], []) (First-word_regex p q w e))
  | inr e ↦ rw (e, find_anchored-Fails (word_regex p q) w (Fails-word_regex p q w e))
]
