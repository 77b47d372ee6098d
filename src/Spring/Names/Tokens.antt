-- ===== src/Spring/Names/Tokens.antt =====
-- tokenizeAtUpperCase.
use teiid_operator.Prelude.{
  ℕ, zero, suc, ◌≤◌, ◌≡◌, refl, ap, Bool, true, false, List, [], ◌∷◌, ◌++◌, arith, length, take,
  drop, if◌then◌else◌, Bool-cases, Option-cases, inl, inr, length-drop-le,
}
use teiid_operator.Text.{Str, is_upper, push_first}
use teiid_operator.Spring.Names.{index_upper, word_length, tokenize_fuel, tokenize_at_upper_case}

-- The words by their definition: a capital begins a new word.
abbrev pub begins_upper : Str → Bool
begins_upper [] = true
begins_upper (c ∷ s) = is_upper c

pub words : Str → List Str
words [] = []
words (c ∷ s) = let rest = words s in if begins_upper s then (c ∷ []) ∷ rest else push_first c rest

word_length-cons :
    (c d : ℕ) (s : Str) → is_upper d ≡ false → word_length (c ∷ d ∷ s) ≡ suc (word_length (d ∷ s))
unfolding word_length
word_length-cons c d s h = elim (Option-cases (index_upper s)) [
  | inl e ↦ rw (h, e, word_length)
  | inr (i, e) ↦ rw (h, e, word_length)
]

word_length-upper : (c d : ℕ) (s : Str) → is_upper d ≡ true → word_length (c ∷ d ∷ s) ≡ 1
unfolding word_length
word_length-upper c d s h = rw (h, word_length)

word_length-pos : (c : ℕ) (s : Str) → (i : ℕ) × (word_length (c ∷ s) ≡ suc i)
unfolding word_length
word_length-pos c s = elim (Option-cases (index_upper s)) [
  | inl e ↦ (length s, rw (e, word_length))
  | inr (i, e) ↦ (i, rw (e, word_length))
]

-- One round of the loop cuts off the first word.
words-step :
    (c : ℕ) (s : Str)
    → words (c ∷ s)
      ≡ take (word_length (c ∷ s)) (c ∷ s) ∷ words (drop (word_length (c ∷ s)) (c ∷ s))
unfolding words
words-step c [] = unfold word_length in refl
words-step c (d ∷ s) = elim (Bool-cases (is_upper d)) [
  | inl e ↦ rw (e, word_length-upper c d s e)
  | inr e ↦ rw (e, word_length-cons c d s e, words-step d s)
]

tokenize_fuel-eq-words : (n : ℕ) (s : Str) → length s ≤ n → tokenize_fuel n s ≡ words s
unfolding tokenize_fuel words
tokenize_fuel-eq-words zero [] h = refl
tokenize_fuel-eq-words zero (c ∷ s) h = absurd (omega arith)
tokenize_fuel-eq-words (suc n) [] h = refl
tokenize_fuel-eq-words (suc n) (c ∷ s) h =
    let (i, e) = word_length-pos c s in
    rw (words-step c s, e)
      (ap (λ (ws : List Str). take (suc i) (c ∷ s) ∷ ws)
        (tokenize_fuel-eq-words n (drop i s) (omega (arith, length-drop-le i s))))

-- The loop has fuel enough, and cuts the text before each capital but a leading one.
pub tokenize_at_upper_case-eq-words : (s : Str) → tokenize_at_upper_case s ≡ words s
unfolding tokenize_at_upper_case
tokenize_at_upper_case-eq-words s = tokenize_fuel-eq-words (length s) s (omega arith)

-- The words in their order are the text.
unfoldable pub concat : List Str → Str
concat [] = []
concat (w ∷ ws) = w ++ concat ws

concat-push_first : (c : ℕ) (ws : List Str) → concat (push_first c ws) ≡ c ∷ concat ws
unfolding concat
concat-push_first c [] = refl
concat-push_first c (w ∷ ws) = refl

concat-nil : concat [] ≡ []
unfolding concat
concat-nil = refl

concat-cons : (w : Str) (ws : List Str) → concat (w ∷ ws) ≡ w ++ concat ws
unfolding concat
concat-cons w ws = refl

pub concat-words : (s : Str) → concat (words s) ≡ s
unfolding words
concat-words [] = concat-nil
concat-words (c ∷ s) = elim (Bool-cases (begins_upper s)) [
  | inl e ↦ rw (e, concat-cons) (ap (λ (t : Str). c ∷ t) (concat-words s))
  | inr e ↦ rw (e, concat-push_first) (ap (λ (t : Str). c ∷ t) (concat-words s))
]
