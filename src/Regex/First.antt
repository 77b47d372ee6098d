-- ===== src/Regex/First.antt =====
-- The match that a search finds first, expression by expression.
use teiid_operator.Prelude.{
  ℕ, zero, suc, ◌≤◌, ◌≡◌, refl, ap, Bool, true, false, none, some, List, [], ◌∷◌, ◌++◌, arith,
  length, length-append, All, ltb,
}
use teiid_operator.Text.{Str}
use teiid_operator.Regex.Defs.{
  Re, eps, set, seq, alt, star, group, Caps, Found, run, star_run, concat_map, take_until, find,
  find_anchored,
}

-- `r` at the text `s` first finds the match that leaves `out`.
abbrev pub First : Re → Str → Caps → Found → Type 0
First r s caps out = (l : List Found) × (run r s caps ≡ out ∷ l)

-- `r` does not match at the text `s`.
abbrev pub Fails : Re → Str → Caps → Type 0
Fails r s caps = run r s caps ≡ []

module _ (r t : Re) (s : Str) (caps : Caps) where
  pub First-seq :
      (mid out : Found) → First r s caps mid → First t mid.0 mid.1 out → First (seq r t) s caps out
  unfolding run
  First-seq mid out (l, e) (l', e') =
      (l' ++ concat_map (λ found. run t found.0 found.1) l, rw (e, e'))

  pub First-alt_left : (out : Found) → First r s caps out → First (alt r t) s caps out
  unfolding run
  First-alt_left out (l, e) = (l ++ run t s caps, rw e)

  pub First-alt_right :
      (out : Found) → Fails r s caps → First t s caps out → First (alt r t) s caps out
  unfolding run
  First-alt_right out e (l, e') = (l, rw (e, e'))

  pub Fails-seq : Fails r s caps → Fails (seq r t) s caps
  unfolding run
  Fails-seq e = rw e

pub take_until-append : (w rest : Str) → take_until (w ++ rest) rest ≡ w
unfolding take_until
take_until-append [] [] = refl
take_until-append [] (c ∷ rest) = ground arith
take_until-append (c ∷ w) rest = ground (arith, take_until-append w rest, length-append w rest)

pub First-group :
    (i : ℕ) (r : Re) (w rest s : Str) (caps caps' : Caps)
    → s ≡ w ++ rest
    → First r s caps (rest, caps')
    → First (group i r) s caps (rest, (i, w) ∷ caps')
unfolding run
First-group i r w rest s caps caps' split (l, e) =
    let others : List Found =
      concat_map (λ found. (found.0, (i, take_until s found.0) ∷ found.1) ∷ []) l in
    let text : take_until s rest ≡ w = rw split (take_until-append w rest) in
    (others, rw e (ap (λ (t : Str). (rest, (i, t) ∷ caps') ∷ others) text))

pub Fails-group :
    (i : ℕ) (r : Re) (s : Str) (caps : Caps) → Fails r s caps → Fails (group i r) s caps
unfolding run
Fails-group i r s caps e = rw e

pub First-eps : (s : Str) (caps : Caps) → First eps s caps (s, caps)
unfolding run
First-eps s caps = ([], refl)

pub First-set :
    (p : ℕ → Bool) (c : ℕ) (s : Str) (caps : Caps)
    → p c ≡ true
    → First (set p) (c ∷ s) caps (s, caps)
unfolding run
First-set p c s caps h = ([], rw h)

-- The text begins with no byte of the class.
abbrev pub Stops : (ℕ → Bool) → Str → Type 0
Stops p [] = Unit {0}
Stops p (c ∷ s) = p c ≡ false

pub Fails-set : (p : ℕ → Bool) (s : Str) (caps : Caps) → Stops p s → Fails (set p) s caps
unfolding run
Fails-set p [] caps h = refl
Fails-set p (c ∷ s) caps h = rw h

pub ltb-suc : (n : ℕ) → ltb n (suc n) ≡ true
ltb-suc n = ground arith

star_run-set :
    (p : ℕ → Bool) (w rest : Str) (caps : Caps) (n : ℕ)
    → All (λ c. p c ≡ true) w
    → Stops p rest
    → length w ≤ n
    → (l : List Found) × (star_run (run (set p)) n (w ++ rest) caps ≡ (rest, caps) ∷ l)
unfolding star_run run
star_run-set p [] rest caps zero a h fits = ([], refl)
star_run-set p [] [] caps (suc n) a h fits = ([], refl)
star_run-set p [] (c ∷ rest) caps (suc n) a h fits = ([], rw h)
star_run-set p (c ∷ w) rest caps zero a h fits = absurd (omega arith)
star_run-set p (c ∷ w) rest caps (suc n) a h fits =
    let (l, e) = star_run-set p w rest caps n a.1 h (omega arith) in
    ((l ++ []) ++ (c ∷ (w ++ rest), caps) ∷ [], rw (a.0, ltb-suc (length (w ++ rest)), e))

-- A class repeated greedily takes all bytes of the class.
pub First-star_set :
    (p : ℕ → Bool) (w rest : Str) (caps : Caps)
    → All (λ c. p c ≡ true) w
    → Stops p rest
    → First (star (set p)) (w ++ rest) caps (rest, caps)
unfolding run
First-star_set p w rest caps a h =
    star_run-set p w rest caps (length (w ++ rest)) a h (omega (arith, length-append w rest))

pub First-plus_set :
    (p : ℕ → Bool) (c : ℕ) (w rest : Str) (caps : Caps)
    → p c ≡ true
    → All (λ d. p d ≡ true) w
    → Stops p rest
    → First (seq (set p) (star (set p))) (c ∷ (w ++ rest)) caps (rest, caps)
First-plus_set p c w rest caps h a st =
    First-seq (set p) (star (set p)) (c ∷ (w ++ rest)) caps (w ++ rest, caps) (rest, caps)
      (First-set p c (w ++ rest) caps h) (First-star_set p w rest caps a st)

-- Where a match starts at once, the search finds it.
pub find-First :
    (r : Re) (s rest : Str) (caps : Caps)
    → First (group 0 r) s [] (rest, caps)
    → find r s ≡ some (rest, caps)
unfolding find
find-First r [] rest caps (l, e) = rw e
find-First r (c ∷ s) rest caps (l, e) = rw (e, find)

pub find_anchored-First :
    (r : Re) (s : Str) (out : Found) → First r s [] out → find_anchored r s ≡ some out
unfolding find_anchored
find_anchored-First r s out (l, e) = rw e

pub find_anchored-Fails : (r : Re) (s : Str) → Fails r s [] → find_anchored r s ≡ none
unfolding find_anchored
find_anchored-Fails r s e = rw e
