-- ===== src/Regex/Defs.antt =====
-- Regular expressions as Go's package `regexp` matches them: of the matches that begin leftmost, the
-- one that a backtracking search finds first. `run` lists what a search meets, in its order. The
-- operator repeats only bodies that match at least one byte, so an iteration of a star that consumes
-- nothing is left out.
use teiid_operator.Prelude.{
  ℕ, zero, suc, Bool, true, false, not, ◌&&◌, ◌||◌, Option, none, some, List, [], ◌∷◌, ◌++◌, ltb,
  leb, nat_Eq, ◌==◌, length, if◌then◌else◌,
}
use teiid_operator.Text.{Str, upper}

pub data Re : Type 0 where
  eps : Re
  set : (ℕ → Bool) → Re
  seq alt : Re → Re → Re
  star : Re → Re
  group : ℕ → Re → Re
  eol : Re

-- The texts of the groups that have matched, the latest first.
abbrev pub Caps : Type 0
Caps = List (ℕ × Str)

-- What is left of the text, and the groups.
abbrev pub Found : Type 0
Found = Str × Caps

unfoldable pub concat_map : (Found → List Found) → List Found → List Found
concat_map f [] = []
concat_map f (x ∷ xs) = f x ++ concat_map f xs

-- Greedy repetition, at most as often as there are bytes.
unfoldable pub star_run : (Str → Caps → List Found) → ℕ → Str → Caps → List Found
unfolding concat_map
star_run step zero s caps = (s, caps) ∷ []
star_run step (suc n) s caps =
    concat_map
      (λ found. elim (ltb (length found.0) (length s)) [
        | true ↦ star_run step n found.0 found.1
        | false ↦ []
      ])
      (step s caps)
    ++ (s, caps) ∷ []

-- The text before what is left.
unfoldable pub take_until : Str → Str → Str
take_until [] rest = []
take_until (c ∷ s) rest = if ltb (length rest) (length (c ∷ s)) then c ∷ take_until s rest else []

run_set : (ℕ → Bool) → Str → Caps → List Found
run_set p [] caps = []
run_set p (c ∷ s) caps = if p c then (s, caps) ∷ [] else []

at_end : Str → Caps → List Found
at_end [] caps = ([], caps) ∷ []
at_end (c ∷ s) caps = []

unfoldable pub run : Re → Str → Caps → List Found
unfolding run_set at_end star_run concat_map take_until
run eps s caps = (s, caps) ∷ []
run (set p) s caps = run_set p s caps
run (seq r t) s caps = concat_map (λ found. run t found.0 found.1) (run r s caps)
run (alt r t) s caps = run r s caps ++ run t s caps
run (star r) s caps = star_run (run r) (length s) s caps
run (group i r) s caps =
    concat_map (λ found. (found.0, (i, take_until s found.0) ∷ found.1) ∷ []) (run r s caps)
run eol s caps = at_end s caps

abbrev pub plus : Re → Re
plus r = seq r (star r)

-- r?
abbrev pub opt : Re → Re
opt r = alt r eps

-- r??
abbrev pub lazy_opt : Re → Re
lazy_opt r = alt eps r

abbrev first : List Found → Option Found
first [] = none
first (x ∷ xs) = some x

-- FindStringSubmatch of an expression that begins with `^`.
unfoldable pub find_anchored : Re → Str → Option Found
unfolding run
find_anchored r s = first (run r s [])

-- FindStringSubmatch: the first place where the expression matches. The text of the match stands in
-- group 0.
unfoldable pub find : Re → Str → Option Found
unfolding run
find r [] = first (run (group 0 r) [] [])
find r (c ∷ s) = elim (first (run (group 0 r) (c ∷ s) [])) [
  | some found ↦ some found
  | none ↦ find r s
]

-- The submatch of a group, and the empty text for a group that took no part.
unfoldable pub group_text : Caps → ℕ → Str
group_text [] i = []
group_text ((j, t) ∷ caps) i = if j == i then t else group_text caps i

-- FindAllString(s, -1), on fuel: an expression that matches at least one byte is found at most as often
-- as there are bytes.
find_all_fuel : ℕ → Re → Str → List Str
unfolding find group_text
find_all_fuel zero r s = []
find_all_fuel (suc n) r s = elim (find r s) [
  | none ↦ []
  | some (rest, caps) ↦ group_text caps 0 ∷ find_all_fuel n r rest
]

unfoldable pub find_all : Re → Str → List Str
unfolding find_all_fuel
find_all r s = find_all_fuel (length s) r s

-- Classes of bytes.
unfoldable pub exactly : ℕ → ℕ → Bool
exactly b c = c == b

unfoldable pub none_of : List ℕ → ℕ → Bool
none_of [] c = true
none_of (b ∷ bs) c = not (c == b) && none_of bs c

unfoldable pub is_digit : ℕ → Bool
is_digit c = leb b'0' c && leb c b'9'

-- \w
unfoldable pub is_word : ℕ → Bool
unfolding is_digit
is_word c = (leb b'a' c && leb c b'z') || (leb b'A' c && leb c b'Z') || is_digit c || c == b'_'

-- \s
unfoldable pub is_space : ℕ → Bool
is_space c = c == 32 || c == 9 || c == 10 || c == 12 || c == 13

-- A literal text.
unfoldable pub lit : Str → Re
unfolding exactly
lit [] = eps
lit (c ∷ s) = seq (set (exactly c)) (lit s)

-- A literal text in capitals, under the flag `i`.
unfoldable pub lit_fold : Str → Re
unfolding upper
lit_fold [] = eps
lit_fold (c ∷ s) = seq (set (λ d. upper d == c)) (lit_fold s)
