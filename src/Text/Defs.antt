-- ===== src/Text/Defs.antt =====
-- The functions of the package `strings` that the operator calls, on lists of bytes.
use Prim.Native.Char.{code}
use teiid_operator.Prelude.{
  ℕ, suc, ◌+◌, ◌-◌, String, Bool, true, false, ◌&&◌, ◌||◌, Option, none, some, List, [], ◌∷◌, ◌++◌,
  map, ◌≡◌, refl, ◌↔◌, arith, leb, Eq, ◌==◌, nat_beq, nat_beq_iff, nat_Eq, if◌then◌else◌,
}

abbrev pub Str : Type 0
Str = List ℕ

-- A literal of the source.
abbrev pub codes : String → Str
codes String.[] = []
codes (String.◌∷◌ c s) = code c ∷ codes s

unfoldable pub text_beq : Str → Str → Bool
text_beq [] [] = true
text_beq [] (b ∷ t) = false
text_beq (a ∷ s) [] = false
text_beq (a ∷ s) (b ∷ t) = nat_beq a b && text_beq s t

text_beq_sound : (s t : Str) → text_beq s t ≡ true → s ≡ t
unfolding text_beq
text_beq_sound [] [] h = refl
text_beq_sound [] (b ∷ t) h = cc
text_beq_sound (a ∷ s) [] h = cc
text_beq_sound (a ∷ s) (b ∷ t) h = ground (arith, nat_beq_iff a b, text_beq_sound s t)

text_beq_refl : (s : Str) → text_beq s s ≡ true
unfolding text_beq
text_beq_refl [] = refl
text_beq_refl (a ∷ s) = rw ((nat_beq_iff a a).1 refl) (text_beq_refl s)

pub text_beq_iff : (s t : Str) → (text_beq s t ≡ true) ↔ (s ≡ t)
text_beq_iff s t = (text_beq_sound s t, λ e. rw (← e) (text_beq_refl s))

instance abbrev pub text_Eq : Eq Str
text_Eq = record { same? = text_beq; same?_iff = text_beq_iff }

-- strings.HasPrefix(s, prefix)
unfoldable pub has_prefix : Str → Str → Bool
has_prefix s [] = true
has_prefix [] (p ∷ ps) = false
has_prefix (c ∷ s) (p ∷ ps) = nat_beq c p && has_prefix s ps

-- strings.HasSuffix(s, suffix): the suffix is met at the place where as much is left.
unfoldable pub has_suffix : Str → Str → Bool
unfolding text_beq
has_suffix [] t = text_beq [] t
has_suffix (c ∷ s) t = text_beq (c ∷ s) t || has_suffix s t

-- strings.Contains(s, sub)
unfoldable pub contains : Str → Str → Bool
unfolding has_prefix
contains [] t = has_prefix [] t
contains (c ∷ s) t = has_prefix (c ∷ s) t || contains s t

-- strings.Index(s, b) for a text of one byte; `none` is -1.
unfoldable pub index_byte : Str → ℕ → Option ℕ
index_byte [] b = none
index_byte (c ∷ s) b =
    if c == b then some 0 else elim (index_byte s b) [ none ↦ none | some i ↦ some (suc i) ]

-- strings.Count(s, b) for a text of one byte.
unfoldable pub count_byte : Str → ℕ → ℕ
count_byte [] b = 0
count_byte (c ∷ s) b = let rest = count_byte s b in if c == b then suc rest else rest

abbrev pub push_first : ℕ → List Str → List Str
push_first c [] = (c ∷ []) ∷ []
push_first c (w ∷ ws) = (c ∷ w) ∷ ws

-- strings.Split(s, sep) for a separator of one byte.
unfoldable pub split_byte : Str → ℕ → List Str
split_byte [] b = [] ∷ []
split_byte (c ∷ s) b = let rest = split_byte s b in if c == b then [] ∷ rest else push_first c rest

-- strings.Join(words, sep)
unfoldable pub join : List Str → Str → Str
join [] sep = []
join (w ∷ []) sep = w
join (w ∷ v ∷ ws) sep = w ++ (sep ++ join (v ∷ ws) sep)

-- strings.ReplaceAll(s, old, new) for texts of one byte.
unfoldable pub replace_byte : ℕ → ℕ → Str → Str
replace_byte old new = map (λ (c : ℕ). if c == old then new else c)

-- strings.ReplaceAll(s, old, "")
unfoldable pub remove_byte : ℕ → Str → Str
remove_byte old [] = []
remove_byte old (c ∷ s) = if c == old then remove_byte old s else c ∷ remove_byte old s

unfoldable pub is_upper : ℕ → Bool
is_upper c = leb b'A' c && leb c b'Z'

is_lower : ℕ → Bool
is_lower c = leb b'a' c && leb c b'z'

unfoldable pub upper : ℕ → ℕ
unfolding is_lower
upper c = if is_lower c then c - 32 else c

unfoldable pub lower : ℕ → ℕ
unfolding is_upper
lower c = if is_upper c then c + 32 else c

unfoldable pub to_upper : Str → Str
unfolding upper
to_upper = map upper

unfoldable pub to_lower : Str → Str
unfolding lower
to_lower = map lower

-- strings.EqualFold
unfoldable pub equal_fold : Str → Str → Bool
unfolding text_beq to_lower
equal_fold s t = text_beq (to_lower s) (to_lower t)

trim_left : Str → Str
trim_left [] = []
trim_left (c ∷ s) = if c == b' ' then trim_left s else c ∷ s

push_unless_blank : ℕ → Str → Str
push_unless_blank c [] = if c == b' ' then [] else c ∷ []
push_unless_blank c (d ∷ s) = c ∷ d ∷ s

trim_right : Str → Str
unfolding push_unless_blank
trim_right [] = []
trim_right (c ∷ s) = push_unless_blank c (trim_right s)

-- strings.Trim(s, " ")
unfoldable pub trim_space : Str → Str
unfolding trim_left trim_right
trim_space s = trim_right (trim_left s)
