-- ===== src/Spring/Names.antt =====
-- pkg/controller/virtualdatabase/convert-ds-properties.go: the names of properties.
pub mod Tokens
pub mod Sanitize
use teiid_operator.Prelude.{
  ℕ, zero, suc, Bool, true, false, ◌&&◌, ◌||◌, Option, none, some, List, [], ◌∷◌, ◌++◌, ltb, nat_Eq,
  ◌==◌, if◌then◌else◌, take, drop, length,
}
use teiid_operator.Text.{Str, codes, is_upper, to_lower, to_upper, replace_byte, remove_byte}

-- strings.IndexFunc(s, unicode.IsUpper)
unfoldable pub index_upper : Str → Option ℕ
unfolding is_upper
index_upper [] = none
index_upper (c ∷ s) =
    if is_upper c then some 0 else elim (index_upper s) [ none ↦ none | some i ↦ some (suc i) ]

-- The length of the first word of a text that is not empty: its first byte is not looked at.
unfoldable pub word_length : Str → ℕ
unfolding index_upper
word_length s = elim (index_upper (drop 1 s)) [ none ↦ length s | some i ↦ suc i ]

-- The loop, on fuel: each round takes at least one byte.
unfoldable pub tokenize_fuel : ℕ → Str → List Str
unfolding word_length
tokenize_fuel zero s = []
tokenize_fuel (suc n) [] = []
tokenize_fuel (suc n) (c ∷ s) =
    take (word_length (c ∷ s)) (c ∷ s) ∷ tokenize_fuel n (drop (word_length (c ∷ s)) (c ∷ s))

unfoldable pub tokenize_at_upper_case : Str → List Str
unfolding tokenize_fuel
tokenize_at_upper_case s = tokenize_fuel (length s) s

unfoldable pub last_byte : Str → ℕ
last_byte [] = 0
last_byte (c ∷ []) = c
last_byte (c ∷ d ∷ s) = last_byte (d ∷ s)

-- No dash goes behind a token of one byte, nor behind one that ends in a dot or a dash.
unfoldable pub glues : Str → Bool
unfolding last_byte
glues prev =
    length prev == 1
    || ((ltb 1 (length prev) && last_byte prev == b'.')
        || (ltb 1 (length prev) && last_byte prev == b'-'))

unfoldable pub sanitize_rest : Str → Str → List Str → Str
sanitize_rest modified prev [] = modified
sanitize_rest modified prev (str ∷ tokens) =
    sanitize_rest
      (if glues prev then modified ++ to_lower str else modified ++ codes "-" ++ to_lower str) str
      tokens

unfoldable pub sanitize_tokens : List Str → Str
sanitize_tokens [] = []
sanitize_tokens (str ∷ tokens) = sanitize_rest (to_lower str) str tokens

unfoldable pub sanitize_name : Str → Str
sanitize_name v = sanitize_tokens (tokenize_at_upper_case v)

unfoldable pub env_ready : Str → Str
unfolding to_upper replace_byte
env_ready v = to_upper (replace_byte b'-' b'_' (replace_byte b'.' b'_' v))

unfoldable pub remove_dash : Str → Str
unfolding remove_byte
remove_dash = remove_byte b'-'
