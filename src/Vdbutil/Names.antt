-- ===== src/Vdbutil/Names.antt =====
-- ValidateDataSourceNames of pkg/util/vdbutil/parser.go.
use teiid_operator.Prelude.{◌≡◌, refl, ◌↔◌, Bool, true, ◌&&◌, List, [], ◌∷◌, arith}
use teiid_operator.Regex.{is_word}
use teiid_operator.Regex.Words.{starts_all, find_anchored-word_regex}
use teiid_operator.Result.{ok}
use teiid_operator.Vdbutil.{DatasourceInfo, validate_data_source_names, is_letter}

-- A letter, and then letters, digits and underscores.
abbrev pub all_named : List DatasourceInfo → Bool
all_named [] = true
all_named (ds ∷ rest) = starts_all is_letter is_word ds.name && all_named rest

-- The data sources are accepted exactly when each name is a letter followed by letters, digits and
-- underscores.
pub validate_data_source_names_iff :
    (ds : List DatasourceInfo) → (validate_data_source_names ds ≡ ok tt) ↔ (all_named ds ≡ true)
unfolding validate_data_source_names
validate_data_source_names_iff [] = (λ h. refl, λ h. refl)
validate_data_source_names_iff (d ∷ ds) =
    let same = find_anchored-word_regex is_letter is_word d.name in
    let rest = validate_data_source_names_iff ds in
    (λ h. ground (arith, same, rest.0), λ h. ground (arith, same, rest.1))
