-- ===== src/Vdbutil.antt =====
-- pkg/util/vdbutil/parser.go: what the operator reads in the DDL of a virtual database.
pub mod Names
use teiid_operator.Prelude.{
  ℕ, Bool, true, false, not, ◌&&◌, ◌||◌, Option, none, some, List, [], ◌∷◌, ◌++◌, leb,
  if◌then◌else◌, for_each, take, drop, length, ◌-◌, nat_Eq, ◌==◌, ◌+◌,
}
use teiid_operator.Text.{Str, codes, has_prefix, has_suffix, to_lower, to_upper}
use teiid_operator.Regex.{
  Re, eps, set, seq, alt, star, group, eol, plus, opt, lazy_opt, lit, lit_fold, exactly, none_of,
  is_digit, is_word, is_space, find, find_all, find_anchored, group_text, Caps, Found,
}
use teiid_operator.Result.{Result, ok, err, failed}

pub record DatasourceInfo : Type 0 where
  pub name : Str
  pub type : Str

abbrev quote : ℕ
quote = 39

abbrev double_quote : ℕ
double_quote = 34

abbrev semicolon : ℕ
semicolon = b';'

abbrev quoted : ℕ → Re
quoted q = seq (set (exactly q)) (seq (star (set (none_of (q ∷ [])))) (set (exactly q)))

-- \w('[^']*'|"[^"]*"|[^'";])*;
abbrev pub token_regex : Re
token_regex = seq (set is_word) (
    seq
      (star (
        alt (quoted quote)
          (alt (quoted double_quote) (set (none_of (quote ∷ double_quote ∷ semicolon ∷ []))))))
      (set (exactly semicolon)))

unfoldable pub tokenize : Str → List Str
unfolding find_all
tokenize ddl = find_all token_regex ddl

-- (/\*([^*]|\*[^/])*\*/|--[^\r\n]*[\r\n]|\s)+ with its two groups
abbrev comment_or_space : ℕ → Re
comment_or_space i = plus (
    group i (
      alt
        (seq (lit (codes "/*")) (
          seq
            (star (
              group (i + 1) (
                alt (set (none_of (b'*' ∷ [])))
                  (seq (set (exactly b'*')) (set (none_of (b'/' ∷ [])))))))
            (lit (codes "*/"))))
        (alt
          (seq (lit (codes "--"))
            (seq (star (set (none_of (13 ∷ 10 ∷ [])))) (set (λ c. c == 13 || c == 10))))
          (set is_space))))

-- (\w+|(?:"[^"]*")|()'[^']*'+) with its two groups
abbrev id : ℕ → Re
id i = group i (
    alt (plus (set is_word)) (
      alt (quoted double_quote) (
        seq (group (i + 1) eps) (
          seq (set (exactly quote))
            (seq (star (set (none_of (quote ∷ [])))) (plus (set (exactly quote))))))))

infixr 6 ◌then◌
abbrev ◌then◌ : Re → Re → Re
r then t = seq r t

-- The groups are numbered as the parentheses of the source's text are.
abbrev pub server_regex : Re
server_regex =
    lit (codes "CREATE")
    then comment_or_space 1
    then lit (codes "SERVER")
    then comment_or_space 3
    then id 5
    then comment_or_space 7
    then lazy_opt
        (group 9 (lit (codes "TYPE") then comment_or_space 10 then id 12 then comment_or_space 14))
    then lit (codes "FOREIGN")
    then comment_or_space 16
    then lit (codes "DATA")
    then comment_or_space 18
    then lit (codes "WRAPPER")
    then comment_or_space 20
    then id 22

abbrev pub wrapper_regex : Re
wrapper_regex =
    lit (codes "CREATE")
    then comment_or_space 1
    then lit (codes "FOREIGN")
    then comment_or_space 3
    then lit (codes "DATA")
    then comment_or_space 5
    then lit (codes "WRAPPER")
    then comment_or_space 7
    then id 9
    then comment_or_space 11
    then lit (codes "TYPE")
    then comment_or_space 13
    then id 15

-- The text of one double quote alone, on which the slice would panic, is none that an expression gives.
unfoldable pub strip_quotes : Str → Str
unfolding has_prefix has_suffix to_lower
strip_quotes s =
    if has_prefix s (double_quote ∷ []) && has_suffix s (double_quote ∷ [])
    then to_lower (take (length s - 2) (drop 1 s))
    else to_lower s

-- The source that an expression finds in a statement, by the groups of its name and of its type.
unfoldable pub source_of : Re → ℕ → ℕ → Str → List DatasourceInfo
unfolding find group_text strip_quotes
source_of r name type line = elim (find r line) [
  | none ↦ []
  | some found ↦
      record {
        name = strip_quotes (group_text found.1 name);
        type = strip_quotes (group_text found.1 type);
      }
      ∷ []
]

unfoldable pub sources_of_line : Str → List DatasourceInfo
unfolding source_of to_upper
sources_of_line line =
    source_of server_regex 5 22 (to_upper line) ++ source_of wrapper_regex 9 15 (to_upper line)

unfoldable pub sources_of : List Str → List DatasourceInfo
unfolding sources_of_line
sources_of [] = []
sources_of (line ∷ lines) = sources_of_line line ++ sources_of lines

unfoldable pub parse_data_sources_info_from_ddl : Str → List DatasourceInfo
unfolding tokenize sources_of
parse_data_sources_info_from_ddl ddl = sources_of (tokenize ddl)

abbrev pub materialization_regex : Re
materialization_regex =
    lit_fold (codes "MATERIALIZED")
    then comment_or_space 1
    then opt (set (exactly quote))
    then lit_fold (codes "TRUE")
    then opt (set (exactly quote))

abbrev pub materialization_table_regex : Re
materialization_table_regex = lit_fold (codes "MATERIALIZED_TABLE") then comment_or_space 1

abbrev pub view_regex : Re
view_regex =
    lit_fold (codes "CREATE")
    then comment_or_space 1
    then opt (group 3 (lit_fold (codes "VIRTUAL") then comment_or_space 4))
    then lit_fold (codes "VIEW")
    then comment_or_space 6

unfoldable pub matches : Re → Str → Bool
unfolding find
matches r s = elim (find r s) [ some _ ↦ true | none ↦ false ]

unfoldable pub materializes : Str → Bool
unfolding matches
materializes line =
    matches view_regex line
    && (matches materialization_regex line && not (matches materialization_table_regex line))

unfoldable pub any_materializes : List Str → Bool
unfolding materializes to_upper
any_materializes [] = false
any_materializes (line ∷ lines) = materializes (to_upper line) || any_materializes lines

unfoldable pub should_materialize : Str → Bool
unfolding any_materializes tokenize
should_materialize ddl = any_materializes (tokenize ddl)

abbrev pub is_letter : ℕ → Bool
is_letter c = (leb b'a' c && leb c b'z') || (leb b'A' c && leb c b'Z')

-- ^[a-zA-Z]{1}[a-zA-Z0-9_]*$
abbrev pub datasource_name_regex : Re
datasource_name_regex = seq (set is_letter) (seq (star (set is_word)) eol)

unfoldable pub validate_data_source_names : List DatasourceInfo → Result (Unit {0})
unfolding find_anchored
validate_data_source_names [] = ok tt
validate_data_source_names (ds ∷ rest) = elim (find_anchored datasource_name_regex ds.name) [
  | some _ ↦ validate_data_source_names rest
  | none ↦ err (
      failed (
        codes "The datasource with name "
        ++ ds.name
        ++ codes
            " does not confirm to naming rules. Can not contain any special characters/hyphens/periods"))
]
