-- ===== src/Maven/Gav.antt =====
-- ParseGAV of pkg/util/maven/maven.go: maven coordinates.
pub mod Groups
pub mod Roundtrip
use teiid_operator.Prelude.{ℕ, Bool, Option, none, some, List, [], ◌∷◌, nat_Eq, ◌==◌, if◌then◌else◌}
use teiid_operator.Text.{Str, codes, count_byte}
use teiid_operator.Regex.{
  Re, seq, set, group, star, opt, plus, exactly, none_of, find, group_text, Caps, Found,
}
use teiid_operator.Result.{Result, ok, err, failed}
use teiid_operator.Maven.Types.{Dependency}

abbrev pub colon : ℕ
colon = b':'

-- [^: ]
abbrev pub part_byte : ℕ → Bool
part_byte = none_of (colon ∷ b' ' ∷ [])

abbrev pub part : Re
part = plus (set part_byte)

-- (:([^: ]+))? with its two groups
abbrev pub optional_part : ℕ → ℕ → Re
optional_part i j = opt (group i (seq (set (exactly colon)) (group j part)))

-- ([^: ]+):([^: ]+)(:([^: ]*)(:([^: ]+))?)?(:([^: ]+))?
abbrev pub gav_regex : Re
gav_regex = seq (group 1 part) (
    seq (set (exactly colon)) (
      seq (group 2 part) (
        seq
          (opt (
            group 3 (
              seq (set (exactly colon))
                (seq (group 4 (star (set part_byte))) (optional_part 5 6)))))
          (optional_part 7 8))))

abbrev pub gav_message : Str
gav_message =
    codes "GAV must match <groupId>:<artifactId>[:<packagingType>[:<classifier>]]:(<version>|'?')"

-- The dependency of the groups of a match, with the parts that depend on the number of colons.
abbrev pub gav_parts : Caps → Str → Str → Str → Dependency
gav_parts res type classifier version = record {
  group_id = group_text res 1;
  artifact_id = group_text res 2;
  version = version;
  type = type;
  classifier = classifier;
  scope = [];
  exclusions = none;
}

-- The `switch` on the number of colons in the text.
unfoldable pub gav_dependency : Caps → ℕ → Dependency
unfolding group_text
gav_dependency res cnt =
    if cnt == 2
    then gav_parts res (codes "jar") [] (group_text res 4)
    else if cnt == 3
    then gav_parts res (group_text res 4) [] (group_text res 6)
    else gav_parts res (group_text res 4) (group_text res 6) (group_text res 8)

unfoldable pub parse_gav : Str → Result Dependency
unfolding find gav_dependency count_byte
parse_gav gav = elim (find gav_regex gav) [
  | none ↦ err (failed gav_message)
  | some found ↦ ok (gav_dependency found.1 (count_byte gav colon))
]
