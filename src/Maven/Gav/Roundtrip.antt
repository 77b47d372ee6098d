-- ===== src/Maven/Gav/Roundtrip.antt =====
-- Coordinates printed from parts, and ParseGAV of pkg/util/maven/maven.go on them.
use teiid_operator.Prelude.{
  ℕ, suc, ◌≡◌, refl, sym, ap, true, none, some, List, [], ◌∷◌, ◌++◌, arith, All, append-nil,
  append_assoc,
}
use teiid_operator.Text.{Str, codes, count_byte}
use teiid_operator.Regex.{none_of, find, Caps}
use teiid_operator.Result.{ok}
use teiid_operator.Maven.Types.{Dependency}
use teiid_operator.Maven.Gav.{part_byte, gav_regex, parse_gav, gav_dependency, colon}
use teiid_operator.Maven.Gav.Groups.{
  IsPart, Stops-colon, First-optional_part, First-no_part, First-tail3, First-gav,
}

-- The text of three parts, of four and of five.
abbrev pub gav_text : List Str → Str
gav_text [] = []
gav_text (w ∷ []) = w
gav_text (w ∷ v ∷ ws) = w ++ colon ∷ gav_text (v ∷ ws)

count_byte-part :
    (w s : Str) → All (λ c. part_byte c ≡ true) w → count_byte (w ++ s) colon ≡ count_byte s colon
unfolding count_byte none_of
count_byte-part [] s p = refl
count_byte-part (c ∷ w) s p = ground (arith, p.0, count_byte-part w s p.1)

All-IsPart : (w : Str) → IsPart w → All (λ c. part_byte c ≡ true) w
All-IsPart [] p = absurd p
All-IsPart (c ∷ w) p = p

-- A text of n + 1 parts has n colons.
count_byte-join :
    (w s : Str) → IsPart w → count_byte (w ++ colon ∷ s) colon ≡ suc (count_byte s colon)
unfolding count_byte
count_byte-join w s p = rw (count_byte-part w (colon ∷ s) (All-IsPart w p))

count_byte-last : (w : Str) → IsPart w → count_byte w colon ≡ 0
unfolding count_byte
count_byte-last w p = rw (← append-nil w) (count_byte-part w [] (All-IsPart w p))

abbrev pub coordinates : Str → Str → Str → Str → Str → Dependency
coordinates g a t c v = record {
  group_id = g;
  artifact_id = a;
  version = v;
  type = t;
  classifier = c;
  scope = [];
  exclusions = none;
}

-- What a match and the number of colons give.
parse_gav-find :
    (s rest : Str) (caps : Caps) (n : ℕ)
    → find gav_regex s ≡ some (rest, caps)
    → count_byte s colon ≡ n
    → parse_gav s ≡ ok (gav_dependency caps n)
unfolding parse_gav
parse_gav-find s rest caps n e k = rw (e, k, parse_gav)

module _ (g a v : Str) (pg : IsPart g) (pa : IsPart a) (pv : IsPart v) where
  two_groups : Caps
  two_groups = (2, a) ∷ (1, g) ∷ []

  -- Three parts are group, artifact and version of a jar.
  parse_gav-three : parse_gav (gav_text (g ∷ a ∷ v ∷ [])) ≡ ok (coordinates g a (codes "jar") [] v)
  unfolding two_groups gav_dependency
  parse_gav-three =
      let s : Str = gav_text (g ∷ a ∷ v ∷ []) in
      let caps : Caps = (3, colon ∷ v) ∷ (4, v) ∷ two_groups in
      parse_gav-find s [] ((0, s) ∷ caps) 2
        (First-gav g a (colon ∷ v) s [] caps caps pg pa (Stops-colon v) refl
          (First-tail3 v [] [] (colon ∷ v) v two_groups ((4, v) ∷ two_groups) pv tt
            (sym (append-nil v)) (sym (append-nil (colon ∷ v)))
            (First-no_part 5 6 ((4, v) ∷ two_groups)))
          (First-no_part 7 8 caps))
        (rw (count_byte-join g (a ++ colon ∷ v) pg, count_byte-join a v pa, count_byte-last v pv))

  module _ (t : Str) (pt : IsPart t) where
    -- A third part of four is the packaging type.
    parse_gav-four : parse_gav (gav_text (g ∷ a ∷ t ∷ v ∷ [])) ≡ ok (coordinates g a t [] v)
    unfolding two_groups gav_dependency
    parse_gav-four =
        let s : Str = gav_text (g ∷ a ∷ t ∷ v ∷ []) in
        let used : Str = colon ∷ (t ++ colon ∷ v) in
        let inner : Caps = (5, colon ∷ v) ∷ (6, v) ∷ (4, t) ∷ two_groups in
        parse_gav-find s [] ((0, s) ∷ (3, used) ∷ inner) 3
          (First-gav g a used s [] ((3, used) ∷ inner) ((3, used) ∷ inner) pg pa
            (Stops-colon (t ++ colon ∷ v)) refl
            (First-tail3 t (colon ∷ v) [] used (t ++ colon ∷ v) two_groups inner pt (Stops-colon v)
              refl (sym (append-nil used))
              (First-optional_part 5 6 v [] v ((4, t) ∷ two_groups) pv tt (sym (append-nil v))))
            (First-no_part 7 8 ((3, used) ∷ inner)))
          (rw (
            count_byte-join g (a ++ colon ∷ (t ++ colon ∷ v)) pg,
            count_byte-join a (t ++ colon ∷ v) pa,
            count_byte-join t v pt,
            count_byte-last v pv,
          ))

    -- A fourth part of five is the classifier.
    parse_gav-five :
        (c : Str)
        → IsPart c
        → parse_gav (gav_text (g ∷ a ∷ t ∷ c ∷ v ∷ [])) ≡ ok (coordinates g a t c v)
    unfolding two_groups gav_dependency
    parse_gav-five c pc =
        let s : Str = gav_text (g ∷ a ∷ t ∷ c ∷ v ∷ []) in
        let mid : Str = colon ∷ (c ++ colon ∷ v) in
        let used : Str = colon ∷ (t ++ colon ∷ c) in
        let inner : Caps = (5, colon ∷ c) ∷ (6, c) ∷ (4, t) ∷ two_groups in
        let caps : Caps = (7, colon ∷ v) ∷ (8, v) ∷ (3, used) ∷ inner in
        parse_gav-find s [] ((0, s) ∷ caps) 4
          (First-gav g a (colon ∷ (t ++ mid)) s (colon ∷ v) ((3, used) ∷ inner) caps pg pa
            (Stops-colon (t ++ mid)) refl
            (First-tail3 t mid (colon ∷ v) used (t ++ mid) two_groups inner pt
              (Stops-colon (c ++ colon ∷ v)) refl
              (ap (λ (x : Str). colon ∷ x) (sym (append_assoc t (colon ∷ c) (colon ∷ v))))
              (First-optional_part 5 6 c (colon ∷ v) (c ++ colon ∷ v) ((4, t) ∷ two_groups) pc
                (Stops-colon v) refl))
            (First-optional_part 7 8 v [] v ((3, used) ∷ inner) pv tt (sym (append-nil v))))
          (rw (
            count_byte-join g (a ++ colon ∷ (t ++ mid)) pg,
            count_byte-join a (t ++ mid) pa,
            count_byte-join t (c ++ colon ∷ v) pt,
            count_byte-join c v pc,
            count_byte-last v pv,
          ))

-- Coordinates of three, four and five parts without colons and blanks are read back: the type is `jar`
-- with three parts, and the classifier is empty with three or four.
pub parse_gav-gav_text :
    (g a v t c : Str)
    → IsPart g
    → IsPart a
    → IsPart v
    → IsPart t
    → IsPart c
    → (parse_gav (gav_text (g ∷ a ∷ v ∷ [])) ≡ ok (coordinates g a (codes "jar") [] v))
      × (parse_gav (gav_text (g ∷ a ∷ t ∷ v ∷ [])) ≡ ok (coordinates g a t [] v))
      × (parse_gav (gav_text (g ∷ a ∷ t ∷ c ∷ v ∷ [])) ≡ ok (coordinates g a t c v))
parse_gav-gav_text g a v t c pg pa pv pt pc = (
  parse_gav-three g a v pg pa pv,
  parse_gav-four g a v pg pa pv t pt,
  parse_gav-five g a v pg pa pv t pt c pc,
)
