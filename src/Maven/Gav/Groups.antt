-- ===== src/Maven/Gav/Groups.antt =====
-- The groups of the expression for maven coordinates (pkg/util/maven/maven.go), on a text of parts.
use teiid_operator.Prelude.{ℕ, ◌≡◌, refl, sym, ap, true, some, [], ◌∷◌, ◌++◌, All, append-nil}
use teiid_operator.Text.{Str}
use teiid_operator.Regex.{Re, seq, set, group, star, opt, exactly, none_of, find, Caps, eps}
use teiid_operator.Regex.First.{
  First, First-seq, First-group, First-set, First-eps, First-alt_left, First-alt_right,
  First-plus_set, First-star_set, Fails-seq, Fails-set, Fails-group, Stops, find-First,
}
use teiid_operator.Maven.Gav.{part_byte, part, optional_part, gav_regex, colon}

-- A text that can stand between the colons of a coordinate.
abbrev pub IsPart : Str → Type 0
IsPart [] = ⊥
IsPart (c ∷ w) = (part_byte c ≡ true) × All (λ d. part_byte d ≡ true) w

First-part :
    (i : ℕ) (w rest s : Str) (caps : Caps)
    → IsPart w
    → Stops part_byte rest
    → s ≡ w ++ rest
    → First (group i part) s caps (rest, (i, w) ∷ caps)
First-part i [] rest s caps p st e = absurd p
First-part i (c ∷ w) rest s caps p st e =
    First-group i part (c ∷ w) rest s caps caps e
      (rw e (First-plus_set part_byte c w rest caps p.0 p.1 st))

First-colon : (s : Str) (caps : Caps) → First (set (exactly colon)) (colon ∷ s) caps (s, caps)
First-colon s caps = First-set (exactly colon) colon s caps (unfold exactly in refl)

pub Stops-colon : (s : Str) → Stops part_byte (colon ∷ s)
Stops-colon s = unfold none_of in refl

pub First-optional_part :
    (i j : ℕ) (w rest s : Str) (caps : Caps)
    → IsPart w
    → Stops part_byte rest
    → s ≡ w ++ rest
    → First (optional_part i j) (colon ∷ s) caps (rest, (i, colon ∷ w) ∷ (j, w) ∷ caps)
First-optional_part i j w rest s caps p st e =
    First-alt_left (group i (seq (set (exactly colon)) (group j part))) eps (colon ∷ s) caps
      (rest, (i, colon ∷ w) ∷ (j, w) ∷ caps)
      (First-group i (seq (set (exactly colon)) (group j part)) (colon ∷ w) rest (colon ∷ s) caps
        ((j, w) ∷ caps) (ap (λ (t : Str). colon ∷ t) e)
        (First-seq (set (exactly colon)) (group j part) (colon ∷ s) caps (s, caps)
          (rest, (j, w) ∷ caps) (First-colon s caps) (First-part j w rest s caps p st e)))

pub First-no_part : (i j : ℕ) (caps : Caps) → First (optional_part i j) [] caps ([], caps)
First-no_part i j caps =
    First-alt_right (group i (seq (set (exactly colon)) (group j part))) eps [] caps ([], caps)
      (Fails-group i (seq (set (exactly colon)) (group j part)) [] caps (
        Fails-seq (set (exactly colon)) (group j part) [] caps
          (Fails-set (exactly colon) [] caps tt)))
      (First-eps [] caps)

abbrev tail3 : Re
tail3 =
    opt (
      group 3
        (seq (set (exactly colon)) (seq (group 4 (star (set part_byte))) (optional_part 5 6))))

First-group_star :
    (i : ℕ) (w rest s : Str) (caps : Caps)
    → IsPart w
    → Stops part_byte rest
    → s ≡ w ++ rest
    → First (group i (star (set part_byte))) s caps (rest, (i, w) ∷ caps)
First-group_star i [] rest s caps p st e = absurd p
First-group_star i (c ∷ w) rest s caps p st e =
    First-group i (star (set part_byte)) (c ∷ w) rest s caps caps e
      (rw e (First-star_set part_byte (c ∷ w) rest caps p st))

-- The third group, when what follows its fourth group leaves `rest`.
pub First-tail3 :
    (w mid rest used s : Str) (caps caps' : Caps)
    → IsPart w
    → Stops part_byte mid
    → s ≡ w ++ mid
    → colon ∷ s ≡ used ++ rest
    → First (optional_part 5 6) mid ((4, w) ∷ caps) (rest, caps')
    → First tail3 (colon ∷ s) caps (rest, (3, used) ∷ caps')
First-tail3 w mid rest used s caps caps' p st e e' f =
    let inner : Re = seq (group 4 (star (set part_byte))) (optional_part 5 6) in
    First-alt_left (group 3 (seq (set (exactly colon)) inner)) eps (colon ∷ s) caps
      (rest, (3, used) ∷ caps')
      (First-group 3 (seq (set (exactly colon)) inner) used rest (colon ∷ s) caps caps' e' (
        First-seq (set (exactly colon)) inner (colon ∷ s) caps (s, caps) (rest, caps')
          (First-colon s caps)
          (First-seq (group 4 (star (set part_byte))) (optional_part 5 6) s caps
            (mid, (4, w) ∷ caps) (rest, caps') (First-group_star 4 w mid s caps p st e) f)))

-- The whole expression, when what follows the artifact is read by the optional groups.
pub First-gav :
    (g a mid s : Str) (mid' : Str) (caps caps' : Caps)
    → IsPart g
    → IsPart a
    → Stops part_byte mid
    → s ≡ g ++ colon ∷ (a ++ mid)
    → First tail3 mid ((2, a) ∷ (1, g) ∷ []) (mid', caps)
    → First (optional_part 7 8) mid' caps ([], caps')
    → find gav_regex s ≡ some ([], (0, s) ∷ caps')
First-gav g a mid s mid' caps caps' pg pa st e f3 f7 =
    let after_artifact : Re = seq tail3 (optional_part 7 8) in
    let after_group : Re = seq (group 2 part) after_artifact in
    let after_colon : Re = seq (set (exactly colon)) after_group in
    find-First gav_regex s [] ((0, s) ∷ caps') (
      First-group 0 gav_regex s [] s [] caps' (sym (append-nil s)) (
        First-seq (group 1 part) after_colon s [] (colon ∷ (a ++ mid), (1, g) ∷ []) ([], caps')
          (First-part 1 g (colon ∷ (a ++ mid)) s [] pg (Stops-colon (a ++ mid)) e)
          (First-seq (set (exactly colon)) after_group (colon ∷ (a ++ mid)) ((1, g) ∷ [])
            (a ++ mid, (1, g) ∷ []) ([], caps') (First-colon (a ++ mid) ((1, g) ∷ []))
            (First-seq (group 2 part) after_artifact (a ++ mid) ((1, g) ∷ [])
              (mid, (2, a) ∷ (1, g) ∷ []) ([], caps')
              (First-part 2 a mid (a ++ mid) ((1, g) ∷ []) pa st refl)
              (First-seq tail3 (optional_part 7 8) mid ((2, a) ∷ (1, g) ∷ []) (mid', caps)
                ([], caps') f3 f7)))))
