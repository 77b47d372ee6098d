-- ===== src/Table.antt =====
-- Go maps from texts to values, as association lists. Where the source ranges over a map, the list's
-- order is that of the iteration.
use teiid_operator.Prelude.{Option, none, some, List, [], ◌∷◌, ◌==◌, if◌then◌else◌}
use teiid_operator.Text.{Str, text_Eq}

abbrev pub Table {ℓ} : Type ℓ → Type ℓ
Table V = List (Str × V)

module _ {ℓ} {V : Type ℓ} where
  -- m[k] = v
  unfoldable pub put : Table V → Str → V → Table V
  put [] k v = (k, v) ∷ []
  put ((j, w) ∷ m) k v = if j == k then (k, v) ∷ m else (j, w) ∷ put m k v

  unfoldable pub lookup : Table V → Str → Option V
  lookup [] k = none
  lookup ((j, w) ∷ m) k = if j == k then some w else lookup m k
