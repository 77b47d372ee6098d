-- ===== src/Password.antt =====
-- RandomPassword of pkg/util/util.go. The package `math/rand` is a parameter.
pub mod Strength
use teiid_operator.Prelude.{ℕ, zero, suc, ◌+◌, ◌<◌, List, [], ◌∷◌, ◌++◌, length, for_each, arith}
use teiid_operator.Text.{Str, codes}

-- A number below `n`, and a pair of such.
abbrev pub Below : ℕ → Type 0
Below n = (i : ℕ) × (i < n)

abbrev pub Swap : ℕ → Type 0
Swap n = Below n × Below n

-- Intn(n) returns a number below `n`, and Shuffle(n, swap) calls `swap` on pairs of positions below `n`:
-- here it returns the pairs.
pub record Random (W : Type 0) : Type 0 where
  pub intn : (n : ℕ) → 0 < n → W → Below n × W
  pub shuffle : (n : ℕ) → W → List (Swap n) × W

-- `s[i]`, where there is such a byte.
abbrev pub byte_at : Str → ℕ → ℕ
byte_at [] i = 0
byte_at (b ∷ s) zero = b
byte_at (b ∷ s) (suc i) = byte_at s i

-- `s[i] = b`
abbrev pub set_byte : Str → ℕ → ℕ → Str
set_byte [] i v = []
set_byte (b ∷ s) zero v = v ∷ s
set_byte (b ∷ s) (suc i) v = b ∷ set_byte s i v

abbrev pub digits : Str
digits = codes "0123456789"

abbrev pub all : Str
all = codes "ABCDEFGHIJKLMNOPQRSTUVWXYZ" ++ (codes "abcdefghijklmnopqrstuvwxyz" ++ digits)

-- `buf[i], buf[j] = buf[j], buf[i]`
unfoldable pub swap_bytes : {n : ℕ} → Str → Swap n → Str
swap_bytes buf ((i, _), (j, _)) = set_byte (set_byte buf i (byte_at buf j)) j (byte_at buf i)

pub all_nonempty : 0 < length all
all_nonempty = omega arith

pub digits_nonempty : 0 < length digits
digits_nonempty = omega arith

module _ {W : Type 0} (random : Random W) where
  -- The bytes after the first.
  unfoldable pub draw_rest : ℕ → W → Str × W
  draw_rest zero w = ([], w)
  draw_rest (suc k) w =
      let (i, w') = random.intn (length all) all_nonempty w in
      let (rest, w'') = draw_rest k w' in (byte_at all i.0 ∷ rest, w'')

  unfoldable pub draw_buffer : W → Str × W
  unfolding draw_rest
  draw_buffer w =
      let (i, w') = random.intn (length digits) digits_nonempty w in
      let (rest, w'') = draw_rest 7 w' in (byte_at digits i.0 ∷ rest, w'')

  unfoldable pub random_password : W → Str × W
  unfolding draw_buffer swap_bytes
  random_password w =
      let (buf, w') = draw_buffer w in
      let (swaps, w'') = random.shuffle (length buf) w' in (for_each swap_bytes buf swaps, w'')
