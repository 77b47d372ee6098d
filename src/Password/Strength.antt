-- ===== src/Password/Strength.antt =====
-- What a random password is made of.
use teiid_operator.Prelude.{
  ℕ, zero, suc, ◌+◌, ◌≤◌, ◌<◌, ◌≡◌, refl, ap, ◌∙◌, sym, Bool, true, ◌||◌, ◌&&◌, List, [], ◌∷◌,
  length, for_each, leb, arith, if◌then◌else◌,
}
use teiid_operator.Text.{Str}
use teiid_operator.Password.{
  Below, Swap, Random, all_nonempty, digits_nonempty, byte_at, set_byte, digits, all, swap_bytes,
  draw_rest, draw_buffer, random_password,
}

-- How many bytes pass a test.
abbrev pub count : (ℕ → Bool) → Str → ℕ
count q [] = 0
count q (b ∷ s) = (if q b then 1 else 0) + count q s

abbrev pub is_digit : ℕ → Bool
is_digit c = leb b'0' c && leb c b'9'

abbrev pub is_alphanumeric : ℕ → Bool
is_alphanumeric c = is_digit c || ((leb b'A' c && leb c b'Z') || (leb b'a' c && leb c b'z'))

abbrev one_if : Bool → ℕ
one_if b = if b then 1 else 0

count-set_byte :
    (q : ℕ → Bool) (s : Str) (i v : ℕ)
    → i < length s
    → count q (set_byte s i v) + one_if (q (byte_at s i)) ≡ count q s + one_if (q v)
count-set_byte q [] i v h = elim h [ ]
count-set_byte q (b ∷ s) zero v h = omega arith
count-set_byte q (b ∷ s) (suc i) v h = omega (arith, count-set_byte q s i v (omega arith))

length-set_byte : (s : Str) (i v : ℕ) → length (set_byte s i v) ≡ length s
length-set_byte [] i v = refl
length-set_byte (b ∷ s) zero v = refl
length-set_byte (b ∷ s) (suc i) v = ap suc (length-set_byte s i v)

-- Two positions that are one, or apart.
byte_at-set_byte :
    (s : Str) (i j : ℕ) → j < length s → byte_at (set_byte s i (byte_at s j)) j ≡ byte_at s j
byte_at-set_byte [] i j h = elim h [ ]
byte_at-set_byte (b ∷ s) zero zero h = refl
byte_at-set_byte (b ∷ s) zero (suc j) h = refl
byte_at-set_byte (b ∷ s) (suc i) zero h = refl
byte_at-set_byte (b ∷ s) (suc i) (suc j) h = byte_at-set_byte s i j (omega arith)

length-swap_bytes : {n : ℕ} (s : Str) (x : Swap n) → length (swap_bytes s x) ≡ length s
unfolding swap_bytes
length-swap_bytes s ((i, _), (j, _)) =
    length-set_byte (set_byte s i (byte_at s j)) j (byte_at s i) ∙ length-set_byte s i (byte_at s j)

count-swap_bytes :
    {n : ℕ} (q : ℕ → Bool) (s : Str) (x : Swap n)
    → n ≡ length s
    → count q (swap_bytes s x) ≡ count q s
unfolding swap_bytes
count-swap_bytes q s ((i, hi), (j, hj)) e =
    let t : Str = set_byte s i (byte_at s j) in
    let lt = length-set_byte s i (byte_at s j) in
    let first = count-set_byte q s i (byte_at s j) (omega arith) in
    let second = count-set_byte q t j (byte_at s i) (omega arith) in
    let same = ap (λ b. one_if (q b)) (byte_at-set_byte s i j (omega arith)) in omega arith

count-swaps :
    {n : ℕ} (q : ℕ → Bool) (s : Str) (xs : List (Swap n))
    → n ≡ length s
    → count q (for_each swap_bytes s xs) ≡ count q s
count-swaps q s [] e = refl
count-swaps q s (x ∷ xs) e =
    count-swaps q (swap_bytes s x) xs (e ∙ sym (length-swap_bytes s x)) ∙ count-swap_bytes q s x e

length-swaps : {n : ℕ} (s : Str) (xs : List (Swap n)) → length (for_each swap_bytes s xs) ≡ length s
length-swaps s [] = refl
length-swaps s (x ∷ xs) = length-swaps (swap_bytes s x) xs ∙ length-swap_bytes s x

-- A test that every byte of a text passes.
abbrev every : (ℕ → Bool) → Str → Bool
every q [] = true
every q (b ∷ s) = q b && every q s

every-byte_at :
    (q : ℕ → Bool) (s : Str) (i : ℕ) → every q s ≡ true → i < length s → q (byte_at s i) ≡ true
every-byte_at q [] i e h = elim h [ ]
every-byte_at q (b ∷ s) zero e h = ground (arith, e)
every-byte_at q (b ∷ s) (suc i) e h = every-byte_at q s i (ground (arith, e)) (omega arith)

all_alphanumeric : every is_alphanumeric all ≡ true
all_alphanumeric = refl

digits_alphanumeric : every is_alphanumeric digits ≡ true
digits_alphanumeric = refl

digits_all_digits : every is_digit digits ≡ true
digits_all_digits = refl

-- Eight letters and digits, a digit among them.
abbrev pub IsPassword : Str → Type 0
IsPassword s = (length s ≡ 8) × (count is_alphanumeric s ≡ 8) × (1 ≤ count is_digit s)

module _ {W : Type 0} (random : Random W) where
  length-draw_rest : (k : ℕ) (w : W) → length (draw_rest random k w).0 ≡ k
  unfolding draw_rest
  length-draw_rest zero w = refl
  length-draw_rest (suc k) w =
      let drawn : Below (length all) × W = random.intn (length all) all_nonempty w in
      ap suc (length-draw_rest k drawn.1)

  count-draw_rest : (k : ℕ) (w : W) → count is_alphanumeric (draw_rest random k w).0 ≡ k
  unfolding draw_rest
  count-draw_rest zero w = refl
  count-draw_rest (suc k) w =
      let drawn : Below (length all) × W = random.intn (length all) all_nonempty w in
      rw (every-byte_at is_alphanumeric all drawn.0.0 all_alphanumeric drawn.0.1)
        (omega (arith, count-draw_rest k drawn.1))

  draw_buffer-IsPassword : (w : W) → IsPassword (draw_buffer random w).0
  unfolding draw_buffer
  draw_buffer-IsPassword w =
      let drawn : Below (length digits) × W = random.intn (length digits) digits_nonempty w in
      let b : ℕ = byte_at digits drawn.0.0 in
      let letter = every-byte_at is_alphanumeric digits drawn.0.0 digits_alphanumeric drawn.0.1 in
      let digit = every-byte_at is_digit digits drawn.0.0 digits_all_digits drawn.0.1 in
      (
        ap suc (length-draw_rest 7 drawn.1),
        rw letter (omega (arith, count-draw_rest 7 drawn.1)),
        rw digit (omega arith),
      )

  -- Whatever the source of random numbers draws and however it shuffles, a password has eight bytes, each a
  -- letter or a digit, and one of them at least is a digit.
  pub random_password-IsPassword : (w : W) → IsPassword (random_password random w).0
  unfolding random_password
  random_password-IsPassword w =
      let buf : Str = (draw_buffer random w).0 in
      let p = draw_buffer-IsPassword w in
      let swaps : List (Swap (length buf)) =
        (random.shuffle (length buf) (draw_buffer random w).1).0 in
      (
        length-swaps buf swaps ∙ p.0,
        count-swaps is_alphanumeric buf swaps refl ∙ p.1,
        rw (count-swaps is_digit buf swaps refl) p.2,
      )
