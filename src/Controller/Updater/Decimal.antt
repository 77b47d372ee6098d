-- ===== src/Controller/Updater/Decimal.antt =====
-- strconv.Atoi and strconv.Itoa on the 64-bit numbers of Go's `int`.
use Prim.Native.Nat.{◌/◌, ◌%◌}
use teiid_operator.Prelude.{
  ℕ, zero, suc, ◌+◌, ◌-◌, ◌*◌, Option, none, some, [], ◌∷◌, ◌++◌, ltb, ◌==◌, nat_Eq, if◌then◌else◌,
}
use teiid_operator.Text.{Str}
use teiid_operator.Regex.{is_digit}

pub data ℤ : Type 0 where
  pos : ℕ → ℤ
  negsuc : ℕ → ℤ

-- 2 ^ 63, the first number beyond `int`
abbrev pub int_limit : ℕ
int_limit = 9223372036854775808

-- The value of decimal digits, behind those that were read.
unfoldable pub digits_value : ℕ → Str → Option ℕ
unfolding is_digit
digits_value n [] = some n
digits_value n (c ∷ s) =
    let rest = digits_value (n * 10 + (c - 48)) s in if is_digit c then rest else none

positive : Option ℕ → Option ℤ
positive none = none
positive (some n) = if ltb n int_limit then some (pos n) else none

negative : Option ℕ → Option ℤ
negative none = none
negative (some zero) = some (pos 0)
negative (some (suc n)) = if ltb n int_limit then some (negsuc n) else none

-- At least one digit.
magnitude : Str → Option ℕ
unfolding digits_value
magnitude [] = none
magnitude (c ∷ s) = digits_value 0 (c ∷ s)

-- `none` is the error; a number out of range is one.
unfoldable pub atoi : Str → Option ℤ
unfolding magnitude positive negative
atoi [] = none
atoi (c ∷ s) =
    if c == b'-'
    then negative (magnitude s)
    else if c == b'+'
    then positive (magnitude s)
    else positive (magnitude (c ∷ s))

cut : Option ℕ → ℕ
cut none = 0
cut (some n) = if ltb n int_limit then n else int_limit - 1

-- The value that Atoi returns beside its error, but 0 for a negative number: 0 where the text is no
-- number, and the end of the range where the number is beyond it.
unfoldable pub atoi_or_zero : Str → ℕ
unfolding magnitude cut
atoi_or_zero [] = 0
atoi_or_zero (c ∷ s) =
    if c == b'-' then 0 else if c == b'+' then cut (magnitude s) else cut (magnitude (c ∷ s))

-- The digits of a number, on fuel: one digit is cut off in each round.
unfoldable pub digits_fuel : ℕ → ℕ → Str
digits_fuel zero n = []
digits_fuel (suc f) n =
    let front = digits_fuel f (n / 10) in
    if ltb n 10 then (48 + n) ∷ [] else front ++ (48 + n % 10) ∷ []

unfoldable pub itoa : ℤ → Str
unfolding digits_fuel
itoa (pos n) = digits_fuel (suc n) n
itoa (negsuc n) = b'-' ∷ digits_fuel (suc (suc n)) (suc n)

-- `ver + 1`, which wraps around at the largest number.
unfoldable pub increment : ℤ → ℤ
increment (pos n) = if suc n == int_limit then negsuc n else pos (suc n)
increment (negsuc zero) = pos 0
increment (negsuc (suc n)) = negsuc n
