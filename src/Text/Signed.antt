-- ===== src/Text/Signed.antt =====
-- Signed integers over the native numbers: `i32` values, their `FromStr`, `Display`, remainder and
-- `rem_euclid`.
use image_resizer.Prelude.{
  Bool, Option, [], ap, arith, if◌then◌else◌, none, some, subst, suc, sym, true, zero, ℕ, ◌%◌, ◌+◌,
  ◌-◌, ◌<◌, ◌==◌, ◌^◌, ◌∷◌, ◌≡◌, ◌≢◌,
}
use image_resizer.Text.{Str}
use image_resizer.Text.Numbers.{
  StartsWithDigit, read_digits, show_nat, show_nat-StartsWithDigit, show_nat-injective,
}

-- `negsuc n` is -(n + 1).
pub data ℤ : Type 0 where
  pos : ℕ → ℤ
  negsuc : ℕ → ℤ

-- The negative of a natural number.
abbrev pub neg : ℕ → ℤ
neg zero = pos 0
neg (suc n) = negsuc n

abbrev pub abs : ℤ → ℕ
abs (pos n) = n
abs (negsuc n) = suc n

abbrev digits_in : (ℕ → ℤ) → ℕ → Str → Option ℤ
digits_in sign bound [] = none
digits_in sign bound (c ∷ s) = elim (read_digits 10 bound 0 (c ∷ s)) [
  | none ↦ none
  | some n ↦ some (sign n)
]

-- `str::parse::<i32>`: an optional sign, then digits; -2^31 is in range and 2^31 is not.
unfoldable pub parse_i32 : Str → Option ℤ
unfolding read_digits
parse_i32 [] = none
parse_i32 (c ∷ s) =
    if c == b'+'
    then digits_in pos (2 ^ 31) s
    else if c == b'-'
    then digits_in neg (2 ^ 31 + 1) s
    else digits_in pos (2 ^ 31) (c ∷ s)

-- `angle % m == 0`: the remainder of the absolute value decides it.
abbrev pub is_multiple_of : ℕ → ℤ → Bool
is_multiple_of m a = abs a % m == 0

-- `i32::rem_euclid` by a positive number.
unfoldable pub rem_euclid : ℤ → ℕ → ℕ
rem_euclid (pos n) m = n % m
rem_euclid (negsuc n) m = (m - suc n % m) % m

-- `Display` of a signed integer.
unfoldable pub show_int : ℤ → Str
show_int (pos n) = show_nat n
show_int (negsuc n) = b'-' ∷ show_nat (suc n)

suc-inj : {n m : ℕ} → suc n ≡ suc m → n ≡ m
suc-inj h = omega arith

show_nat-ne-minus : (n : ℕ) (s : Str) → show_nat n ≢ b'-' ∷ s
show_nat-ne-minus n s h = omega (arith, subst StartsWithDigit h (show_nat-StartsWithDigit n))

pub show_int-injective : (a b : ℤ) → show_int a ≡ show_int b → a ≡ b
unfolding show_int
show_int-injective (pos n) (pos m) h = ap pos (show_nat-injective n m h)
show_int-injective (pos n) (negsuc m) h = absurd (show_nat-ne-minus n (show_nat (suc m)) h)
show_int-injective (negsuc n) (pos m) h = absurd (show_nat-ne-minus m (show_nat (suc n)) (sym h))
show_int-injective (negsuc n) (negsuc m) h =
    let tails : show_nat (suc n) ≡ show_nat (suc m) = cc in
    ap negsuc (suc-inj (show_nat-injective (suc n) (suc m) tails))

-- A multiple of 90 is normalised to a quarter turn.
pub rem_euclid_quarter :
    (a : ℤ) → is_multiple_of 90 a ≡ true → (rem_euclid a 360 % 90 ≡ 0) × (rem_euclid a 360 < 360)
unfolding rem_euclid
rem_euclid_quarter (pos n) h = ground arith
rem_euclid_quarter (negsuc n) h = ground arith
