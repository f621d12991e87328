-- ===== src/Text/Numbers.antt =====
-- `FromStr` and `from_str_radix` of the integer types, and `Display` of the unsigned ones.
use image_resizer.Prelude.{
  All, Bool-cases, Option, Option-cases, [], ap, arith, if◌then◌else◌, inl, inr, leb, ltb, ltb→lt,
  none, refl, some, suc, zero, ℕ, ◌%◌, ◌&&◌, ◌*◌, ◌+◌, ◌-◌, ◌/◌, ◌<◌, ◌==◌, ◌^◌, ◌∙◌, ◌∷◌, ◌≡◌, ◌≤◌,
}
use image_resizer.Text.{Str}

-- `char::to_digit(radix)`.
unfoldable pub to_digit : ℕ → ℕ → Option ℕ
to_digit radix c =
    let digit : ℕ =
      if leb b'0' c && leb c b'9'
      then c - b'0'
      else if leb b'a' c && leb c b'z'
      then c - b'a' + 10
      else if leb b'A' c && leb c b'Z'
      then c - b'A' + 10
      else radix in
    if ltb digit radix then some digit else none

-- The digits after the sign; `none` on a byte that is no digit, or when the value reaches `bound`.
unfoldable pub read_digits : ℕ → ℕ → ℕ → Str → Option ℕ
unfolding to_digit
read_digits radix bound acc [] = some acc
read_digits radix bound acc (c ∷ s) = elim (to_digit radix c) [
  | none ↦ none
  | some d ↦
      if ltb (acc * radix + d) bound then read_digits radix bound (acc * radix + d) s else none
]

-- At least one digit.
abbrev read_nonempty : ℕ → ℕ → Str → Option ℕ
read_nonempty radix bound [] = none
read_nonempty radix bound (c ∷ s) = read_digits radix bound 0 (c ∷ s)

-- `from_str_radix` of an unsigned type with values below `bound`: a leading `+` is accepted.
unfoldable pub from_str_radix : ℕ → ℕ → Str → Option ℕ
unfolding read_digits
from_str_radix radix bound [] = none
from_str_radix radix bound (c ∷ s) =
    if c == b'+' then read_nonempty radix bound s else read_nonempty radix bound (c ∷ s)

abbrev pub parse_u8 : Str → Option ℕ
parse_u8 = from_str_radix 10 (2 ^ 8)

abbrev pub parse_u32 : Str → Option ℕ
parse_u32 = from_str_radix 10 (2 ^ 32)

abbrev pub parse_u64 : Str → Option ℕ
parse_u64 = from_str_radix 10 (2 ^ 64)

read_digits-lt :
    (radix bound acc : ℕ) (s : Str) (n : ℕ)
    → acc < bound
    → read_digits radix bound acc s ≡ some n
    → n < bound
unfolding read_digits
read_digits-lt radix bound acc [] n h e = ground arith
read_digits-lt radix bound acc (c ∷ s) n h e = elim (Option-cases (to_digit radix c)) [
  | inl z ↦ ground arith
  | inr (d, z) ↦ ground (arith, read_digits-lt radix bound (acc * radix + d) s n)
]

-- A parsed value fits the type.
pub from_str_radix-lt :
    (radix bound : ℕ) (s : Str) (n : ℕ)
    → 0 < bound
    → from_str_radix radix bound s ≡ some n
    → n < bound
unfolding from_str_radix
from_str_radix-lt radix bound [] n h e = cc
from_str_radix-lt radix bound (c ∷ []) n h e =
    ground (arith, read_digits-lt radix bound 0 (c ∷ []) n)
from_str_radix-lt radix bound (c ∷ d ∷ s) n h e =
    ground
      (arith, read_digits-lt radix bound 0 (c ∷ d ∷ s) n, read_digits-lt radix bound 0 (d ∷ s) n)

-- `Display` of an unsigned integer, in front of `rest`. Fuel above the value is enough.
pub show_onto : ℕ → ℕ → Str → Str
show_onto zero n rest = rest
show_onto (suc fuel) n rest =
    let more = show_onto fuel (n / 10) ((b'0' + n % 10) ∷ rest) in
    if ltb n 10 then (b'0' + n) ∷ rest else more

unfoldable pub show_nat : ℕ → Str
unfolding show_onto
show_nat n = show_onto (suc n) n []

to_digit_decimal : (d : ℕ) → d < 10 → to_digit 10 (b'0' + d) ≡ some d
unfolding to_digit
to_digit_decimal d h = ground arith

read_digits_one :
    (bound acc d : ℕ) (s : Str)
    → d < 10
    → acc * 10 + d < bound
    → read_digits 10 bound acc ((b'0' + d) ∷ s) ≡ read_digits 10 bound (acc * 10 + d) s
unfolding read_digits
read_digits_one bound acc d s h k = ground (arith, to_digit_decimal d h)

read_digits-show_onto :
    (fuel n bound : ℕ) (rest : Str)
    → n < fuel
    → n < bound
    → read_digits 10 bound 0 (show_onto fuel n rest) ≡ read_digits 10 bound n rest
unfolding show_onto
read_digits-show_onto zero n bound rest h k = absurd (omega arith)
read_digits-show_onto (suc fuel) n bound rest h k = elim (Bool-cases (ltb n 10)) [
  | inl small ↦ rw small (ground (arith, read_digits_one bound 0 n rest))
  | inr large ↦
      let big : 10 ≤ n = ground arith in
      let whole : n / 10 * 10 + n % 10 ≡ n = omega arith in
      rw large (
        read_digits-show_onto fuel (n / 10) bound ((b'0' + n % 10) ∷ rest) (omega arith)
          (omega arith)
        ∙ read_digits_one bound (n / 10) (n % 10) rest (omega arith) (omega arith)
        ∙ ap (λ m. read_digits 10 bound m rest) whole)
]

-- A decimal numeral begins with a digit.
abbrev pub StartsWithDigit : Str → Type 0
StartsWithDigit [] = ⊥
StartsWithDigit (c ∷ s) = (b'0' ≤ c) × (c ≤ b'9')

show_onto-StartsWithDigit :
    (fuel n : ℕ) (rest : Str) → n < fuel → StartsWithDigit (show_onto fuel n rest)
unfolding show_onto
show_onto-StartsWithDigit zero n rest h = absurd (omega arith)
show_onto-StartsWithDigit (suc fuel) n rest h = elim (Bool-cases (ltb n 10)) [
  | inl small ↦ rw small (omega (arith, ltb→lt n 10 small))
  | inr large ↦
      let big : 10 ≤ n = ground arith in
      rw large (show_onto-StartsWithDigit fuel (n / 10) _ (omega arith))
]

pub show_nat-StartsWithDigit : (n : ℕ) → StartsWithDigit (show_nat n)
unfolding show_nat
show_nat-StartsWithDigit n = show_onto-StartsWithDigit (suc n) n [] (omega arith)

from_str_radix_unsigned :
    (bound : ℕ) (s : Str) → StartsWithDigit s → from_str_radix 10 bound s ≡ read_digits 10 bound 0 s
unfolding from_str_radix
from_str_radix_unsigned bound [] h = absurd h
from_str_radix_unsigned bound (c ∷ s) h = ground arith

-- A printed number parses back, if it fits the type.
pub from_str_radix-show_nat :
    (bound n : ℕ) → n < bound → from_str_radix 10 bound (show_nat n) ≡ some n
unfolding show_nat
from_str_radix-show_nat bound n h =
    from_str_radix_unsigned bound (show_nat n) (show_nat-StartsWithDigit n)
    ∙ read_digits-show_onto (suc n) n bound [] (omega arith) h
    ∙ unfold read_digits in refl

pub show_nat-injective : (n m : ℕ) → show_nat n ≡ show_nat m → n ≡ m
show_nat-injective n m h =
    let p = from_str_radix-show_nat (suc (n + m)) n (omega arith) in
    let q = from_str_radix-show_nat (suc (n + m)) m (omega arith) in
    cc (p, q, ap (from_str_radix 10 (suc (n + m))) h)

abbrev pub IsDigit : ℕ → Type 0
IsDigit c = (b'0' ≤ c) × (c ≤ b'9')

show_onto-IsDigit :
    (fuel n : ℕ) (rest : Str) → All IsDigit rest → All IsDigit (show_onto fuel n rest)
unfolding show_onto
show_onto-IsDigit zero n rest h = h
show_onto-IsDigit (suc fuel) n rest h = elim (Bool-cases (ltb n 10)) [
  | inl small ↦
      let digit : IsDigit (b'0' + n) = omega (arith, ltb→lt n 10 small) in rw small (digit, h)
  | inr large ↦
      let digit : IsDigit (b'0' + n % 10) = omega arith in
      rw large (show_onto-IsDigit fuel (n / 10) _ (digit, h))
]

pub show_nat-IsDigit : (n : ℕ) → All IsDigit (show_nat n)
unfolding show_nat
show_nat-IsDigit n = show_onto-IsDigit (suc n) n [] tt
