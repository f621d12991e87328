-- ===== src/SourceGuard/Numerals.antt =====
-- The numbers of inet_aton: decimal, octal and hexadecimal numerals, against `parse_flexible_u64` of
-- src/services/image/source_guard.rs.
use image_resizer.Prelude.{
  [], all, ap, arith, inl, inr, leb, refl, some, sym, true, ℕ, ◌&&◌, ◌*◌, ◌+◌, ◌-◌, ◌<◌, ◌^◌, ◌∷◌,
  ◌≡◌, ◌≢◌, ◌≤◌, ◌⊎◌,
}
use image_resizer.Text.{Str, strip_prefix}
use image_resizer.Text.Numbers.{from_str_radix, read_digits, to_digit}
use image_resizer.Text.Split.{Lacks, contains}
use image_resizer.SourceGuard.Literals.{parse_flexible_u64}

-- The byte `b` is a digit of value `d`: a decimal one, or a letter of either case.
abbrev pub IsDigitOf : ℕ → ℕ → ℕ → Type 0
IsDigitOf base d b =
    (d < base)
    × (((d < 10) × (b ≡ b'0' + d)) ⊎ ((10 ≤ d) × ((b ≡ b'a' + (d - 10)) ⊎ (b ≡ b'A' + (d - 10)))))

-- Digits that continue the value `acc` to the value `n`.
abbrev pub Continues : ℕ → ℕ → Str → ℕ → Type 0
Continues base acc [] n = acc ≡ n
Continues base acc (b ∷ s) n = (d : ℕ) × IsDigitOf base d b × Continues base (acc * base + d) s n

-- The ways to write a number: in decimal without a leading zero, in octal behind a `0`, and in
-- hexadecimal behind `0x` or `0X`.
pub data Spells (n : ℕ) : Str → Type 0 where
  zero_digit : n ≡ 0 → Spells n (b'0' ∷ [])
  decimal : (c : ℕ) (s : Str) → c ≢ b'0' → Continues 10 0 (c ∷ s) n → Spells n (c ∷ s)
  octal : (c : ℕ) (s : Str) → Continues 8 0 (c ∷ s) n → Spells n (b'0' ∷ c ∷ s)
  hexadecimal :
      (x c : ℕ) (s : Str)
      → (x ≡ b'x') ⊎ (x ≡ b'X')
      → Continues 16 0 (c ∷ s) n
      → Spells n (b'0' ∷ x ∷ c ∷ s)

to_digit_lem : (base d b : ℕ) → base ≤ 16 → IsDigitOf base d b → to_digit base b ≡ some d
unfolding to_digit
to_digit_lem base d b small (h, inl (low, e)) = ground arith
to_digit_lem base d b small (h, inr (high, inl e)) = ground arith
to_digit_lem base d b small (h, inr (high, inr e)) = ground arith

grows : (base acc d : ℕ) → 0 < base → acc ≤ acc * base + d
grows base acc d h = grind arith

Continues-le : (base acc : ℕ) (s : Str) (n : ℕ) → 0 < base → Continues base acc s n → acc ≤ n
Continues-le base acc [] n h e = omega arith
Continues-le base acc (b ∷ s) n h (d, _, rest) =
    omega (arith, grows base acc d h, Continues-le base (acc * base + d) s n h rest)

read_digits-Continues :
    (base bound acc : ℕ) (s : Str) (n : ℕ)
    → 0 < base
    → base ≤ 16
    → n < bound
    → Continues base acc s n
    → read_digits base bound acc s ≡ some n
unfolding read_digits
read_digits-Continues base bound acc [] n h small fits e = ap some e
read_digits-Continues base bound acc (b ∷ s) n h small fits (d, digit, rest) =
    let le = Continues-le base (acc * base + d) s n h rest in
    ground (
      arith,
      to_digit_lem base d b small digit,
      read_digits-Continues base bound (acc * base + d) s n h small fits rest,
    )

digit_byte : (base d b : ℕ) → IsDigitOf base d b → b'0' ≤ b
digit_byte base d b (h, inl (low, e)) = omega arith
digit_byte base d b (h, inr (high, inl e)) = omega arith
digit_byte base d b (h, inr (high, inr e)) = omega arith

from_str_radix-Continues :
    (base bound c : ℕ) (s : Str) (n : ℕ)
    → 0 < base
    → base ≤ 16
    → n < bound
    → Continues base 0 (c ∷ s) n
    → from_str_radix base bound (c ∷ s) ≡ some n
unfolding from_str_radix
from_str_radix-Continues base bound c s n h small fits (d, digit, rest) =
    let above = digit_byte base d c digit in
    ground (arith, read_digits-Continues base bound 0 (c ∷ s) n h small fits (d, digit, rest))

Continues-Lacks : (base acc : ℕ) (s : Str) (n : ℕ) → Continues base acc s n → Lacks b'.' s
unfolding contains
Continues-Lacks base acc [] n e = refl
Continues-Lacks base acc (b ∷ s) n (d, digit, rest) =
    let above = digit_byte base d b digit in
    ground (arith, Continues-Lacks base (acc * base + d) s n rest)

-- Below base 11 every digit is a decimal one.
Continues-digits :
    (base acc : ℕ) (s : Str) (n : ℕ)
    → base ≤ 10
    → Continues base acc s n
    → all (λ b. leb b'0' b && leb b b'9') s ≡ true
Continues-digits base acc [] n small e = refl
Continues-digits base acc (b ∷ s) n small (d, (h, inl (low, e)), rest) =
    ground (arith, Continues-digits base (acc * base + d) s n small rest)
Continues-digits base acc (b ∷ s) n small (d, (h, inr (high, e)), rest) = absurd (omega arith)

pub Spells-Lacks : (n : ℕ) (s : Str) → Spells n s → Lacks b'.' s
unfolding contains
Spells-Lacks n _ (zero_digit e) = refl
Spells-Lacks n _ (decimal c s h e) = Continues-Lacks 10 0 (c ∷ s) n e
Spells-Lacks n _ (octal c s e) = ground (arith, Continues-Lacks 8 0 (c ∷ s) n e)
Spells-Lacks n _ (hexadecimal x c s (inl h) e) = ground (arith, Continues-Lacks 16 0 (c ∷ s) n e)
Spells-Lacks n _ (hexadecimal x c s (inr h) e) = ground (arith, Continues-Lacks 16 0 (c ∷ s) n e)

pub parse_flexible_u64-Spells :
    (n : ℕ) (s : Str) → n < 2 ^ 64 → Spells n s → parse_flexible_u64 s ≡ some n
unfolding parse_flexible_u64 strip_prefix from_str_radix read_digits to_digit
parse_flexible_u64-Spells n _ small (zero_digit e) = ap some (sym e)
parse_flexible_u64-Spells n _ small (decimal c s h e) =
    let reads = from_str_radix-Continues 10 (2 ^ 64) c s n (omega arith) (omega arith) small e in
    ground arith
parse_flexible_u64-Spells n _ small (octal c s e) =
    let reads =
      from_str_radix-Continues 8 (2 ^ 64) b'0' (c ∷ s) n (omega arith) (omega arith) small
        (0, (omega arith, inl (omega arith, refl)), e) in
    let digits = Continues-digits 8 0 (c ∷ s) n (omega arith) e in ground arith
parse_flexible_u64-Spells n _ small (hexadecimal x c s (inl h) e) =
    let reads = from_str_radix-Continues 16 (2 ^ 64) c s n (omega arith) (omega arith) small e in
    ground arith
parse_flexible_u64-Spells n _ small (hexadecimal x c s (inr h) e) =
    let reads = from_str_radix-Continues 16 (2 ^ 64) c s n (omega arith) (omega arith) small e in
    ground arith
