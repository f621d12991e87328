-- ===== src/Text/Trim.antt =====
-- `str::trim` on UTF-8 bytes: the characters of the Unicode property White_Space.
use image_resizer.Prelude.{
  Bool, Option, [], if◌then◌else◌, leb, length, none, refl, some, suc, zero, ℕ, ◌&&◌, ◌==◌, ◌||◌,
  ◌∷◌, ◌≡◌,
}
use mathlib.Core.List.{reverse}
use image_resizer.Text.{Str}

-- U+0009 to U+000D and U+0020.
abbrev is_ascii_space : ℕ → Bool
is_ascii_space c = leb 9 c && leb c 13 || c == 32

-- U+0085 and U+00A0 in two bytes.
abbrev is_space₂ : ℕ → ℕ → Bool
is_space₂ a b = a == 0xc2 && (b == 0x85 || b == 0xa0)

-- U+1680, U+2000 to U+200A, U+2028, U+2029, U+202F, U+205F and U+3000 in three bytes.
abbrev is_space₃ : ℕ → ℕ → ℕ → Bool
is_space₃ a b c =
    a == 0xe1 && b == 0x9a && c == 0x80
    || a == 0xe2 && b == 0x80 && (leb 0x80 c && leb c 0x8a || c == 0xa8 || c == 0xa9 || c == 0xaf)
    || a == 0xe2 && b == 0x81 && c == 0x9f
    || a == 0xe3 && b == 0x80 && c == 0x80

-- The text after one white-space character at its start.
abbrev skip_space : Str → Option Str
skip_space [] = none
skip_space (a ∷ []) = if is_ascii_space a then some [] else none
skip_space (a ∷ b ∷ []) =
    if is_ascii_space a then some (b ∷ []) else if is_space₂ a b then some [] else none
skip_space (a ∷ b ∷ c ∷ s) =
    if is_ascii_space a
    then some (b ∷ c ∷ s)
    else if is_space₂ a b
    then some (c ∷ s)
    else if is_space₃ a b c
    then some s
    else none

-- The same for a text that is reversed: the bytes of a character come last first.
abbrev skip_space_back : Str → Option Str
skip_space_back [] = none
skip_space_back (a ∷ []) = if is_ascii_space a then some [] else none
skip_space_back (b ∷ a ∷ []) =
    if is_ascii_space b then some (a ∷ []) else if is_space₂ a b then some [] else none
skip_space_back (c ∷ b ∷ a ∷ s) =
    if is_ascii_space c
    then some (b ∷ a ∷ s)
    else if is_space₂ b c
    then some (a ∷ s)
    else if is_space₃ a b c
    then some s
    else none

-- Fuel: each round drops at least one byte.
skip_all : (Str → Option Str) → ℕ → Str → Str
skip_all skip zero s = s
skip_all skip (suc fuel) s = elim (skip s) [ none ↦ s | some rest ↦ skip_all skip fuel rest ]

pub trim_start : Str → Str
unfolding skip_all
trim_start s = skip_all skip_space (length s) s

pub trim_end : Str → Str
unfolding skip_all
trim_end s = reverse (skip_all skip_space_back (length s) (reverse s))

unfoldable pub trim : Str → Str
unfolding trim_start trim_end
trim s = trim_end (trim_start s)

trim_padded :
    trim (32 ∷ 0xc2 ∷ 0xa0 ∷ b'a' ∷ 32 ∷ b'b' ∷ 0xe2 ∷ 0x80 ∷ 0x8a ∷ 9 ∷ []) ≡ b'a' ∷ 32 ∷ b'b' ∷ []
unfolding trim
trim_padded = refl
