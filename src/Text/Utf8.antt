-- ===== src/Text/Utf8.antt =====
-- `String::from_utf8`: which byte sequences are UTF-8.
use image_resizer.Prelude.{
  Bool, List, Option, [], false, if◌then◌else◌, leb, length, ltb, none, refl, some, suc, true, zero,
  ℕ, ◌&&◌, ◌==◌, ◌∷◌, ◌≡◌,
}
use image_resizer.Text.{Str}

abbrev between : ℕ → ℕ → ℕ → Bool
between lo hi b = leb lo b && leb b hi

abbrev is_continuation : ℕ → Bool
is_continuation = between 0x80 0xbf

-- The second byte that a first byte of a three-byte or four-byte character allows: no overlong
-- form, no surrogate and nothing above U+10FFFF.
abbrev is_second : ℕ → ℕ → Bool
is_second a b =
    if a == 0xe0
    then between 0xa0 0xbf b
    else if a == 0xed
    then between 0x80 0x9f b
    else if a == 0xf0
    then between 0x90 0xbf b
    else if a == 0xf4
    then between 0x80 0x8f b
    else is_continuation b

-- What follows the first character, if the text begins with one.
abbrev next_four : ℕ → ℕ → Str → Option Str
next_four a b (c ∷ d ∷ s) =
    if between 0xf0 0xf4 a && is_second a b && is_continuation c && is_continuation d
    then some s
    else none
next_four a b _ = none

abbrev next_three : ℕ → ℕ → Str → Option Str
next_three a b [] = none
next_three a b (c ∷ s) =
    if between 0xe0 0xef a && is_second a b && is_continuation c
    then some s
    else next_four a b (c ∷ s)

abbrev next_two : ℕ → Str → Option Str
next_two a [] = none
next_two a (b ∷ s) = if between 0xc2 0xdf a && is_continuation b then some s else next_three a b s

abbrev next_char : Str → Option Str
next_char [] = none
next_char (a ∷ s) = if ltb a 0x80 then some s else next_two a s

-- Fuel: each character has at least one byte.
valid_from : ℕ → Str → Bool
valid_from fuel [] = true
valid_from zero (a ∷ s) = false
valid_from (suc fuel) (a ∷ s) = elim (next_char (a ∷ s)) [
  | none ↦ false
  | some rest ↦ valid_from fuel rest
]

-- The text of the bytes, if they are UTF-8.
unfoldable pub from_utf8 : List ℕ → Option Str
unfolding valid_from
from_utf8 bytes = if valid_from (length bytes) bytes then some bytes else none

accepts_wide :
    from_utf8 (0xc3 ∷ 0xa9 ∷ 0xe2 ∷ 0x82 ∷ 0xac ∷ 0xf0 ∷ 0x9f ∷ 0x98 ∷ 0x80 ∷ [])
    ≡ some (0xc3 ∷ 0xa9 ∷ 0xe2 ∷ 0x82 ∷ 0xac ∷ 0xf0 ∷ 0x9f ∷ 0x98 ∷ 0x80 ∷ [])
unfolding from_utf8
accepts_wide = refl

rejects_surrogate : from_utf8 (0xed ∷ 0xa0 ∷ 0x80 ∷ []) ≡ none
unfolding from_utf8
rejects_surrogate = refl
