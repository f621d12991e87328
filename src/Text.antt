-- ===== src/Text.antt =====
-- Text as the program handles it: a `str` is the list of its UTF-8 bytes. This module and its
-- children hold the operations of Rust's `str` and integer parsing that the program calls.
pub mod Split
pub mod Trim
pub mod Numbers
pub mod Signed
pub mod Utf8
use Prim.Native.Char.{code}
use Prim.Native.String.{String}
use image_resizer.Prelude.{
  Bool, List, Option, [], arith, false, if◌then◌else◌, leb, none, refl, some, true, ℕ, ◌&&◌, ◌+◌,
  ◌==◌, ◌↔◌, ◌∷◌, ◌≡◌, ◌≢◌,
}

abbrev pub Str : Type 0
Str = List ℕ

-- An ASCII literal.
abbrev pub codes : String → Str
codes String.[] = []
codes (String.◌∷◌ c s) = code c ∷ codes s

-- `==` on `str`.
unfoldable pub eqb : Str → Str → Bool
eqb [] [] = true
eqb (x ∷ xs) (y ∷ ys) = x == y && eqb xs ys
eqb _ _ = false

pub eqb_iff : (a b : Str) → (eqb a b ≡ true) ↔ (a ≡ b)
unfolding eqb
eqb_iff (x ∷ a) (y ∷ b) = ground (arith, eqb_iff a b)
eqb_iff _ _ = ground arith

pub eqb_refl : (a : Str) → eqb a a ≡ true
eqb_refl a = (eqb_iff a a).1 refl

-- `contains` of a slice of strings.
unfoldable pub mem : Str → List Str → Bool
mem s [] = false
mem s (t ∷ ts) = if eqb s t then true else mem s ts

-- `str::strip_prefix`.
unfoldable pub strip_prefix : Str → Str → Option Str
strip_prefix [] s = some s
strip_prefix (p ∷ ps) [] = none
strip_prefix (p ∷ ps) (c ∷ s) = if p == c then strip_prefix ps s else none

-- `str::is_empty`.
abbrev pub is_empty {ℓ} : {A : Type ℓ} → List A → Bool
is_empty [] = true
is_empty (_ ∷ _) = false

-- `str::to_ascii_lowercase`, a byte at a time.
unfoldable pub lower_byte : ℕ → ℕ
lower_byte c = if leb b'A' c && leb c b'Z' then c + 32 else c

-- Two texts that compare unequal are apart.
pub ne_of_eqb : (a b : Str) → eqb a b ≡ false → a ≢ b
ne_of_eqb a b h e = ground (arith, eqb_iff a b)
