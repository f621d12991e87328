-- ===== src/SourceGuard/Literals.antt =====
-- `parse_flexible_u64`, `parse_ipv4_literal` and `parse_ip_literal` of source_guard.rs: the numeric
-- spellings of an address.
use image_resizer.Prelude.{
  Bool, List, Option, [], all, bind?, false, if◌then◌else◌, leb, length, ltb, none, some, ℕ, ◌&&◌,
  ◌*◌, ◌+◌, ◌==◌, ◌^◌, ◌||◌, ◌∷◌,
}
use image_resizer.Text.{Str, codes, is_empty, strip_prefix}
use image_resizer.SourceGuard.{IpAddr, octets, v4}
use image_resizer.Text.Numbers.{from_str_radix, parse_u64}
use image_resizer.Text.Split.{split_on}

abbrev is_ascii_digit : ℕ → Bool
is_ascii_digit b = leb b'0' b && leb b b'9'

abbrev hex_digits : Str → Option Str
hex_digits part = elim (strip_prefix (codes "0x") part) [
  | some hex ↦ some hex
  | none ↦ strip_prefix (codes "0X") part
]

abbrev starts_with_zero : Str → Bool
starts_with_zero [] = false
starts_with_zero (b ∷ _) = b == b'0'

unfoldable pub parse_flexible_u64 : Str → Option ℕ
parse_flexible_u64 part = if is_empty part then none else elim (hex_digits part) [
  | some hex ↦ from_str_radix 16 (2 ^ 64) hex
  | none ↦
      if ltb 1 (length part) && starts_with_zero part && all is_ascii_digit part
      then from_str_radix 8 (2 ^ 64) part
      else parse_u64 part
]

unfoldable pub parse_parts : List Str → Option (List ℕ)
unfolding parse_flexible_u64
parse_parts [] = some []
parse_parts (part ∷ parts) =
    bind? (parse_flexible_u64 part) (λ n. bind? (parse_parts parts) (λ ns. some (n ∷ ns)))

-- The last part takes the bytes that are left.
unfoldable pub join_parts : List ℕ → Option ℕ
join_parts (a ∷ []) = some a
join_parts (a ∷ b ∷ []) = if ltb 0xff a || ltb 0xffffff b then none else some (a * 2 ^ 24 + b)
join_parts (a ∷ b ∷ c ∷ []) =
    if ltb 0xff a || ltb 0xff b || ltb 0xffff c then none else some (a * 2 ^ 24 + b * 2 ^ 16 + c)
join_parts (a ∷ b ∷ c ∷ d ∷ []) =
    if ltb 0xff a || ltb 0xff b || ltb 0xff c || ltb 0xff d then none else some (octets a b c d)
join_parts _ = none

-- `u32::try_from`.
abbrev fits_u32 : ℕ → Option ℕ
fits_u32 value = if ltb value (2 ^ 32) then some value else none

unfoldable pub parse_ipv4_literal : Str → Option ℕ
unfolding parse_parts join_parts
parse_ipv4_literal host =
    if ltb 4 (length (split_on b'.' host))
    then none
    else bind? (parse_parts (split_on b'.' host)) (λ nums. bind? (join_parts nums) fits_u32)

-- `parse_ip_literal`, for the parser of `IpAddr`.
unfoldable pub parse_ip_literal : (Str → Option IpAddr) → Str → Option IpAddr
unfolding parse_ipv4_literal
parse_ip_literal parse_addr host = elim (parse_addr host) [
  | some ip ↦ some ip
  | none ↦ bind? (parse_ipv4_literal host) (λ ip. some (v4 ip))
]
