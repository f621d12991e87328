-- ===== src/Image/Exif.antt =====
-- `neutralize_exif_orientation` of src/services/image/handler.rs: the orientation tag of an EXIF block
-- is set to 1, "no transform".
pub mod Patched
use image_resizer.Prelude.{
  Bool, Option, [], bind?, drop, false, if◌then◌else◌, length, ltb, map_option, none, not, some,
  suc, take, true, zero, ℕ, ◌&&◌, ◌*◌, ◌++◌, ◌+◌, ◌==◌, ◌∷◌,
}
use image_resizer.Text.{Str, codes, eqb}
use image_resizer.Avif.Cursor.{from_be, get_range}
use mathlib.Core.List.{reverse}

-- `read_u16` and `read_u32` in the byte order of the block.
abbrev pub read_number : Bool → Str → ℕ
read_number little_endian b = if little_endian then from_be 0 (reverse b) else from_be 0 b

abbrev pub number_at : Bool → Str → ℕ → ℕ → Option ℕ
number_at little_endian exif from until =
    map_option (read_number little_endian) (get_range from until exif)

abbrev pub byte_order : Str → Option Bool
byte_order mark =
    if eqb mark (codes "II") then some true else if eqb mark (codes "MM") then some false else none

-- The SHORT 1.
abbrev pub short_one : Bool → Str
short_one little_endian = if little_endian then 1 ∷ 0 ∷ [] else 0 ∷ 1 ∷ []

-- The value of one SHORT is overwritten; any other shape of the entry is refused.
unfoldable pub patch_entry : Bool → Str → ℕ → Option Str
unfolding get_range from_be
patch_entry little_endian exif entry_start =
    bind? (number_at little_endian exif (entry_start + 2) (entry_start + 4)) (λ field_type.
      bind? (number_at little_endian exif (entry_start + 4) (entry_start + 8)) (λ count.
        if field_type == 3 && count == 1
        then some (
            take (entry_start + 8) exif
            ++ (short_one little_endian ++ drop (entry_start + 10) exif))
        else none))

-- The loop over the entries, for those that are left.
unfoldable pub patch_entries : Bool → Str → ℕ → ℕ → Option Str
unfolding patch_entry
patch_entries little_endian exif zero entry_start = none
patch_entries little_endian exif (suc left) entry_start =
    bind? (number_at little_endian exif entry_start (entry_start + 2)) (λ tag.
      if tag == 0x0112
      then patch_entry little_endian exif entry_start
      else patch_entries little_endian exif left (entry_start + 12))

unfoldable pub neutralize_exif_orientation : Str → Option Str
unfolding patch_entries eqb
neutralize_exif_orientation exif = bind? (get_range 0 2 exif) (λ mark.
    bind? (byte_order mark) (λ little_endian. bind? (number_at little_endian exif 2 4) (λ magic.
      if not (magic == 42)
      then none
      else bind? (number_at little_endian exif 4 8) (λ ifd0_offset.
        bind? (number_at little_endian exif ifd0_offset (ifd0_offset + 2)) (λ entry_count.
          if ltb (length exif) (ifd0_offset + 2 + entry_count * 12)
          then none
          else patch_entries little_endian exif entry_count (ifd0_offset + 2))))))
