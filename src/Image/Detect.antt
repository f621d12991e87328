-- ===== src/Image/Detect.antt =====
-- `detect_format_from_bytes`, `is_avif`, `check_source_resolution`, `build_decode_limits`,
-- `estimate_output_size` and `write_riff_chunk` of src/services/image/handler.rs.
use image_resizer.Prelude.{
  Bool, List, Option, [], drop, false, if◌then◌else◌, leb, length, ltb, max, min, none, not, some,
  suc, take, zero, ℕ, ◌%◌, ◌&&◌, ◌*◌, ◌++◌, ◌+◌, ◌-◌, ◌/◌, ◌==◌, ◌^◌, ◌||◌, ◌∷◌,
}
use image_resizer.Text.{Str, codes, eqb}
use image_resizer.Avif.Cursor.{from_be}

-- `ImageFormat` of the package image, as far as the program names it.
pub data SourceFormat : Type 0 where
  jpeg png web_p avif gif : SourceFormat

-- `bytes[from..from + 4]`, where that is in range.
abbrev word_at : Str → ℕ → Str
word_at bytes from = take 4 (drop from bytes)

abbrev is_brand : Str → Bool
is_brand brand = eqb brand (codes "avif") || eqb brand (codes "avis")

-- The loop over the compatible brands, for the slots that fit.
unfoldable pub has_brand : Str → ℕ → ℕ → Bool
unfolding eqb
has_brand bytes zero offset = false
has_brand bytes (suc slots) offset =
    is_brand (word_at bytes offset) || has_brand bytes slots (offset + 4)

unfoldable pub is_avif : Str → Bool
unfolding has_brand from_be
is_avif bytes =
    if ltb (length bytes) 12 || not (eqb (word_at bytes 4) (codes "ftyp"))
    then false
    else let scan_end = min (from_be 0 (take 4 bytes)) (length bytes) in
      is_brand (word_at bytes 8) || has_brand bytes ((scan_end - 16) / 4) 16

-- [0xFF, 0xD8, 0xFF, _]
abbrev is_jpeg_start : Str → Bool
is_jpeg_start (a ∷ b ∷ c ∷ _) = a == 0xff && b == 0xd8 && c == 0xff
is_jpeg_start _ = false

unfoldable pub detect_format_from_bytes : Str → Option SourceFormat
unfolding is_avif
detect_format_from_bytes bytes =
    let start = word_at bytes 0 in
    if ltb (length bytes) 12
    then none
    else if is_jpeg_start start
    then some jpeg
    else if eqb start (0x89 ∷ 0x50 ∷ 0x4e ∷ 0x47 ∷ [])
    then some SourceFormat.png
    else if eqb start (codes "GIF8")
    then some SourceFormat.gif
    else if eqb start (codes "RIFF") && eqb (word_at bytes 8) (codes "WEBP")
    then some web_p
    else if is_avif bytes
    then some SourceFormat.avif
    else none

-- The product of two `u32` fits a `u64`.
unfoldable pub check_source_resolution : ℕ → ℕ → ℕ → Bool
check_source_resolution width height max_src_resolution_mp =
    leb (width * height / 1000000) max_src_resolution_mp

-- `u64::saturating_mul`.
abbrev saturating_mul : ℕ → ℕ → ℕ
saturating_mul a b = min (a * b) (2 ^ 64 - 1)

-- `max_alloc` of the decode limits.
unfoldable pub decode_alloc_limit : ℕ → ℕ
decode_alloc_limit max_src_resolution_mp =
    max (saturating_mul (saturating_mul (saturating_mul max_src_resolution_mp 1000000) 4) 2)
      (64 * 1024 * 1024)

-- `checked_mul(..).unwrap_or(usize::MAX)`, on 64 bits.
abbrev mul_or_max : ℕ → ℕ → ℕ
mul_or_max a b = if ltb (a * b) (2 ^ 64) then a * b else 2 ^ 64 - 1

unfoldable pub estimate_output_size : ℕ → ℕ → SourceFormat → ℕ
estimate_output_size width height format =
    let pixels = mul_or_max width height in
    elim format [
      | jpeg ↦ pixels / 2
      | png ↦ mul_or_max pixels 4
      | web_p ↦ pixels / 3
      | _ ↦ mul_or_max pixels 3
    ]

-- `(len as u32).to_le_bytes()`.
abbrev le32 : ℕ → List ℕ
le32 n = n % 256 ∷ n / 2 ^ 8 % 256 ∷ n / 2 ^ 16 % 256 ∷ n / 2 ^ 24 % 256 ∷ []

-- For a four-byte `fourcc`.
unfoldable pub write_riff_chunk : Str → Str → Str
write_riff_chunk fourcc payload =
    fourcc
    ++ (le32 (length payload % 2 ^ 32)
        ++ (payload ++ (if length payload % 2 == 1 then 0 ∷ [] else [])))
