-- ===== src/Avif/ExifBounds.antt =====
-- Lemmas on the size and the start of the EXIF block of avif_meta.rs.
use image_resizer.Prelude.{
  AllSome, List, Option, Option-cases, [], arith, bind?, drop, inl, inr, length, length-append,
  length-drop, none, some, take, true, ℕ, ◌++◌, ◌+◌, ◌∷◌, ◌≡◌, ◌≤◌,
}
use image_resizer.Text.{Str, codes}
use image_resizer.Avif.Exif.{
  IlocEntry, extent_bytes, extract_exif_payload, extract_exif_tiff, find_exif_item_id,
  find_iloc_entry, is_tiff, max_exif_len, payload_of, tiff_of,
}
use image_resizer.Avif.Cursor.{from_be, get_from}
use image_resizer.Avif.Boxes.{find_first_box, max_boxes_visited}
use image_resizer.Avif.{parse_avif, parse_meta}

-- A block that may be handed on.
abbrev pub IsExif : Str → Type 0
IsExif tiff = (length tiff + 4 ≤ max_exif_len) × (is_tiff tiff ≡ true)

payload_of-bounds :
    (file : Str) (base_offset : ℕ) (extents : List (ℕ × ℕ)) (payload : Str)
    → length payload ≤ max_exif_len
    → AllSome (λ p. length p ≤ max_exif_len) (payload_of file base_offset extents payload)
unfolding payload_of
payload_of-bounds file base_offset [] payload h = h
payload_of-bounds file base_offset (e ∷ extents) payload h =
    elim (Option-cases (extent_bytes file base_offset e)) [
      | inl none_there ↦ ground arith
      | inr (extent, there) ↦ ground (
        arith,
        payload_of-bounds file base_offset extents (payload ++ extent),
        length-append payload extent,
      )
    ]

tiff_of-IsExif : (payload : Str) → length payload ≤ max_exif_len → AllSome IsExif (tiff_of payload)
unfolding tiff_of get_from
tiff_of-IsExif payload h =
    ground (arith, length-drop 4 payload, length-drop (from_be 0 (take 4 payload)) (drop 4 payload))

extract_exif_tiff-IsExif :
    (file : Str) (entry : IlocEntry) → AllSome IsExif (extract_exif_tiff file entry)
unfolding extract_exif_tiff
extract_exif_tiff-IsExif file entry =
    elim (Option-cases (payload_of file entry.base_offset entry.extents [])) [
      | inl none_there ↦ ground arith
      | inr (payload, there) ↦ ground (
        arith,
        payload_of-bounds file entry.base_offset entry.extents [] (omega arith),
        tiff_of-IsExif payload,
      )
    ]

extract_exif_payload-IsExif :
    (file : Str) (iinf iloc : Option Str) (budget : ℕ)
    → AllSome IsExif (extract_exif_payload file iinf iloc budget).0
unfolding extract_exif_payload
extract_exif_payload-IsExif file none iloc budget = tt
extract_exif_payload-IsExif file (some iinf) none budget =
    elim (Option-cases (find_exif_item_id iinf 2 budget).0) [
      | inl e ↦ ground arith
      | inr (item, e) ↦ ground arith
    ]
extract_exif_payload-IsExif file (some iinf) (some iloc) budget =
    elim (Option-cases (find_exif_item_id iinf 2 budget).0) [
      | inl e ↦ ground arith
      | inr (item, e) ↦ elim (Option-cases (find_iloc_entry iloc item)) [
        | inl e' ↦ ground arith
        | inr (entry, e') ↦ ground (arith, extract_exif_tiff-IsExif file entry)
      ]
    ]

parse_meta-IsExif :
    (file body : Str) (budget : ℕ) → AllSome IsExif (parse_meta file body budget).exif
unfolding parse_meta
parse_meta-IsExif file body budget = extract_exif_payload-IsExif file _ _ _

AllSome_of_some : (P : Str → Type 0) (o : Option Str) (s : Str) → AllSome P o → o ≡ some s → P s
AllSome_of_some P o s h e = rw e at h

-- Whatever the file holds, an EXIF block that the reader recovers is at most 1 MiB less the four bytes
-- of its offset field, and begins with one of the two byte-order marks.
pub parse_avif-IsExif : (file tiff : Str) → (parse_avif file).exif ≡ some tiff → IsExif tiff
unfolding parse_avif
parse_avif-IsExif file tiff e =
    elim (Option-cases
      (bind? (find_first_box file 0 max_boxes_visited (codes "meta")).0 (get_from 4))) [
        | inl none_there ↦ ground arith
        | inr (body, there) ↦
            AllSome_of_some IsExif _ tiff
              (parse_meta-IsExif file body
                (find_first_box file 0 max_boxes_visited (codes "meta")).1)
              (ground arith)
      ]
