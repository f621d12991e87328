-- ===== src/Tests/AvifExamples.antt =====
-- Examples for the AVIF metadata reader.
use image_resizer.Prelude.{List, [], arith, none, refl, ℕ, ◌-◌, ◌∷◌, ◌≡◌}
use image_resizer.Text.{Str, codes, eqb, strip_prefix}
use image_resizer.Avif.{parse_avif}
use image_resizer.Avif.Boxes.{keep_first, max_boxes_visited, read_box_header, walk_boxes}
use image_resizer.Avif.BoxLaws.{Box, encode_box, encode_boxes, visit_all, walk_boxes-encode_boxes}
use image_resizer.Avif.Composition.{oriented-compose}
use image_resizer.Avif.Motions.{Moves, Side, oriented}
use image_resizer.Avif.Cursor.{Cursor, from_be, get_from, read_bytes, read_uint, skip}
use image_resizer.Avif.ExifBounds.{IsExif, parse_avif-IsExif}
use image_resizer.Avif.Transforms.{
  TransformProperty, compose, identity, into_orientation, mirror, rotate,
}
use image_resizer.Avif.Exif.{parse_infe_exif_item_id}

abbrev two_properties : List (ℕ × TransformProperty)
two_properties = (1, rotate 1) ∷ (2, mirror 0) ∷ []

oriented-compose_example :
    Moves two_properties
      (1 ∷ 5 ∷ 2 ∷ [])
      Side.top
      (oriented (into_orientation (compose two_properties (1 ∷ 5 ∷ 2 ∷ []) identity)) Side.top)
oriented-compose_example = oriented-compose two_properties (1 ∷ 5 ∷ 2 ∷ []) Side.top

abbrev two_boxes : List Box
two_boxes =
    record { box_type = codes "free"; content = 7 ∷ [] }
    ∷ record { box_type = codes "meta"; content = 0 ∷ 1 ∷ [] }
    ∷ []

walk_boxes-encode_boxes_example :
    walk_boxes (keep_first (codes "meta")) (encode_boxes two_boxes) 0 max_boxes_visited none
    ≡ (visit_all (keep_first (codes "meta")) two_boxes none, max_boxes_visited - 2)
walk_boxes-encode_boxes_example =
    walk_boxes-encode_boxes (keep_first (codes "meta")) two_boxes 0 max_boxes_visited none
      ((refl, omega arith), ((refl, omega arith), tt)) (omega arith) (omega arith)

-- A file with an EXIF item of eight bytes, which lies in the first box.
abbrev tiff : Str
tiff = b'I' ∷ b'I' ∷ b'*' ∷ 0 ∷ []

abbrev infe : Box
infe = record { box_type = codes "infe"; content = 2 ∷ 0 ∷ 0 ∷ 0 ∷ 0 ∷ 1 ∷ 0 ∷ 0 ∷ codes "Exif" }

abbrev iinf : Box
iinf = record { box_type = codes "iinf"; content = 0 ∷ 0 ∷ 0 ∷ 0 ∷ 0 ∷ 1 ∷ encode_box infe }

abbrev iloc : Box
iloc = record {
  box_type = codes "iloc";
  content =
      0 ∷ 0 ∷ 0 ∷ 0 ∷ 68 ∷ 0 ∷ 0 ∷ 1 ∷ 0 ∷ 1 ∷ 0 ∷ 0 ∷ 0 ∷ 1 ∷ 0 ∷ 0 ∷ 0 ∷ 8 ∷ 0 ∷ 0 ∷ 0 ∷ 8 ∷ [];
}

abbrev exif_file : Str
exif_file = encode_boxes (
    record { box_type = codes "free"; content = 0 ∷ 0 ∷ 0 ∷ 0 ∷ tiff }
    ∷ record { box_type = codes "meta"; content = 0 ∷ 0 ∷ 0 ∷ 0 ∷ encode_boxes (iinf ∷ iloc ∷ []) }
    ∷ [])

parse_avif-IsExif_example : IsExif tiff
unfolding parse_avif encode_boxes image_resizer.Cache.be32 read_box_header read_bytes from_be
    image_resizer.Text.eqb image_resizer.Avif.Cursor.get_from image_resizer.Avif.Cursor.skip
    image_resizer.Avif.Exif.parse_infe_exif_item_id image_resizer.Avif.Cursor.read_uint
    image_resizer.Text.strip_prefix
parse_avif-IsExif_example = parse_avif-IsExif exif_file tiff refl
