-- ===== src/Avif.antt =====
-- src/services/image/avif_meta.rs: the reader of the orientation and the EXIF block of an AVIF file.
pub mod Cursor
pub mod Boxes
pub mod Transforms
pub mod Exif
pub mod Motions
pub mod Composition
pub mod BoxLaws
pub mod ExifBounds
use image_resizer.Prelude.{Option, bind?, none, some, ℕ}
use image_resizer.Text.{Str, codes}
use image_resizer.Avif.Cursor.{get_from}
use image_resizer.Avif.Transforms.{Orientation, no_transforms, resolve_orientation}
use image_resizer.Avif.Boxes.{find_first_box, keep_first, max_boxes_visited, walk_boxes}
use image_resizer.Avif.Exif.{extract_exif_payload}

pub record AvifMetadata : Type 0 where
  pub orientation : Orientation
  pub exif : Option Str

-- What `parse` looks for in `meta`.
pub record MetaBoxes : Type 0 where
  pub iinf : Option Str
  pub iloc : Option Str
  pub iprp : Option Str
  pub pitm : Option Str

abbrev pub no_metadata : AvifMetadata
no_metadata = record { orientation = no_transforms; exif = none }

abbrev no_boxes : MetaBoxes
no_boxes = record { iinf = none; iloc = none; iprp = none; pitm = none }

abbrev visit_meta : Str → Str → MetaBoxes → MetaBoxes
visit_meta box_type content m = record {
  iinf = keep_first (codes "iinf") box_type content m.iinf;
  iloc = keep_first (codes "iloc") box_type content m.iloc;
  iprp = keep_first (codes "iprp") box_type content m.iprp;
  pitm = keep_first (codes "pitm") box_type content m.pitm;
}

abbrev orientation_or : Option Orientation → Orientation
orientation_or none = no_transforms
orientation_or (some o) = o

-- Behind the version and the flags of `meta`.
unfoldable pub parse_meta : Str → Str → ℕ → AvifMetadata
unfolding walk_boxes resolve_orientation extract_exif_payload
parse_meta file body budget =
    let (found, left) = walk_boxes visit_meta body 1 budget no_boxes in
    let (orientation, left') = resolve_orientation found.pitm found.iprp left in
    let (exif, _) = extract_exif_payload file found.iinf found.iloc left' in
    record { orientation = orientation_or orientation; exif = exif }

unfoldable pub parse_avif : Str → AvifMetadata
unfolding find_first_box parse_meta
parse_avif file =
    let (meta, left) = find_first_box file 0 max_boxes_visited (codes "meta") in
    elim (bind? meta (get_from 4)) [ none ↦ no_metadata | some body ↦ parse_meta file body left ]
