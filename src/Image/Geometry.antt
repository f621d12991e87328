-- ===== src/Image/Geometry.antt =====
-- The regions and canvases of src/services/image/handler.rs: gravity, crop, trim, extend, padding.
-- The operations of the package image are a parameter.
pub mod Regions
use image_resizer.Prelude.{Bool, if◌then◌else◌, leb, max, min, ℕ, ◌&&◌, ◌+◌, ◌-◌, ◌/◌, ◌^◌}
use image_resizer.Prelude.Floats.{Floats}
use image_resizer.Models.Query.{
  Crop, CropDimension, Gravity, Padding, Rgb, absolute, center, east, focus_point, full, north,
  north_east, north_west, relative, south, south_east, south_west, west,
}

-- `DynamicImage` with what the program calls: `dimensions`, `to_rgba8().get_pixel`, `crop_imm`,
-- `has_alpha`, and `imageops::overlay` at an offset onto a canvas of one colour, with and without an
-- alpha channel.
pub record ImageCrate : Type 1 where
  pub DynamicImage : Type 0
  pub width : DynamicImage → ℕ
  pub height : DynamicImage → ℕ
  pub rgb_at : DynamicImage → ℕ → ℕ → Rgb
  pub crop_imm : DynamicImage → ℕ → ℕ → ℕ → ℕ → DynamicImage
  pub has_alpha : DynamicImage → Bool
  pub overlay_rgba : ℕ → ℕ → Rgb → ℕ → DynamicImage → ℕ → ℕ → DynamicImage
  pub overlay_rgb : ℕ → ℕ → Rgb → DynamicImage → ℕ → ℕ → DynamicImage

-- `u32::clamp`.
abbrev pub clamp : ℕ → ℕ → ℕ → ℕ
clamp v lo hi = min (max v lo) hi

-- `u32::saturating_add`.
abbrev pub saturating_add : ℕ → ℕ → ℕ
saturating_add a b = min (a + b) (2 ^ 32 - 1)

module _ (fl : Floats) where
  open fl use {
    F64, zero_f64, one_f64, two_f64, f64_of_u32, mul_f64, sub_f64, div_f64, clamp_f64, floor_f64,
    round_f64, as_u32,
  }

  -- Half of a length.
  abbrev halved : F64 → F64
  halved v = div_f64 v two_f64

  -- One axis of a focus point: the box is centred on it, then moved inside.
  abbrev focus_axis : F64 → ℕ → ℕ → F64 → F64
  focus_axis at container box most =
      clamp_f64
        (sub_f64 (mul_f64 (f64_of_u32 container) (clamp_f64 at zero_f64 one_f64))
          (halved (f64_of_u32 box)))
        zero_f64 most

  -- The match on the gravity, for the containers, the boxes, `max_x` and `max_y`.
  unfoldable pub anchor_point : Gravity fl → ℕ × ℕ → ℕ × ℕ → F64 → F64 → F64 × F64
  anchor_point center container box max_x max_y = (halved max_x, halved max_y)
  anchor_point north container box max_x max_y = (halved max_x, zero_f64)
  anchor_point south container box max_x max_y = (halved max_x, max_y)
  anchor_point west container box max_x max_y = (zero_f64, halved max_y)
  anchor_point east container box max_x max_y = (max_x, halved max_y)
  anchor_point north_west container box max_x max_y = (zero_f64, zero_f64)
  anchor_point north_east container box max_x max_y = (max_x, zero_f64)
  anchor_point south_west container box max_x max_y = (zero_f64, max_y)
  anchor_point south_east container box max_x max_y = (max_x, max_y)
  anchor_point (focus_point x y) (container_w, container_h) (box_w, box_h) max_x max_y =
      (focus_axis x container_w box_w max_x, focus_axis y container_h box_h max_y)

  unfoldable pub gravity_anchor : Gravity fl → ℕ → ℕ → ℕ → ℕ → ℕ × ℕ
  unfolding anchor_point
  gravity_anchor gravity container_w container_h box_w box_h =
      let w = min box_w container_w in
      let h = min box_h container_h in
      let point =
        anchor_point gravity (container_w, container_h) (w, h) (f64_of_u32 (container_w - w))
          (f64_of_u32 (container_h - h)) in
      (as_u32 (floor_f64 point.0), as_u32 (floor_f64 point.1))

  -- `resolve` of `apply_crop`.
  unfoldable pub resolve_crop_dimension : CropDimension fl → ℕ → ℕ
  resolve_crop_dimension full source = clamp source 1 (max source 1)
  resolve_crop_dimension (absolute v) source = clamp v 1 (max source 1)
  resolve_crop_dimension (relative fraction) source =
      clamp (as_u32 (round_f64 (mul_f64 (f64_of_u32 source) fraction))) 1 (max source 1)

  module _ (im : ImageCrate) where
    open im use {
      DynamicImage, width, height, rgb_at, crop_imm, has_alpha, overlay_rgba, overlay_rgb,
    }

    unfoldable pub apply_crop : DynamicImage → Crop fl → DynamicImage
    unfolding gravity_anchor resolve_crop_dimension
    apply_crop img crop =
        let crop_width = resolve_crop_dimension crop.width (width img) in
        let crop_height = resolve_crop_dimension crop.height (height img) in
        let at = gravity_anchor crop.gravity (width img) (height img) crop_width crop_height in
        crop_imm img at.0 at.1 crop_width crop_height

    -- `background` with full alpha where the image has an alpha channel.
    unfoldable pub embed_on_background : DynamicImage → ℕ → ℕ → ℕ → ℕ → Rgb → DynamicImage
    embed_on_background img new_w new_h off_x off_y background =
        if has_alpha img
        then overlay_rgba new_w new_h background 255 img off_x off_y
        else overlay_rgb new_w new_h background img off_x off_y

    unfoldable pub apply_extend : DynamicImage → ℕ → ℕ → Rgb → DynamicImage
    unfolding embed_on_background
    apply_extend img target_w target_h background =
        let w = width img in
        let h = height img in
        if leb target_w w && leb target_h h
        then img
        else let new_w = max w target_w in
          let new_h = max h target_h in
          embed_on_background img new_w new_h ((new_w - w) / 2) ((new_h - h) / 2) background

    unfoldable pub apply_padding : DynamicImage → Padding → Rgb → DynamicImage
    unfolding embed_on_background
    apply_padding img padding background =
        let new_w = saturating_add (saturating_add (width img) padding.left) padding.right in
        let new_h = saturating_add (saturating_add (height img) padding.top) padding.bottom in
        embed_on_background img new_w new_h padding.left padding.top background
