-- ===== src/Image/Geometry/Regions.antt =====
-- The regions that are cut out, and the canvases.
use image_resizer.Prelude.{
  Bool-cases, arith, inl, inr, leb, max, min, refl, ℕ, ◌&&◌, ◌+◌, ◌-◌, ◌/◌, ◌<◌, ◌≡◌, ◌≤◌, ◌⊎◌,
}
use image_resizer.Prelude.Floats.{FloatLaws, Floats}
use image_resizer.Models.Query.{
  Crop, CropDimension, Gravity, Rgb, absolute, center, east, focus_point, full, north, north_east,
  north_west, relative, south, south_east, south_west, west,
}
use image_resizer.Image.Geometry.{
  ImageCrate, anchor_point, apply_crop, apply_extend, embed_on_background, gravity_anchor,
  resolve_crop_dimension,
}

-- A region with at least one pixel, inside an image of this size.
pub record IsInside (width height x y w h : ℕ) : Type 0 where
  pub wide : 1 ≤ w
  pub high : 1 ≤ h
  pub right_edge : x + w ≤ width
  pub lower_edge : y + h ≤ height

module _ (fl : Floats) (laws : FloatLaws fl) where
  open fl use {F64, zero_f64, f64_of_u32, floor_f64, as_u32}

  -- Rounded down, the coordinate is at most `n`.
  abbrev AtMost : ℕ → F64 → Type 0
  AtMost n a = as_u32 (floor_f64 a) ≤ n

  anchor_point-AtMost :
      (gravity : Gravity fl) (container box : ℕ × ℕ) (n m : ℕ)
      → AtMost n (anchor_point fl gravity container box (f64_of_u32 n) (f64_of_u32 m)).0
        × AtMost m (anchor_point fl gravity container box (f64_of_u32 n) (f64_of_u32 m)).1
  unfolding anchor_point
  anchor_point-AtMost center c b n m = (laws.floor_half_le n, laws.floor_half_le m)
  anchor_point-AtMost north c b n m = (laws.floor_half_le n, laws.floor_zero_le m)
  anchor_point-AtMost south c b n m = (laws.floor_half_le n, laws.floor_of_u32_le m)
  anchor_point-AtMost west c b n m = (laws.floor_zero_le n, laws.floor_half_le m)
  anchor_point-AtMost east c b n m = (laws.floor_of_u32_le n, laws.floor_half_le m)
  anchor_point-AtMost north_west c b n m = (laws.floor_zero_le n, laws.floor_zero_le m)
  anchor_point-AtMost north_east c b n m = (laws.floor_of_u32_le n, laws.floor_zero_le m)
  anchor_point-AtMost south_west c b n m = (laws.floor_zero_le n, laws.floor_of_u32_le m)
  anchor_point-AtMost south_east c b n m = (laws.floor_of_u32_le n, laws.floor_of_u32_le m)
  anchor_point-AtMost (focus_point x y) c b n m = (laws.floor_clamp_le _ n, laws.floor_clamp_le _ m)

  -- A box that fits its container is anchored inside it.
  gravity_anchor-inside :
      (gravity : Gravity fl) (container_w container_h box_w box_h : ℕ)
      → box_w ≤ container_w
      → box_h ≤ container_h
      → (let at = gravity_anchor fl gravity container_w container_h box_w box_h in
          (at.0 + box_w ≤ container_w) × (at.1 + box_h ≤ container_h))
  unfolding gravity_anchor
  gravity_anchor-inside gravity cw ch bw bh fits_w fits_h =
      let same_w : min bw cw ≡ bw = omega arith in
      let same_h : min bh ch ≡ bh = omega arith in
      let (x, y) = anchor_point-AtMost gravity (cw, ch) (bw, bh) (cw - bw) (ch - bh) in
      rw same_w (rw same_h (omega (arith, x), omega (arith, y)))

  resolve_crop_dimension-bounds :
      (dim : CropDimension fl) (source : ℕ)
      → 0 < source
      → (1 ≤ resolve_crop_dimension fl dim source) × (resolve_crop_dimension fl dim source ≤ source)
  unfolding resolve_crop_dimension
  resolve_crop_dimension-bounds full source h = omega arith
  resolve_crop_dimension-bounds (absolute v) source h = omega arith
  resolve_crop_dimension-bounds (relative f) source h = omega arith

  module _ (im : ImageCrate) where
    open im use {DynamicImage, width, height, crop_imm}

    -- A crop of an image that is not empty cuts out a region inside it with at least one pixel,
    -- whatever sizes and gravity the request names.
    pub apply_crop-IsInside :
        (img : DynamicImage) (crop : Crop fl)
        → 0 < width img
        → 0 < height img
        → (x : ℕ) × (y : ℕ) × (w : ℕ) × (h : ℕ) × (apply_crop fl im img crop ≡ crop_imm img x y w h)
          × IsInside (width img) (height img) x y w h
    unfolding apply_crop
    apply_crop-IsInside img crop some_w some_h =
        let (wide, fits_w) = resolve_crop_dimension-bounds crop.width (width img) some_w in
        let (high, fits_h) = resolve_crop_dimension-bounds crop.height (height img) some_h in
        let (right_edge, lower_edge) =
          gravity_anchor-inside crop.gravity (width img) (height img) _ _ fits_w fits_h in
        (
          _,
          _,
          _,
          _,
          refl,
          record { wide = wide; high = high; right_edge = right_edge; lower_edge = lower_edge },
        )

    -- The picture stands in the middle of an axis, up to the parity of what is left.
    abbrev IsCentred : ℕ → ℕ → ℕ → Type 0
    IsCentred new old off = (off + old + off ≤ new) × (new ≤ off + old + off + 1)

    -- Extending leaves an image that covers the target as it is. Otherwise the canvas is the larger
    -- of image and target on each axis, and the image stands in its middle.
    pub apply_extend-IsCentred :
        (img : DynamicImage) (target_w target_h : ℕ) (background : Rgb)
        → ((target_w ≤ width img)
            × (target_h ≤ height img)
            × (apply_extend fl im img target_w target_h background ≡ img))
          ⊎ ((new_w : ℕ) × (new_h : ℕ) × (off_x : ℕ) × (off_y : ℕ) × (apply_extend fl im img
                  target_w target_h background
                ≡ embed_on_background fl im img new_w new_h off_x off_y background)
              × (new_w ≡ max (width img) target_w)
              × (new_h ≡ max (height img) target_h)
              × IsCentred new_w (width img) off_x
              × IsCentred new_h (height img) off_y)
    unfolding apply_extend
    apply_extend-IsCentred img target_w target_h background =
        elim (Bool-cases (leb target_w (width img) && leb target_h (height img))) [
          | inl covers ↦ inl (ground arith, ground arith, rw covers refl)
          | inr short ↦ inr (
            max (width img) target_w,
            max (height img) target_h,
            (max (width img) target_w - width img) / 2,
            (max (height img) target_h - height img) / 2,
            rw short refl,
            refl,
            refl,
            omega arith,
            omega arith,
          )
        ]
