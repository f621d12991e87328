-- ===== src/Image/Sizing.antt =====
-- The sizes of src/services/image/handler.rs: the check before a decode, the box of the resize step,
-- the size that a decode has to reach, and the scale of a JPEG decode.
pub mod Boxes
pub mod Scales
use image_resizer.Prelude.{
  Bool, List, Option, Result, [], false, guard, if◌then◌else◌, is_some, leb, ltb, map_option, max,
  min, none, not, ok, some, true, unwrap_or, ℕ, ◌%◌, ◌&&◌, ◌*◌, ◌+◌, ◌-◌, ◌/◌, ◌==◌, ◌>>=◌, ◌>>◌,
  ◌^◌, ◌||◌, ◌∷◌,
}
use image_resizer.Prelude.Floats.{Floats}
use image_resizer.Text.Signed.{rem_euclid, ℤ}
use image_resizer.Models.Formats.{ResizeType, auto, fill, fit, force}
use image_resizer.Models.Query.{ResizeQuery}
use image_resizer.Models.Formats.{ResizeType, auto, fill, fit, force}

unfoldable pub rotate_swaps_axes : ℤ → Bool
unfolding rem_euclid
rotate_swaps_axes degrees = rem_euclid degrees 360 / 90 % 2 == 1

-- `div_ceil(8)` of the product, as a `u32`.
unfoldable pub jpeg_scaled_dimension : ℕ → ℕ → ℕ
jpeg_scaled_dimension dim scale_num = (dim * scale_num + 7) / 8 % 2 ^ 32

unfoldable pub first_scale : List ℕ → ℕ → ℕ → ℕ → ℕ → ℕ
unfolding jpeg_scaled_dimension
first_scale [] raw_width raw_height target_width target_height = 8
first_scale (scale_num ∷ more) raw_width raw_height target_width target_height =
    if leb target_width (jpeg_scaled_dimension raw_width scale_num)
      && leb target_height (jpeg_scaled_dimension raw_height scale_num)
    then scale_num
    else first_scale more raw_width raw_height target_width target_height

unfoldable pub select_jpeg_dct_scale : ℕ → ℕ → ℕ → ℕ → ℕ
unfolding first_scale
select_jpeg_dct_scale = first_scale (1 ∷ 2 ∷ 4 ∷ [])

pub record EffectiveSizing : Type 0 where
  pub resize_box : Option ℕ × Option ℕ
  pub extend_box : Option (ℕ × ℕ)

-- The axis, the bound and the maximum of "Requested output dimensions too large".
pub data TooLarge : Type 0 where
  width_too_large height_too_large : ℕ → ℕ → TooLarge

-- Swaps the axes, if the rotation does.
abbrev pub swap_if : {A : Type 0} → Bool → A × A → A × A
swap_if true (a, b) = (b, a)
swap_if false (a, b) = (a, b)

abbrev both : Option ℕ → Option ℕ → Option (ℕ × ℕ)
both (some w) (some h) = some (w, h)
both _ _ = none

-- The enlarge guard of one axis.
abbrev pub guard_axis : Bool → ℕ → ℕ → ℕ
guard_axis enlarge src v = if enlarge then v else min v src

-- The floor of one axis, for `min_width` or `min_height`.
abbrev pub floor_axis : Option ℕ → ℕ → Option ℕ → Option ℕ
floor_axis none src v = v
floor_axis (some m) src v = some (max (unwrap_or v src) m)

module _ (fl : Floats) where
  open fl use {
    F32, F64, one_f32, one_f64, max_f32, max_f64, min_f64, f64_of_u32, f64_of_f32, mul_f64, div_f64,
    round_f64, ceil_f64, as_u32, as_u64,
  }

  -- `bound`, or none where neither is given.
  abbrev axis_bound : Option ℕ → Option ℕ → Option ℕ
  axis_bound (some a) (some b) = some (max a b)
  axis_bound (some a) none = some a
  axis_bound none (some b) = some b
  axis_bound none none = none

  unfoldable pub check_axis_bound :
      Option ℕ → Option ℕ → F32 → F32 → ℕ → (ℕ → ℕ → TooLarge) → Result TooLarge (Unit {0})
  check_axis_bound explicit least zoom dpr most too_large =
      let multiplier =
        mul_f64 (f64_of_f32 (max_f32 zoom one_f32)) (f64_of_f32 (max_f32 dpr one_f32)) in
      let scaled_explicit =
        map_option (λ v. as_u64 (ceil_f64 (mul_f64 (f64_of_u32 v) multiplier))) explicit in
      elim (axis_bound scaled_explicit least) [
        | none ↦ ok tt
        | some bound ↦ guard (leb bound most) (too_large bound most)
      ]

  -- For the maxima of the configuration.
  unfoldable pub check_output_dimensions : ResizeQuery fl → ℕ × ℕ → Result TooLarge (Unit {0})
  unfolding check_axis_bound
  check_output_dimensions params (max_output_width, max_output_height) = do
    check_axis_bound params.width params.min_width params.zoom_x params.dpr max_output_width
        width_too_large
    check_axis_bound params.height params.min_height params.zoom_y params.dpr max_output_height
        height_too_large

  -- Zoom, then dpr.
  abbrev pub scale_axis : F32 → F32 → ℕ → ℕ
  scale_axis dpr zoom v = as_u32 (
      max_f64 (round_f64 (mul_f64 (mul_f64 (f64_of_u32 v) (f64_of_f32 zoom)) (f64_of_f32 dpr)))
        one_f64)

  abbrev pub sizing_active : ResizeQuery fl → Bool
  sizing_active params =
      is_some params.width
      || is_some params.height
      || is_some params.min_width
      || is_some params.min_height

  unfoldable pub effective_resize_box : ResizeQuery fl → ℕ → ℕ → EffectiveSizing
  unfolding rotate_swaps_axes
  effective_resize_box params src_width src_height =
      if not (sizing_active params)
      then record { resize_box = (none, none); extend_box = none }
      else let swap = rotate_swaps_axes params.rotate in
        let final_src = swap_if swap (src_width, src_height) in
        let scaled_w = map_option (scale_axis params.dpr params.zoom_x) params.width in
        let scaled_h = map_option (scale_axis params.dpr params.zoom_y) params.height in
        let guarded_w = map_option (guard_axis params.enlarge final_src.0) scaled_w in
        let guarded_h = map_option (guard_axis params.enlarge final_src.1) scaled_h in
        let final_w = floor_axis params.min_width final_src.0 guarded_w in
        let final_h = floor_axis params.min_height final_src.1 guarded_h in
        record { resize_box = swap_if swap (final_w, final_h); extend_box = both scaled_w scaled_h }

  -- One axis of `resize_dimensions`; its `fill` is `cover` here.
  abbrev ratio_axis : F64 → ℕ → F64
  ratio_axis ratio v = max_f64 (round_f64 (mul_f64 (f64_of_u32 v) ratio)) one_f64

  abbrev u32_max : ℕ
  u32_max = 2 ^ 32 - 1

  unfoldable pub resize_dimensions : ℕ → ℕ → ℕ → ℕ → Bool → ℕ × ℕ
  resize_dimensions width height nwidth nheight cover =
      let wratio = div_f64 (f64_of_u32 nwidth) (f64_of_u32 width) in
      let hratio = div_f64 (f64_of_u32 nheight) (f64_of_u32 height) in
      let ratio = if cover then max_f64 wratio hratio else min_f64 wratio hratio in
      let nw = as_u64 (ratio_axis ratio width) in
      let nh = as_u64 (ratio_axis ratio height) in
      if ltb u32_max nw
      then (u32_max, as_u32 (ratio_axis (div_f64 (f64_of_u32 u32_max) (f64_of_u32 width)) height))
      else if ltb u32_max nh
      then (as_u32 (ratio_axis (div_f64 (f64_of_u32 u32_max) (f64_of_u32 height)) width), u32_max)
      else (nw % 2 ^ 32, nh % 2 ^ 32)

  -- The match on the box and the resize type.
  unfoldable pub target_of : ℕ → ℕ → ResizeType → Option ℕ × Option ℕ → ℕ × ℕ
  unfolding resize_dimensions
  target_of src_width src_height resize_type (some w, none) =
      resize_dimensions src_width src_height w u32_max false
  target_of src_width src_height resize_type (none, some h) =
      resize_dimensions src_width src_height u32_max h false
  target_of src_width src_height fit (some w, some h) =
      resize_dimensions src_width src_height w h false
  target_of src_width src_height fill (some w, some h) =
      resize_dimensions src_width src_height w h true
  target_of src_width src_height force (some w, some h) = (max w 1, max h 1)
  target_of src_width src_height ResizeType.auto (some w, some h) =
      let src_landscape = leb src_height src_width in
      let dst_landscape = leb h w in
      resize_dimensions src_width src_height w h
        (src_landscape && dst_landscape || not src_landscape && not dst_landscape)
  target_of src_width src_height resize_type (none, none) = (src_width, src_height)

  unfoldable pub effective_resize_target : ℕ → ℕ → ResizeQuery fl → ℕ × ℕ
  unfolding effective_resize_box target_of
  effective_resize_target src_width src_height params =
      target_of src_width src_height params.resize_type
        (effective_resize_box params src_width src_height).resize_box
