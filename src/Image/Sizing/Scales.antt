-- ===== src/Image/Sizing/Scales.antt =====
-- The scale of a JPEG decode.
use image_resizer.Prelude.{
  Bool, Bool-cases, arith, false, inl, inr, leb, true, ℕ, ◌&&◌, ◌<◌, ◌^◌, ◌≡◌, ◌≤◌,
}
use image_resizer.Image.Sizing.{first_scale, jpeg_scaled_dimension, select_jpeg_dct_scale}

-- A decode at this scale reaches the target on both axes.
abbrev pub Reaches : ℕ → ℕ → ℕ → ℕ → ℕ → Type 0
Reaches raw_width raw_height target_width target_height scale_num =
    (target_width ≤ jpeg_scaled_dimension raw_width scale_num)
    × (target_height ≤ jpeg_scaled_dimension raw_height scale_num)

-- The scales of a decode: 1/8, 1/4, 1/2 and the whole.
pub data IsScale : ℕ → Type 0 where
  eighth : IsScale 1
  quarter : IsScale 2
  half : IsScale 4
  whole : IsScale 8

module _ (raw_width raw_height target_width target_height : ℕ) where
  abbrev Fails : ℕ → Type 0
  Fails scale_num = ¬ Reaches raw_width raw_height target_width target_height scale_num

  abbrev tries : ℕ → Bool
  tries scale_num =
      leb target_width (jpeg_scaled_dimension raw_width scale_num)
      && leb target_height (jpeg_scaled_dimension raw_height scale_num)

  tries-Reaches :
      (scale_num : ℕ)
      → tries scale_num ≡ true
      → Reaches raw_width raw_height target_width target_height scale_num
  tries-Reaches scale_num h = ground arith

  tries-Fails : (scale_num : ℕ) → tries scale_num ≡ false → Fails scale_num
  tries-Fails scale_num h (w, l) = ground arith

  whole-Reaches :
      raw_width < 2 ^ 32
      → raw_height < 2 ^ 32
      → target_width ≤ raw_width
      → target_height ≤ raw_height
      → Reaches raw_width raw_height target_width target_height 8
  unfolding jpeg_scaled_dimension
  whole-Reaches raw_w raw_h small_w small_h = omega arith

  -- The outcome for a scale that no smaller one precedes.
  abbrev IsSmallest : ℕ → Type 0
  IsSmallest s =
      IsScale s
      × Reaches raw_width raw_height target_width target_height s
      × ((t : ℕ) → IsScale t → t < s → Fails t)

  below_two : Fails 1 → (t : ℕ) → IsScale t → t < 2 → Fails t
  below_two f t eighth h = f
  below_two f t quarter h = absurd (omega arith)
  below_two f t half h = absurd (omega arith)
  below_two f t whole h = absurd (omega arith)

  below_four : Fails 1 → Fails 2 → (t : ℕ) → IsScale t → t < 4 → Fails t
  below_four f g t eighth h = f
  below_four f g t quarter h = g
  below_four f g t half h = absurd (omega arith)
  below_four f g t whole h = absurd (omega arith)

  below_eight : Fails 1 → Fails 2 → Fails 4 → (t : ℕ) → IsScale t → t < 8 → Fails t
  below_eight f g k t eighth h = f
  below_eight f g k t quarter h = g
  below_eight f g k t half h = k
  below_eight f g k t whole h = absurd (omega arith)

  below_one : (t : ℕ) → IsScale t → t < 1 → Fails t
  below_one t eighth h = absurd (omega arith)
  below_one t _ h = absurd (omega arith)

  -- For a target that does not exceed the image, the chosen scale is one of the four, a decode at it
  -- reaches the target on both axes, and a decode at a smaller one of the four does not.
  pub select_jpeg_dct_scale-IsSmallest :
      raw_width < 2 ^ 32
      → raw_height < 2 ^ 32
      → target_width ≤ raw_width
      → target_height ≤ raw_height
      → IsSmallest (select_jpeg_dct_scale raw_width raw_height target_width target_height)
  unfolding select_jpeg_dct_scale first_scale
  select_jpeg_dct_scale-IsSmallest raw_w raw_h small_w small_h = elim (Bool-cases (tries 1)) [
    | inl one ↦ rw one (eighth, tries-Reaches 1 one, below_one)
    | inr not_one ↦ elim (Bool-cases (tries 2)) [
      | inl two ↦
          rw not_one (rw two (quarter, tries-Reaches 2 two, below_two (tries-Fails 1 not_one)))
      | inr not_two ↦
          let f = tries-Fails 1 not_one in
          let g = tries-Fails 2 not_two in
          elim (Bool-cases (tries 4)) [
            | inl four ↦
                rw not_one (rw not_two (rw four (half, tries-Reaches 4 four, below_four f g)))
            | inr not_four ↦ rw not_one (
                rw not_two (
                  rw not_four (
                    whole,
                    whole-Reaches raw_w raw_h small_w small_h,
                    below_eight f g (tries-Fails 4 not_four),
                  )))
          ]
    ]
  ]
