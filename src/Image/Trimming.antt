-- ===== src/Image/Trimming.antt =====
-- `apply_trim` of src/services/image/handler.rs.
pub mod Borders
use image_resizer.Prelude.{
  Bool, if◌then◌else◌, leb, min, suc, true, unwrap_or, zero, ℕ, ◌&&◌, ◌+◌, ◌-◌, ◌==◌, ◌||◌,
}
use image_resizer.Prelude.Floats.{Floats}
use image_resizer.Models.Query.{Rgb, TrimOptions}
use image_resizer.Image.Geometry.{ImageCrate}

-- The loop `while n < limit && p(n)`: how many indices from `start` on satisfy `p`, at most `limit`.
unfoldable pub leading : (ℕ → Bool) → ℕ → ℕ → ℕ
leading p zero start = 0
leading p (suc limit) start = if p start then suc (leading p limit (suc start)) else 0

-- `(0..n).all(p)`.
unfoldable pub all_below : (ℕ → Bool) → ℕ → Bool
all_below p zero = true
all_below p (suc n) = all_below p n && p n

pub record Margins : Type 0 where
  pub top : ℕ
  pub bottom : ℕ
  pub left : ℕ
  pub right : ℕ

abbrev pub row_is : (ℕ → ℕ → Bool) → ℕ → ℕ → Bool
row_is p w y = all_below (λ x. p x y) w

abbrev pub col_is : (ℕ → ℕ → Bool) → ℕ → ℕ → Bool
col_is p h x = all_below (λ y. p x y) h

-- The four loops.
unfoldable pub scan_margins : (ℕ → ℕ → Bool) → ℕ → ℕ → Margins
unfolding leading all_below
scan_margins p w h =
    let top = leading (row_is p w) h 0 in
    let left = leading (col_is p h) w 0 in
    record {
      top = top;
      bottom = leading (λ y. row_is p w (h - 1 - y)) (h - top) 0;
      left = left;
      right = leading (λ x. col_is p h (w - 1 - x)) (w - left) 0;
    }

-- `equal_hor` and `equal_ver`.
unfoldable pub equalize : Bool → Bool → Margins → Margins
equalize hor ver m = record {
  top = if ver then min m.top m.bottom else m.top;
  bottom = if ver then min m.top m.bottom else m.bottom;
  left = if hor then min m.left m.right else m.left;
  right = if hor then min m.left m.right else m.right;
}

module _ (fl : Floats) (im : ImageCrate) where
  open fl use {F32, f32_of_u8, sub_f32, abs_f32, max_f32, le_f32}
  open im use {DynamicImage, width, height, rgb_at, crop_imm}

  abbrev channel_distance : ℕ → ℕ → F32
  channel_distance a b = abs_f32 (sub_f32 (f32_of_u8 a) (f32_of_u8 b))

  unfoldable pub is_background : DynamicImage → F32 → Rgb → ℕ → ℕ → Bool
  is_background img threshold (tr, tg, tb) x y =
      let (r, g, b) = rgb_at img x y in
      let dr = channel_distance r tr in
      let dg = channel_distance g tg in
      let db = channel_distance b tb in le_f32 (max_f32 (max_f32 dr dg) db) threshold

  unfoldable pub trim_margins : DynamicImage → TrimOptions fl → Margins
  unfolding is_background scan_margins equalize
  trim_margins img trim =
      let target = unwrap_or trim.color (rgb_at img 0 0) in
      equalize trim.equal_hor trim.equal_ver
        (scan_margins (is_background img trim.threshold target) (width img) (height img))

  -- Nothing is cut where the margins would leave nothing.
  unfoldable pub cut_margins : DynamicImage → Margins → DynamicImage
  cut_margins img m =
      if leb (height img) (m.top + m.bottom) || leb (width img) (m.left + m.right)
      then img
      else crop_imm img m.left m.top (width img - m.left - m.right) (height img - m.top - m.bottom)

  unfoldable pub apply_trim : DynamicImage → TrimOptions fl → DynamicImage
  unfolding trim_margins cut_margins
  apply_trim img trim =
      if width img == 0 || height img == 0 then img else cut_margins img (trim_margins img trim)
