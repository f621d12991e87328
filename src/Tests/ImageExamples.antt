-- ===== src/Tests/ImageExamples.antt =====
-- Examples for the parts of the image service.
use image_resizer.Image.Pipeline.{Decoded, OutputConfig, PixelWork}
use image_resizer.Text.Signed.{pos}
use image_resizer.Models.Formats.{webp}
use image_resizer.Image.Exif.{byte_order, neutralize_exif_orientation, number_at}
use image_resizer.Image.Exif.Patched.{IsPatched, neutralize-IsPatched}
use image_resizer.Avif.Cursor.{get_range}
use image_resizer.Prelude.{
  Bool, List, Result, [], arith, bind?, false, if◌then◌else◌, length, none, ok, refl, replicate,
  some, subst, true, ℕ, ◌&&◌, ◌++◌, ◌+◌, ◌<◌, ◌==◌, ◌∷◌, ◌≡◌, ◌≤◌,
}
use image_resizer.Text.{Str, codes}
use image_resizer.Models.Query.{Crop, ResizeQuery, TrimOptions, absolute, focus_point}
use image_resizer.Image.Sizing.{
  effective_resize_box, rotate_swaps_axes, select_jpeg_dct_scale, swap_if,
}
use image_resizer.Image.Sizing.Boxes.{AxisOk, effective_resize_box-AxisOk}
use image_resizer.Image.Geometry.{ImageCrate, apply_crop}
use image_resizer.Tests.Samples.{plain_codecs, whole_numbers, whole_numbers_laws}
use image_resizer.Image.MaxBytes.Fits.{Fits, MadeWithin, encode_with_max_bytes-Fits}
use image_resizer.Image.Geometry.Regions.{IsInside, apply_crop-IsInside}
use image_resizer.Image.Sizing.Scales.{IsScale, Reaches, select_jpeg_dct_scale-IsSmallest}
use image_resizer.Image.Trimming.{apply_trim, is_background}
use image_resizer.Image.Trimming.Borders.{CutTo, apply_trim-CutTo}
use image_resizer.Url.Options.{default_options}
use image_resizer.Image.MaxBytes.{encode_with_max_bytes}
use image_resizer.Url.Request.{into_resize_query}

-- An encoder whose output has as many bytes as the quality says.
abbrev sized : ℕ → Result Str (List ℕ)
sized q = ok (replicate q 0)

ok_bytes : (xs ys : List ℕ) → ◌≡◌ {A = Result Str (List ℕ)} (ok xs) (ok ys) → xs ≡ ys
ok_bytes xs ys h = cc

sized-least : (bytes : List ℕ) → sized 1 ≡ ok bytes → length bytes ≤ 10
sized-least bytes h = subst (λ b. length b ≤ 10) (ok_bytes (0 ∷ []) bytes h) (omega arith)

encode_with_max_bytes-Fits_example :
    (bytes : List ℕ) × (encode_with_max_bytes 10 sized 80 ≡ ok bytes)
    × MadeWithin 10 sized 80 bytes
    × Fits 10 sized bytes
    × ((first : List ℕ) → sized 80 ≡ ok first → Fits 10 sized first → bytes ≡ first)
encode_with_max_bytes-Fits_example =
    encode_with_max_bytes-Fits 10 sized (λ q. (replicate q 0, refl)) sized-least 80 (omega arith)
      (omega arith)

abbrev tall_query : ResizeQuery whole_numbers
tall_query =
    record (into_resize_query whole_numbers plain_codecs (record {
      options = default_options whole_numbers;
      source = record { url = codes "http://h/a"; format = webp };
    })) { width = some 800; height = some 600; min_width = some 100; rotate = pos 90 }

abbrev tall_source : ℕ × ℕ
tall_source = (640, 480)

effective_resize_box-AxisOk_example :
    (let swap = rotate_swaps_axes tall_query.rotate in
      let final_box =
        swap_if swap (effective_resize_box whole_numbers tall_query 640 480).resize_box in
      let final_src = swap_if swap tall_source in
      AxisOk tall_query.enlarge tall_query.width tall_query.min_width final_src.0 final_box.0
      × AxisOk tall_query.enlarge tall_query.height tall_query.min_height final_src.1 final_box.1)
effective_resize_box-AxisOk_example =
    effective_resize_box-AxisOk whole_numbers whole_numbers_laws tall_query 640 480

select_jpeg_dct_scale-IsSmallest_example :
    IsScale (select_jpeg_dct_scale 1000 800 240 100)
    × Reaches 1000 800 240 100 (select_jpeg_dct_scale 1000 800 240 100)
    × ((t : ℕ)
        → IsScale t
        → t < select_jpeg_dct_scale 1000 800 240 100
        → ¬ Reaches 1000 800 240 100 t)
select_jpeg_dct_scale-IsSmallest_example =
    select_jpeg_dct_scale-IsSmallest 1000 800 240 100 (omega arith) (omega arith) (omega arith)
      (omega arith)

-- An image is its size; one pixel at (2, 1) is white and the others are black.
abbrev pub one_dot : ImageCrate
one_dot = record {
  DynamicImage = ℕ × ℕ;
  width = λ img. img.0;
  height = λ img. img.1;
  rgb_at = λ img x y. if x == 2 && y == 1 then (255, 255, 255) else (0, 0, 0);
  crop_imm = λ img x y w h. (w, h);
  has_alpha = λ img. false;
  overlay_rgba = λ w h background alpha img x y. (w, h);
  overlay_rgb = λ w h background img x y. (w, h);
}

abbrev wide_crop : Crop whole_numbers
wide_crop = record { width = absolute 900; height = absolute 2; gravity = focus_point 1 1 }

apply_crop-IsInside_example :
    (x : ℕ) × (y : ℕ) × (w : ℕ) × (h : ℕ) × (apply_crop whole_numbers one_dot (6, 4) wide_crop
      ≡ (w, h))
    × IsInside 6 4 x y w h
apply_crop-IsInside_example =
    apply_crop-IsInside whole_numbers whole_numbers_laws one_dot (6, 4) wide_crop (omega arith)
      (omega arith)

abbrev black_trim : TrimOptions whole_numbers
black_trim = record { threshold = 10; color = none; equal_hor = false; equal_ver = true }

apply_trim-CutTo_example :
    CutTo whole_numbers one_dot
      (is_background whole_numbers one_dot (6, 4) 10 (0, 0, 0))
      (6, 4)
      (apply_trim whole_numbers one_dot (6, 4) black_trim)
apply_trim-CutTo_example = apply_trim-CutTo whole_numbers one_dot (6, 4) black_trim

abbrev turned : Decoded one_dot
turned = record {
  img = (4, 3);
  orientation = 6;
  metadata = record { icc_profile = none; exif = some (codes "II") };
}

-- Images are their sizes; an encoder writes the width.
abbrev pub size_work : PixelWork whole_numbers one_dot
size_work = record {
  decode_animation = λ bytes format. ok none;
  encode_animation = λ frames w h params. ok ([], []);
  peek_dimensions = λ bytes format. ok (4, 3);
  decode_with_limits = λ bytes format mp params. ok turned;
  apply_orientation = λ o img. (img.1, img.0);
  fir_resize = λ img w h filter. ok (w, h);
  fir_resize_exact = λ img w h filter. ok (w, h);
  fir_resize_to_fill = λ img w h filter gravity. ok (w, h);
  rotate90 = λ img. (img.1, img.0);
  rotate180 = λ img. img;
  rotate270 = λ img. (img.1, img.0);
  fliph = λ img. img;
  flipv = λ img. img;
  grayscale = λ img. img;
  blur = λ img sigma. img;
  apply_watermark = λ img bytes watermark. ok img;
  flatten_onto_background = λ img b. img;
  normalize_transparent_pixels = λ img b. img;
  f32_of_quality = λ q. q;
  default_webp_quality = 82;
  encode_webp = λ img q lossless metadata. ok (img.0 ∷ []);
  encode_png = λ img metadata. ok (img.0 ∷ []);
  encode_jpeg = λ img q progressive subsampling metadata. ok (img.0 ∷ []);
  encode_avif = λ img q exif. ok (img.0 ∷ []);
  write_gif = λ img. ok (img.0 ∷ []);
}

abbrev pub small_config : OutputConfig
small_config = record {
  max_output = (100, 100);
  max_src_resolution_mp = 1;
  jpeg_progressive_default = false;
  jpeg_no_subsampling_default = false;
}

abbrev pub plain_query : ResizeQuery whole_numbers
plain_query = into_resize_query whole_numbers plain_codecs (record {
  options = default_options whole_numbers;
  source = record { url = codes "http://h/a"; format = webp };
})

-- A little-endian block with one entry: the orientation 6.
abbrev exif_of : ℕ → Str
exif_of orientation =
    codes "II"
    ++ (42 ∷ 0 ∷ 8 ∷ 0 ∷ 0 ∷ 0 ∷ 1 ∷ 0 ∷ 0x12 ∷ 1 ∷ 3 ∷ 0 ∷ 1 ∷ 0 ∷ 0 ∷ 0 ∷ orientation ∷ 0 ∷ 0 ∷ 0
        ∷ [])

neutralize-IsPatched_example :
    (little_endian : Bool) × (bind? (get_range 0 2 (exif_of 6)) byte_order ≡ some little_endian)
    × (length (exif_of 1) ≡ length (exif_of 6))
    × (patched : IsPatched little_endian (exif_of 6) (exif_of 1)) × (number_at little_endian
          (exif_of 1)
          (patched.entry + 8)
          (patched.entry + 10)
        ≡ some 1)
unfolding neutralize_exif_orientation
neutralize-IsPatched_example = neutralize-IsPatched (exif_of 6) (exif_of 1) refl
