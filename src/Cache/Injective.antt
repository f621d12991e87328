-- ===== src/Cache/Injective.antt =====
-- Lemmas on the fields of `generate_key`, and the query as the key sees it.
use image_resizer.Prelude.{
  All, List, Option, ap, if◌then◌else◌, none, refl, some, sym, ◌++◌, ◌∷◌, ◌≡◌,
}
use image_resizer.Prelude.Floats.{FloatLaws, Floats}
use image_resizer.Text.{Str, codes, eqb}
use image_resizer.Models.Formats.{debug_position-injective, show_resize_type-injective}
use image_resizer.Models.Query.{Crop, ResizeQuery, TrimOptions, WatermarkQuery}
use image_resizer.Cache.Fields.{
  canonical_blur, crop_fields, key_fields, none_text, padding_text, quality_bytes, rgb_bytes,
  show_bool, show_option, size_text, trim_fields, watermark_fields,
}
use image_resizer.Cache.Codes.{
  format_text-injective, padding_text-injective, padding_text-ne-none, quality_bytes-injective,
  quality_bytes-ne-none, rgb_bytes-injective, rgb_bytes-ne-none, show_bool-injective,
  show_bool-ne-none, show_crop_dimension-injective, show_crop_dimension-ne-none,
  show_gravity-injective, show_nat-ne-none, show_option-injective, size_text-injective,
  size_text-ne-none,
}
use image_resizer.Cache.Framing.{IsShort, update_fields-injective}
use image_resizer.Cache.{cache_key_version, hash_input}
use image_resizer.Text.Signed.{show_int-injective}
use image_resizer.Text.Numbers.{show_nat, show_nat-injective}

∷-cancel : {A : Type 0} {x y : A} {xs ys : List A} → x ∷ xs ≡ y ∷ ys → (x ≡ y) × (xs ≡ ys)
∷-cancel e = (cc, cc)

-- A text is absent where it would print as the absent one.
abbrev known_text : Str → Option Str
known_text s = if eqb s none_text then none else some s

abbrev canonical_text : Option Str → Option Str
canonical_text none = none
canonical_text (some s) = known_text s

canonical_text-cancel :
    (a b : Option Str)
    → show_option (λ u. u) a ≡ show_option (λ u. u) b
    → canonical_text a ≡ canonical_text b
unfolding eqb
canonical_text-cancel none none e = refl
canonical_text-cancel none (some b) e = rw (← e)
canonical_text-cancel (some a) none e = rw e
canonical_text-cancel (some a) (some b) e = ap known_text e

module _ (fl : Floats) where
  abbrev canonical_watermark : Option (WatermarkQuery fl) → Option (WatermarkQuery fl)
  canonical_watermark none = none
  canonical_watermark (some w) = some (record w { url = canonical_text w.url })

  -- The query as the key sees it: a blur that is not positive is no blur, and a watermark URL that
  -- reads "None" is no URL.
  abbrev pub canonical : ResizeQuery fl → ResizeQuery fl
  canonical p = record p {
    blur_sigma = canonical_blur fl p.blur_sigma;
    watermark = canonical_watermark p.watermark;
  }

module _ (fl : Floats) (laws : FloatLaws fl) where
  crop_fields-cancel :
      (a b : Option (Crop fl)) (xs ys : List Str)
      → crop_fields fl a ++ xs ≡ crop_fields fl b ++ ys
      → (a ≡ b) × (xs ≡ ys)
  crop_fields-cancel none none xs ys e = (refl, (∷-cancel e).1)
  crop_fields-cancel none (some c) xs ys e =
      absurd (show_crop_dimension-ne-none fl laws c.width (sym (∷-cancel e).0))
  crop_fields-cancel (some c) none xs ys e =
      absurd (show_crop_dimension-ne-none fl laws c.width (∷-cancel e).0)
  crop_fields-cancel (some c) (some d) xs ys e =
      let (w, e₁) = ∷-cancel e in
      let (h, e₂) = ∷-cancel e₁ in
      let (g, rest) = ∷-cancel e₂ in
      (
        cc (
          show_crop_dimension-injective fl laws c.width d.width w,
          show_crop_dimension-injective fl laws c.height d.height h,
          show_gravity-injective fl laws c.gravity d.gravity g,
        ),
        rest,
      )

  trim_fields-cancel :
      (a b : Option (TrimOptions fl)) (xs ys : List Str)
      → trim_fields fl a ++ xs ≡ trim_fields fl b ++ ys
      → (a ≡ b) × (xs ≡ ys)
  trim_fields-cancel none none xs ys e = (refl, (∷-cancel e).1)
  trim_fields-cancel none (some t) xs ys e =
      absurd (laws.show_f32_ne_none t.threshold (sym (∷-cancel e).0))
  trim_fields-cancel (some t) none xs ys e =
      absurd (laws.show_f32_ne_none t.threshold (∷-cancel e).0)
  trim_fields-cancel (some t) (some u) xs ys e =
      let (threshold, e₁) = ∷-cancel e in
      let (color, e₂) = ∷-cancel e₁ in
      let (hor, e₃) = ∷-cancel e₂ in
      let (ver, rest) = ∷-cancel e₃ in
      (
        cc (
          laws.show_f32_injective t.threshold u.threshold threshold,
          show_option-injective rgb_bytes rgb_bytes-injective rgb_bytes-ne-none t.color u.color
              color,
          show_bool-injective t.equal_hor u.equal_hor hor,
          show_bool-injective t.equal_ver u.equal_ver ver,
        ),
        rest,
      )

  watermark_fields-cancel :
      (a b : Option (WatermarkQuery fl)) (xs ys : List Str)
      → watermark_fields fl a ++ xs ≡ watermark_fields fl b ++ ys
      → (canonical_watermark fl a ≡ canonical_watermark fl b) × (xs ≡ ys)
  watermark_fields-cancel none none xs ys e = (refl, (∷-cancel e).1)
  watermark_fields-cancel none (some w) xs ys e =
      absurd (laws.show_f32_ne_none w.opacity (sym (∷-cancel e).0))
  watermark_fields-cancel (some w) none xs ys e =
      absurd (laws.show_f32_ne_none w.opacity (∷-cancel e).0)
  watermark_fields-cancel (some w) (some v) xs ys e =
      let (opacity, e₁) = ∷-cancel e in
      let (position, e₂) = ∷-cancel e₁ in
      let (x, e₃) = ∷-cancel e₂ in
      let (y, e₄) = ∷-cancel e₃ in
      let (scale, e₅) = ∷-cancel e₄ in
      let (url, e₆) = ∷-cancel e₅ in
      let (size, e₇) = ∷-cancel e₆ in
      let (rotate, e₈) = ∷-cancel e₇ in
      let (shadow, rest) = ∷-cancel e₈ in
      (
        cc (
          laws.show_f32_injective w.opacity v.opacity opacity,
          debug_position-injective w.position v.position position,
          laws.show_f32_injective w.x_offset v.x_offset x,
          laws.show_f32_injective w.y_offset v.y_offset y,
          laws.show_f32_injective w.scale v.scale scale,
          canonical_text-cancel w.url v.url url,
          show_option-injective size_text size_text-injective size_text-ne-none w.size v.size size,
          laws.show_f32_injective w.rotate v.rotate rotate,
          show_option-injective fl.show_f32 laws.show_f32_injective laws.show_f32_ne_none w.shadow
              v.shadow shadow,
        ),
        rest,
      )

  -- Equal fields, equal queries.
  key_fields-cancel :
      (p q : ResizeQuery fl) → key_fields fl p ≡ key_fields fl q → canonical fl p ≡ canonical fl q
  unfolding key_fields
  key_fields-cancel p q e0 =
      let (url, e1) = ∷-cancel e0 in
      let (width, e2) = ∷-cancel e1 in
      let (height, e3) = ∷-cancel e2 in
      let (resize_type, e4) = ∷-cancel e3 in
      let (format, e5) = ∷-cancel e4 in
      let (blur, e6) = ∷-cancel e5 in
      let (grayscale, e7) = ∷-cancel e6 in
      let (enlarge, e8) = ∷-cancel e7 in
      let (quality, e9) = ∷-cancel e8 in
      let (jpeg_quality, e10) = ∷-cancel e9 in
      let (webp_quality, e11) = ∷-cancel e10 in
      let (webp_lossless, e12) = ∷-cancel e11 in
      let (progressive, e13) = ∷-cancel e12 in
      let (no_subsampling, e14) = ∷-cancel e13 in
      let (max_bytes, e15) = ∷-cancel e14 in
      let (background, e16) = ∷-cancel e15 in
      let (autorotate, e17) = ∷-cancel e16 in
      let (gravity, e18) = ∷-cancel e17 in
      let (crop, e19) = crop_fields-cancel p.crop q.crop _ _ e18 in
      let (rotate, e20) = ∷-cancel e19 in
      let (flip_h, e21) = ∷-cancel e20 in
      let (flip_v, e22) = ∷-cancel e21 in
      let (trim, e23) = trim_fields-cancel p.trim q.trim _ _ e22 in
      let (watermark, e24) = watermark_fields-cancel p.watermark q.watermark _ _ e23 in
      let (extend, e25) = ∷-cancel e24 in
      let (padding, e26) = ∷-cancel e25 in
      let (zoom_x, e27) = ∷-cancel e26 in
      let (zoom_y, e28) = ∷-cancel e27 in
      let (dpr, e29) = ∷-cancel e28 in
      let (min_width, e30) = ∷-cancel e29 in
      let (min_height, e31) = ∷-cancel e30 in
      let (strip, e32) = ∷-cancel e31 in
      λ i. record {
        url = url i;
        width =
            (show_option-injective show_nat show_nat-injective show_nat-ne-none p.width q.width
                width)
              i;
        height =
            (show_option-injective show_nat show_nat-injective show_nat-ne-none p.height q.height
                height)
              i;
        resize_type = show_resize_type-injective p.resize_type q.resize_type resize_type i;
        format = format_text-injective p.format q.format format i;
        blur_sigma =
            show_option-injective fl.show_f32 laws.show_f32_injective laws.show_f32_ne_none
              (canonical_blur fl p.blur_sigma) (canonical_blur fl q.blur_sigma) blur i;
        grayscale =
            (show_option-injective show_bool show_bool-injective show_bool-ne-none p.grayscale
                q.grayscale grayscale)
              i;
        enlarge = show_bool-injective p.enlarge q.enlarge enlarge i;
        quality =
            (show_option-injective quality_bytes quality_bytes-injective quality_bytes-ne-none
                p.quality q.quality quality)
              i;
        jpeg_quality =
            (show_option-injective quality_bytes quality_bytes-injective quality_bytes-ne-none
                p.jpeg_quality q.jpeg_quality jpeg_quality)
              i;
        webp_quality =
            (show_option-injective quality_bytes quality_bytes-injective quality_bytes-ne-none
                p.webp_quality q.webp_quality webp_quality)
              i;
        webp_lossless =
            (show_option-injective show_bool show_bool-injective show_bool-ne-none p.webp_lossless
                q.webp_lossless webp_lossless)
              i;
        jpeg_progressive =
            (show_option-injective show_bool show_bool-injective show_bool-ne-none
                p.jpeg_progressive q.jpeg_progressive progressive)
              i;
        jpeg_no_subsampling =
            (show_option-injective show_bool show_bool-injective show_bool-ne-none
                p.jpeg_no_subsampling q.jpeg_no_subsampling no_subsampling)
              i;
        max_bytes =
            (show_option-injective show_nat show_nat-injective show_nat-ne-none p.max_bytes
                q.max_bytes max_bytes)
              i;
        background =
            (show_option-injective rgb_bytes rgb_bytes-injective rgb_bytes-ne-none p.background
                q.background background)
              i;
        autorotate = show_bool-injective p.autorotate q.autorotate autorotate i;
        strip_metadata = show_bool-injective p.strip_metadata q.strip_metadata strip i;
        crop = crop i;
        gravity = show_gravity-injective fl laws p.gravity q.gravity gravity i;
        rotate = show_int-injective p.rotate q.rotate rotate i;
        flip_horizontal = show_bool-injective p.flip_horizontal q.flip_horizontal flip_h i;
        flip_vertical = show_bool-injective p.flip_vertical q.flip_vertical flip_v i;
        trim = trim i;
        extend = show_bool-injective p.extend q.extend extend i;
        padding =
            (show_option-injective padding_text padding_text-injective padding_text-ne-none
                p.padding q.padding padding)
              i;
        zoom_x = laws.show_f32_injective p.zoom_x q.zoom_x zoom_x i;
        zoom_y = laws.show_f32_injective p.zoom_y q.zoom_y zoom_y i;
        dpr = laws.show_f32_injective p.dpr q.dpr dpr i;
        min_width =
            (show_option-injective show_nat show_nat-injective show_nat-ne-none p.min_width
                q.min_width min_width)
              i;
        min_height =
            (show_option-injective show_nat show_nat-injective show_nat-ne-none p.min_height
                q.min_height min_height)
              i;
        watermark = watermark i;
      }

  -- Two queries whose fields are shorter than 4 GiB and which feed the hash the same bytes are the
  -- same query, up to a blur that is not positive and a watermark URL that reads "None".
  pub hash_input-injective :
      (p q : ResizeQuery fl)
      → All IsShort (key_fields fl p)
      → All IsShort (key_fields fl q)
      → hash_input fl p ≡ hash_input fl q
      → canonical fl p ≡ canonical fl q
  unfolding hash_input
  hash_input-injective p q h k e =
      key_fields-cancel p q (update_fields-injective cache_key_version _ _ h k e)

module _ (fl : Floats) where
  -- The bytes that are hashed do not tell a watermark whose URL reads "None" from one that names no URL.
  pub hash_input-none_url :
      (p : ResizeQuery fl) (w : WatermarkQuery fl)
      → hash_input fl (record p { watermark = some (record w { url = some (codes "None") }) })
        ≡ hash_input fl (record p { watermark = some (record w { url = none }) })
  unfolding hash_input key_fields
  hash_input-none_url p w = refl
