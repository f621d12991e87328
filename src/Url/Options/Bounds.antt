-- ===== src/Url/Options/Bounds.antt =====
-- The arms of `ProcessingOptions::parse` against the ranges of the options.
use image_resizer.Prelude.{
  >>=-AllOk, >>=-AllOk_any, >>=-eq-ok, AllOk, AllOk_of_ok, AllOk-trivial, AllSome, List,
  Option-cases, [], arith, if-AllOk, inl, inr, length, ltb, not, ok, some, true, ℕ, ◌%◌, ◌<◌, ◌==◌,
  ◌>>=◌, ◌^◌, ◌||◌, ◌∷◌, ◌≡◌, ◌≤◌,
}
use image_resizer.Prelude.Floats.{FloatLaws, Floats}
use image_resizer.Text.{Str, is_empty}
use image_resizer.Url.Codecs.{Codecs}
use image_resizer.Url.Options.{ParseState, ProcessingOptions, initial_state}
use image_resizer.Url.Options.Arms.{
  OptionCode, apply_code, arm_ar, arm_bg, arm_bl, arm_c, arm_dpr, arm_el, arm_ex, arm_fl, arm_fq,
  arm_g, arm_gr, arm_jpgo, arm_mb, arm_mh, arm_mw, arm_pd, arm_q, arm_rot, arm_rs, arm_sm, arm_t,
  arm_webpo, arm_wm, arm_wmr, arm_wms, arm_wmsh, arm_wmu, arm_z, crop_gravity, keep_or, option_code,
  quality_pairs, some_bool, webp_mode,
}
use image_resizer.Url.Options.Validity.{
  IsCrop, IsCropDimension, IsGravity, IsPadding, IsPositiveU32, IsQuarterTurn, IsRgb, IsTrim,
  IsValid, IsValidState,
}
use image_resizer.Url.Options.Values.{
  or_invalid, parse_background, parse_bool, parse_bounded, parse_crop_dimension, parse_dimension,
  parse_dimension_allow_zero, parse_float, parse_gravity, parse_padding, parse_resize_type,
  parse_trim, parse_watermark_position, parse_zoom, require_one, require_three, require_two,
  unless_zero,
}
use image_resizer.Url.Options.ValueBounds.{
  parse_background-IsRgb, parse_bounded-bounds, parse_crop_dimension-bounds, parse_dimension-bounds,
  parse_dimension_allow_zero-bounds, parse_gravity-bounds, parse_padding-IsPadding,
  parse_positive-bounds, parse_rotate_angle-bounds, parse_trim-IsTrim, parse_zoom-bounds,
}
use image_resizer.Url.{R, Reason, not_unsigned}
use image_resizer.Url.Options.Parse.{
  apply_all, apply_segment, args_of, code_of, parse_options, resolve_crop,
}
use image_resizer.Text.Numbers.{from_str_radix-lt, parse_u64}
use image_resizer.Text.Utf8.{from_utf8}

module _ (fl : Floats) (codecs : Codecs) (laws : FloatLaws fl) where
  quality_pairs-IsValid :
      (args : List Str) (segment : Str) (o : ProcessingOptions fl)
      → IsValid fl o
      → AllOk (IsValid fl) (quality_pairs fl codecs args segment o)
  unfolding quality_pairs
  quality_pairs-IsValid [] segment o v = v
  quality_pairs-IsValid (format ∷ []) segment o v = tt
  quality_pairs-IsValid (format ∷ value ∷ args) segment o v =
      >>=-AllOk (λ n. (0 ≤ n) × (n ≤ 100)) (IsValid fl) (parse_bounded value segment 0 100) _
        (parse_bounded-bounds value segment 0 100)
        (λ n h. ground (
          arith,
          quality_pairs-IsValid args segment (record o { jpeg_quality = some n }),
          quality_pairs-IsValid args segment (record o { webp_quality = some n }),
        ))

  -- An arm with one argument: what its parser promises has to be enough for the new options.
  arm_one-IsValid :
      {A : Type 0} (P : A → Type 0) (args : List Str) (segment : Str) (parse : Str → R A)
      (k : A → R (ParseState fl))
      → ((x : Str) → AllOk P (parse x))
      → ((a : A) → P a → AllOk (IsValidState fl) (k a))
      → AllOk (IsValidState fl) (require_one args segment >>= λ x. parse x >>= k)
  arm_one-IsValid P args segment parse k sound keep =
      >>=-AllOk_any (IsValidState fl) (require_one args segment) (λ x. parse x >>= k)
        (λ x. >>=-AllOk P (IsValidState fl) (parse x) k (sound x) keep)

  -- The same where the field is not constrained.
  arm_free-IsValid :
      {A : Type 0} (args : List Str) (segment : Str) (parse : Str → R A) (k : A → R (ParseState fl))
      → ((a : A) → AllOk (IsValidState fl) (k a))
      → AllOk (IsValidState fl) (require_one args segment >>= λ x. parse x >>= k)
  arm_free-IsValid args segment parse k keep =
      arm_one-IsValid (λ _. Unit) args segment parse k (λ x. AllOk-trivial (parse x))
        (λ a _. keep a)

  u64-bounds :
      (raw segment : Str)
      → AllOk (λ n. n < 2 ^ 64) (or_invalid (parse_u64 raw) segment (not_unsigned raw))
  u64-bounds raw segment = elim (Option-cases (parse_u64 raw)) [
    | inl e ↦ ground arith
    | inr (n, e) ↦ ground (arith, from_str_radix-lt 10 (2 ^ 64) raw n (omega arith) e)
  ]

  max_bytes-IsValid :
      (o : ProcessingOptions fl) (n : ℕ)
      → IsValid fl o
      → n < 2 ^ 64
      → IsValid fl (record o { max_bytes = unless_zero n })
  max_bytes-IsValid o n v h =
      let m : AllSome (λ k. (0 < k) × (k < 2 ^ 64)) (unless_zero n) = ground arith in assumption

  crop_gravity-bounds :
      (tokens : List Str) (segment : Str)
      → AllOk (AllSome (IsGravity fl)) (crop_gravity fl codecs tokens segment)
  crop_gravity-bounds [] segment = tt
  crop_gravity-bounds (t ∷ tokens) segment =
      ground (arith, parse_gravity-bounds fl (t ∷ tokens) segment)

  -- `arm` keeps the state valid.
  abbrev Keeps : (List Str → Str → ParseState fl → R (ParseState fl)) → Type 0
  Keeps arm =
      (args : List Str) (segment : Str) (st : ParseState fl)
      → IsValidState fl st
      → AllOk (IsValidState fl) (arm args segment st)

  arm_rs-IsValid : Keeps (arm_rs fl codecs)
  unfolding arm_rs
  arm_rs-IsValid args segment st (v, c) =
      >>=-AllOk_any (IsValidState fl) (require_three args segment) _ (λ a.
        >>=-AllOk_any (IsValidState fl) (parse_resize_type a.0 segment) _ (λ kind.
          >>=-AllOk (AllSome IsPositiveU32) (IsValidState fl) (parse_dimension a.1 segment) _
            (parse_dimension-bounds a.1 segment)
            (λ w hw.
              >>=-AllOk (AllSome IsPositiveU32) (IsValidState fl) (parse_dimension a.2 segment) _
                (parse_dimension-bounds a.2 segment) (λ h hh. (assumption, c)))))

  arm_q-IsValid : Keeps (arm_q fl codecs)
  unfolding arm_q
  arm_q-IsValid args segment st (v, c) =
      arm_one-IsValid (λ n. (0 ≤ n) × (n ≤ 100)) args segment _ _
        (λ x. parse_bounded-bounds x segment 0 100) (λ a h. (assumption, c))

  arm_fq-IsValid : Keeps (arm_fq fl codecs)
  unfolding arm_fq
  arm_fq-IsValid args segment st (v, c) =
      if-AllOk (IsValidState fl) (is_empty args || not (length args % 2 == 0)) _ _ tt (
        >>=-AllOk (IsValid fl) (IsValidState fl) (quality_pairs fl codecs args segment st.opts) _
          (quality_pairs-IsValid args segment st.opts v) (λ o h. (h, c)))

  arm_webpo-IsValid : Keeps (arm_webpo fl codecs)
  unfolding arm_webpo
  arm_webpo-IsValid args segment st (v, c) =
      arm_free-IsValid args segment (λ x. webp_mode x segment) _ (λ a. (assumption, c))

  arm_jpgo-IsValid : Keeps (arm_jpgo fl codecs)
  unfolding arm_jpgo
  arm_jpgo-IsValid args segment st (v, c) =
      if-AllOk (IsValidState fl) (is_empty args || ltb 2 (length args)) _ _ tt (
        >>=-AllOk_any (IsValidState fl)
          (keep_or 0 args st.opts.jpeg_progressive (some_bool segment)) _
          (λ p.
            >>=-AllOk_any (IsValidState fl)
              (keep_or 1 args st.opts.jpeg_no_subsampling (some_bool segment)) _
              (λ n. (assumption, c))))

  arm_mb-IsValid : Keeps (arm_mb fl codecs)
  unfolding arm_mb
  arm_mb-IsValid args segment st (v, c) =
      arm_one-IsValid (λ n. n < 2 ^ 64) args segment _ _ (λ x. u64-bounds x segment)
        (λ a h. (max_bytes-IsValid st.opts a v h, c))

  arm_bl-IsValid : Keeps (arm_bl fl codecs)
  unfolding arm_bl
  arm_bl-IsValid args segment st (v, c) =
      arm_free-IsValid args segment (λ x. parse_float fl x segment) _ (λ a. (assumption, c))

  arm_g-IsValid : Keeps (arm_g fl codecs)
  unfolding arm_g
  arm_g-IsValid args segment st (v, c) =
      arm_free-IsValid args segment (λ x. parse_bool x segment) _ (λ a. (assumption, c))

  arm_el-IsValid : Keeps (arm_el fl codecs)
  unfolding arm_el
  arm_el-IsValid args segment st (v, c) =
      arm_free-IsValid args segment (λ x. parse_bool x segment) _ (λ a. (assumption, c))

  arm_bg-IsValid : Keeps (arm_bg fl codecs)
  unfolding arm_bg
  arm_bg-IsValid args segment st (v, c) =
      >>=-AllOk (IsRgb) (IsValidState fl) (parse_background args segment) _
        (parse_background-IsRgb args segment) (λ a h. (assumption, c))

  arm_ar-IsValid : Keeps (arm_ar fl codecs)
  unfolding arm_ar
  arm_ar-IsValid args segment st (v, c) =
      arm_free-IsValid args segment (λ x. parse_bool x segment) _ (λ a. (assumption, c))

  arm_sm-IsValid : Keeps (arm_sm fl codecs)
  unfolding arm_sm
  arm_sm-IsValid args segment st (v, c) =
      arm_free-IsValid args segment (λ x. parse_bool x segment) _ (λ a. (assumption, c))

  arm_c-IsValid : Keeps (arm_c fl codecs)
  unfolding arm_c
  arm_c-IsValid (w ∷ h ∷ tokens) segment st (v, c) =
      >>=-AllOk (IsCropDimension fl) (IsValidState fl) (parse_crop_dimension fl w segment) _
        (parse_crop_dimension-bounds fl laws w segment)
        (λ w' hw.
          >>=-AllOk (IsCropDimension fl) (IsValidState fl) (parse_crop_dimension fl h segment) _
            (parse_crop_dimension-bounds fl laws h segment)
            (λ h' hh.
              >>=-AllOk (AllSome (IsGravity fl)) (IsValidState fl)
                (crop_gravity fl codecs tokens segment) _ (crop_gravity-bounds tokens segment)
                (λ g hg. (v, (hw, hh, hg)))))
  arm_c-IsValid [] segment st v = tt
  arm_c-IsValid (_ ∷ []) segment st v = tt

  arm_gr-IsValid : Keeps (arm_gr fl codecs)
  unfolding arm_gr
  arm_gr-IsValid [] segment st v = tt
  arm_gr-IsValid (t ∷ tokens) segment st (v, c) =
      >>=-AllOk (IsGravity fl) (IsValidState fl) (parse_gravity fl (t ∷ tokens) segment) _
        (parse_gravity-bounds fl (t ∷ tokens) segment) (λ a h. (assumption, c))

  arm_rot-IsValid : Keeps (arm_rot fl codecs)
  unfolding arm_rot
  arm_rot-IsValid args segment st (v, c) =
      arm_one-IsValid (IsQuarterTurn) args segment _ _ (λ x. parse_rotate_angle-bounds x segment)
        (λ a h. (assumption, c))

  arm_fl-IsValid : Keeps (arm_fl fl codecs)
  unfolding arm_fl
  arm_fl-IsValid args segment st (v, c) = if-AllOk (IsValidState fl) (ltb 2 (length args)) _ _ tt (
      >>=-AllOk_any (IsValidState fl)
        (keep_or 0 args st.opts.flip_horizontal (λ v. parse_bool v segment)) _
        (λ p.
          >>=-AllOk_any (IsValidState fl)
            (keep_or 1 args st.opts.flip_vertical (λ v. parse_bool v segment)) _
            (λ n. (assumption, c))))

  arm_t-IsValid : Keeps (arm_t fl codecs)
  unfolding arm_t
  arm_t-IsValid args segment st (v, c) =
      >>=-AllOk (IsTrim fl) (IsValidState fl) (parse_trim fl args segment) _
        (parse_trim-IsTrim fl args segment) (λ a h. (assumption, c))

  arm_ex-IsValid : Keeps (arm_ex fl codecs)
  unfolding arm_ex
  arm_ex-IsValid args segment st (v, c) =
      arm_free-IsValid args segment (λ x. parse_bool x segment) _ (λ a. (assumption, c))

  arm_pd-IsValid : Keeps (arm_pd fl codecs)
  unfolding arm_pd
  arm_pd-IsValid args segment st (v, c) =
      >>=-AllOk (IsPadding) (IsValidState fl) (parse_padding args segment) _
        (parse_padding-IsPadding args segment) (λ a h. (assumption, c))

  arm_z-IsValid : Keeps (arm_z fl codecs)
  unfolding arm_z
  arm_z-IsValid args segment st (v, c) =
      >>=-AllOk _ (IsValidState fl) (parse_zoom fl args segment) _
        (parse_zoom-bounds fl args segment) (λ a h. (assumption, c))

  arm_dpr-IsValid : Keeps (arm_dpr fl codecs)
  unfolding arm_dpr
  arm_dpr-IsValid args segment st (v, c) =
      arm_one-IsValid (λ a. fl.lt_f32 fl.zero_f32 a ≡ true) args segment _ _
        (λ x. parse_positive-bounds fl x segment) (λ a h. (assumption, c))

  arm_mw-IsValid : Keeps (arm_mw fl codecs)
  unfolding arm_mw
  arm_mw-IsValid args segment st (v, c) =
      arm_one-IsValid (AllSome IsPositiveU32) args segment _ _
        (λ x. parse_dimension-bounds x segment) (λ a h. (assumption, c))

  arm_mh-IsValid : Keeps (arm_mh fl codecs)
  unfolding arm_mh
  arm_mh-IsValid args segment st (v, c) =
      arm_one-IsValid (AllSome IsPositiveU32) args segment _ _
        (λ x. parse_dimension-bounds x segment) (λ a h. (assumption, c))

  arm_wm-IsValid : Keeps (arm_wm fl codecs)
  unfolding arm_wm
  arm_wm-IsValid [] segment st v = tt
  arm_wm-IsValid (opacity ∷ args) segment st (v, c) =
      if-AllOk (IsValidState fl) (ltb 4 (length args)) _ _ tt (
        >>=-AllOk_any (IsValidState fl) (parse_float fl opacity segment) _ (λ o.
          >>=-AllOk_any (IsValidState fl)
            (keep_or 0 args st.opts.watermark_position (λ v. parse_watermark_position v segment)) _
            (λ p.
              >>=-AllOk_any (IsValidState fl)
                (keep_or 1 args st.opts.watermark_x_offset (λ v. parse_float fl v segment)) _
                (λ x.
                  >>=-AllOk_any (IsValidState fl)
                    (keep_or 2 args st.opts.watermark_y_offset (λ v. parse_float fl v segment)) _
                    (λ y.
                      >>=-AllOk_any (IsValidState fl)
                        (keep_or 3 args st.opts.watermark_scale (λ v. parse_float fl v segment)) _
                        (λ s. (assumption, c)))))))

  arm_wmu-IsValid : Keeps (arm_wmu fl codecs)
  unfolding arm_wmu
  arm_wmu-IsValid args segment st (v, c) =
      >>=-AllOk_any (IsValidState fl) (require_one args segment) _ (λ e.
        >>=-AllOk_any (IsValidState fl)
          (or_invalid (codecs.base64_decode e) segment Reason.invalid_base64) _
          (λ d.
            >>=-AllOk_any (IsValidState fl) (or_invalid (from_utf8 d) segment Reason.invalid_utf8) _
              (λ u. (assumption, c))))

  arm_wms-IsValid : Keeps (arm_wms fl codecs)
  unfolding arm_wms
  arm_wms-IsValid args segment st (v, c) =
      >>=-AllOk_any (IsValidState fl) (require_two args segment) _ (λ a.
        >>=-AllOk (λ n. n < 2 ^ 32) (IsValidState fl) (parse_dimension_allow_zero a.0 segment) _
          (parse_dimension_allow_zero-bounds a.0 segment)
          (λ w hw.
            >>=-AllOk (λ n. n < 2 ^ 32) (IsValidState fl) (parse_dimension_allow_zero a.1 segment) _
              (parse_dimension_allow_zero-bounds a.1 segment) (λ h hh. (assumption, c))))

  arm_wmr-IsValid : Keeps (arm_wmr fl codecs)
  unfolding arm_wmr
  arm_wmr-IsValid args segment st (v, c) =
      arm_free-IsValid args segment (λ x. parse_float fl x segment) _ (λ a. (assumption, c))

  arm_wmsh-IsValid : Keeps (arm_wmsh fl codecs)
  unfolding arm_wmsh
  arm_wmsh-IsValid args segment st (v, c) =
      arm_free-IsValid args segment (λ x. parse_float fl x segment) _ (λ a. (assumption, c))

  apply_code-IsValid : (code : OptionCode) → Keeps (apply_code fl codecs code)
  unfolding apply_code
  apply_code-IsValid OptionCode.rs = arm_rs-IsValid
  apply_code-IsValid OptionCode.q = arm_q-IsValid
  apply_code-IsValid OptionCode.fq = arm_fq-IsValid
  apply_code-IsValid OptionCode.webpo = arm_webpo-IsValid
  apply_code-IsValid OptionCode.jpgo = arm_jpgo-IsValid
  apply_code-IsValid OptionCode.mb = arm_mb-IsValid
  apply_code-IsValid OptionCode.bl = arm_bl-IsValid
  apply_code-IsValid OptionCode.g = arm_g-IsValid
  apply_code-IsValid OptionCode.el = arm_el-IsValid
  apply_code-IsValid OptionCode.bg = arm_bg-IsValid
  apply_code-IsValid OptionCode.ar = arm_ar-IsValid
  apply_code-IsValid OptionCode.sm = arm_sm-IsValid
  apply_code-IsValid OptionCode.c = arm_c-IsValid
  apply_code-IsValid OptionCode.gr = arm_gr-IsValid
  apply_code-IsValid OptionCode.rot = arm_rot-IsValid
  apply_code-IsValid OptionCode.fl = arm_fl-IsValid
  apply_code-IsValid OptionCode.t = arm_t-IsValid
  apply_code-IsValid OptionCode.ex = arm_ex-IsValid
  apply_code-IsValid OptionCode.pd = arm_pd-IsValid
  apply_code-IsValid OptionCode.z = arm_z-IsValid
  apply_code-IsValid OptionCode.dpr = arm_dpr-IsValid
  apply_code-IsValid OptionCode.mw = arm_mw-IsValid
  apply_code-IsValid OptionCode.mh = arm_mh-IsValid
  apply_code-IsValid OptionCode.wm = arm_wm-IsValid
  apply_code-IsValid OptionCode.wmu = arm_wmu-IsValid
  apply_code-IsValid OptionCode.wms = arm_wms-IsValid
  apply_code-IsValid OptionCode.wmr = arm_wmr-IsValid
  apply_code-IsValid OptionCode.wmsh = arm_wmsh-IsValid

  apply_segment-IsValid :
      (segment : Str) (st : ParseState fl)
      → IsValidState fl st
      → AllOk (IsValidState fl) (apply_segment fl codecs segment st)
  unfolding apply_segment
  apply_segment-IsValid segment st v = elim (Option-cases (option_code (code_of segment))) [
    | inl e ↦ ground arith
    | inr (code, e) ↦ ground (arith, apply_code-IsValid code (args_of segment) segment st v)
  ]

  apply_all-IsValid :
      (segments : List Str) (st : ParseState fl)
      → IsValidState fl st
      → AllOk (IsValidState fl) (apply_all fl codecs segments st)
  unfolding apply_all
  apply_all-IsValid [] st v = v
  apply_all-IsValid (segment ∷ segments) st v =
      >>=-AllOk (IsValidState fl) (IsValidState fl) (apply_segment fl codecs segment st) _
        (apply_segment-IsValid segment st v) (λ st' v'. apply_all-IsValid segments st' v')

  initial-IsValid : IsValidState fl (initial_state fl)
  initial-IsValid = (
    record {
      width = tt;
      height = tt;
      min_width = tt;
      min_height = tt;
      quality = tt;
      jpeg_quality = tt;
      webp_quality = tt;
      max_bytes = tt;
      background = tt;
      gravity = tt;
      rotate = omega arith;
      trim = tt;
      padding = tt;
      zoom_x = laws.zero_lt_one_f32;
      zoom_y = laws.zero_lt_one_f32;
      dpr = laws.zero_lt_one_f32;
      watermark_size = tt;
    },
    tt,
  )

  resolve_crop-bounds :
      (st : ParseState fl)
      → IsValidState fl st
      → IsValid fl (resolve_crop fl codecs st)
        × AllSome (IsCrop fl) (resolve_crop fl codecs st).crop
  resolve_crop-bounds st (v, c) = (assumption, ground arith)

  -- Whatever list of option segments is accepted: sizes and minimal sizes are positive and fit 32
  -- bits, qualities are at most 100, a byte budget is positive and fits 64 bits, colours are bytes, the
  -- angle is a quarter turn below 360 degrees, paddings and the watermark's size fit 32 bits, zoom
  -- factors and the pixel ratio are positive, focus points lie in the unit square, crop dimensions are
  -- full, relative and below 1, or fit 32 bits, and a trim threshold is not below zero. A threshold may
  -- be NaN. Nothing is said of the blur and of the watermark's opacity, offsets, scale, rotation and
  -- shadow, which may be any float.
  pub parse_options-IsValid :
      (segments : List Str) (o : ProcessingOptions fl)
      → parse_options fl codecs segments ≡ ok o
      → IsValid fl o × AllSome (IsCrop fl) o.crop
  unfolding parse_options
  parse_options-IsValid segments o e =
      let (st, applied, same) = >>=-eq-ok (apply_all fl codecs segments (initial_state fl)) _ e in
      let v =
        AllOk_of_ok (IsValidState fl) _ st (apply_all-IsValid segments _ initial-IsValid) applied in
      ground (arith, resolve_crop-bounds st v)
