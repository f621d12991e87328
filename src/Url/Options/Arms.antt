-- ===== src/Url/Options/Arms.antt =====
-- The arms of `match code` in `ProcessingOptions::parse`, one function for each option code. An arm
-- takes the arguments, the whole segment and the loop's variables.
use image_resizer.Prelude.{
  Bool, List, Option, [], false, if◌then◌else◌, length, ltb, none, not, ok, some, true, ℕ, ◌%◌,
  ◌==◌, ◌>>=◌, ◌||◌, ◌∷◌,
}
use image_resizer.Prelude.Floats.{Floats}
use image_resizer.Text.{Str, codes, eqb, is_empty}
use image_resizer.Url.{
  R, Reason, expected_at_least, expected_at_most, expected_between, expected_pairs,
  not_quality_format, not_unsigned, not_webp_mode, png_quality,
}
use image_resizer.Url.Codecs.{Codecs}
use image_resizer.Url.Options.{ParseState, ProcessingOptions}
use image_resizer.Url.Options.Values.{
  invalid, or_invalid, parse_background, parse_bool, parse_bounded, parse_crop_dimension,
  parse_dimension, parse_dimension_allow_zero, parse_float, parse_gravity, parse_padding,
  parse_positive_nonzero_float, parse_resize_type, parse_rotate_angle, parse_trim,
  parse_watermark_position, parse_zoom, require_one, require_three, require_two, slot, unless_zero,
}
use image_resizer.Models.Query.{Gravity}
use image_resizer.Text.Utf8.{from_utf8}
use image_resizer.Text.Numbers.{parse_u64}

-- The option codes that `match code` names.
pub data OptionCode : Type 0 where
  rs q fq webpo jpgo mb bl g el bg ar sm c gr rot fl t ex pd z dpr mw mh wm wmu wms wmr wmsh :
      OptionCode

-- The patterns of `match code`.
unfoldable pub option_code : Str → Option OptionCode
unfolding eqb
option_code s =
    if eqb s (codes "rs")
    then some rs
    else if eqb s (codes "q")
    then some q
    else if eqb s (codes "fq")
    then some fq
    else if eqb s (codes "webpo")
    then some webpo
    else if eqb s (codes "jpgo")
    then some jpgo
    else if eqb s (codes "mb")
    then some mb
    else if eqb s (codes "bl")
    then some bl
    else if eqb s (codes "g")
    then some g
    else if eqb s (codes "el")
    then some el
    else if eqb s (codes "bg")
    then some bg
    else if eqb s (codes "ar")
    then some ar
    else if eqb s (codes "sm")
    then some sm
    else if eqb s (codes "c")
    then some c
    else if eqb s (codes "gr")
    then some gr
    else if eqb s (codes "rot")
    then some rot
    else if eqb s (codes "fl")
    then some fl
    else if eqb s (codes "t")
    then some t
    else if eqb s (codes "ex")
    then some ex
    else if eqb s (codes "pd")
    then some pd
    else if eqb s (codes "z")
    then some z
    else if eqb s (codes "dpr")
    then some dpr
    else if eqb s (codes "mw")
    then some mw
    else if eqb s (codes "mh")
    then some mh
    else if eqb s (codes "wm")
    then some wm
    else if eqb s (codes "wmu")
    then some wmu
    else if eqb s (codes "wms")
    then some wms
    else if eqb s (codes "wmr")
    then some wmr
    else if eqb s (codes "wmsh")
    then some wmsh
    else none

-- The compression mode of `webpo`.
abbrev pub webp_mode : Str → Str → R Bool
webp_mode mode segment =
    if eqb mode (codes "lossy")
    then ok false
    else if eqb mode (codes "lossless")
    then ok true
    else invalid segment (not_webp_mode mode)

-- A slot that leaves the field as it is when it is absent or empty.
abbrev pub keep_or : {A : Type 0} → ℕ → List Str → A → (Str → R A) → R A
keep_or i args old parse = elim (slot i args) [ none ↦ ok old | some v ↦ parse v ]

abbrev pub some_bool : Str → Str → R (Option Bool)
some_bool segment v = do b ← parse_bool v segment; ok (some b)

module _ (flo : Floats) (codecs : Codecs) where
  open flo use {F32}
  open codecs use {base64_decode}

  -- An assignment to fields of `opts`.
  abbrev Opts : Type 0
  Opts = ProcessingOptions flo

  abbrev State : Type 0
  State = ParseState flo

  abbrev with_opts : State → Opts → State
  with_opts st o = record st { opts = o }

  unfoldable pub arm_rs : List Str → Str → State → R State
  arm_rs args segment st = do
    (kind, width, height) ← require_three args segment
    resize_type ← parse_resize_type kind segment
    w ← parse_dimension width segment
    h ← parse_dimension height segment
    ok (with_opts st (record (st.opts) { resize_type = resize_type; width = w; height = h }))

  unfoldable pub arm_q : List Str → Str → State → R State
  arm_q args segment st = do
    value ← require_one args segment
    x ← parse_bounded value segment 0 100
    ok (with_opts st (record (st.opts) { quality = some x }))

  -- The loop over `args.chunks(2)`; the count is even.
  unfoldable pub quality_pairs : List Str → Str → Opts → R Opts
  quality_pairs [] segment o = ok o
  quality_pairs (format ∷ []) segment o = invalid segment expected_pairs
  quality_pairs (format ∷ value ∷ args) segment o = do
    quality ← parse_bounded value segment 0 100
    if eqb format (codes "jpg") || eqb format (codes "jpeg")
        then quality_pairs args segment (record o { jpeg_quality = some quality })
        else if eqb format (codes "webp")
        then quality_pairs args segment (record o { webp_quality = some quality })
        else if eqb format (codes "png")
        then invalid segment png_quality
        else invalid segment (not_quality_format format)

  unfoldable pub arm_fq : List Str → Str → State → R State
  unfolding quality_pairs
  arm_fq args segment st =
      if is_empty args || not (length args % 2 == 0)
      then invalid segment expected_pairs
      else do o ← quality_pairs args segment st.opts; ok (with_opts st o)

  unfoldable pub arm_webpo : List Str → Str → State → R State
  arm_webpo args segment st = do
    compression ← require_one args segment
    lossless ← webp_mode compression segment
    ok (with_opts st (record (st.opts) { webp_lossless = some lossless }))

  unfoldable pub arm_jpgo : List Str → Str → State → R State
  arm_jpgo args segment st =
      if is_empty args || ltb 2 (length args) then invalid segment (expected_between 1 2) else do
        progressive ← keep_or 0 args st.opts.jpeg_progressive (some_bool segment)
        no_subsample ← keep_or 1 args st.opts.jpeg_no_subsampling (some_bool segment)
        ok (
            with_opts st (record (st.opts) {
              jpeg_progressive = progressive;
              jpeg_no_subsampling = no_subsample;
            }))

  unfoldable pub arm_mb : List Str → Str → State → R State
  arm_mb args segment st = do
    value ← require_one args segment
    bytes ← or_invalid (parse_u64 value) segment (not_unsigned value)
    ok (with_opts st (record (st.opts) { max_bytes = unless_zero bytes }))

  unfoldable pub arm_bl : List Str → Str → State → R State
  arm_bl args segment st = do
    value ← require_one args segment
    x ← parse_float flo value segment
    ok (with_opts st (record (st.opts) { blur_sigma = some x }))

  unfoldable pub arm_g : List Str → Str → State → R State
  arm_g args segment st = do
    value ← require_one args segment
    x ← parse_bool value segment
    ok (with_opts st (record (st.opts) { grayscale = some x }))

  unfoldable pub arm_el : List Str → Str → State → R State
  arm_el args segment st = do
    value ← require_one args segment
    x ← parse_bool value segment
    ok (with_opts st (record (st.opts) { enlarge = some x }))

  unfoldable pub arm_bg : List Str → Str → State → R State
  arm_bg args segment st = do
    color ← parse_background args segment
    ok (with_opts st (record (st.opts) { background = some color }))

  unfoldable pub arm_ar : List Str → Str → State → R State
  arm_ar args segment st = do
    value ← require_one args segment
    x ← parse_bool value segment
    ok (with_opts st (record (st.opts) { autorotate = some x }))

  unfoldable pub arm_sm : List Str → Str → State → R State
  arm_sm args segment st = do
    value ← require_one args segment
    x ← parse_bool value segment
    ok (with_opts st (record (st.opts) { strip_metadata = some x }))

  -- The crop's own gravity, if it has one.
  abbrev pub crop_gravity : List Str → Str → R (Option (Gravity flo))
  crop_gravity [] segment = ok none
  crop_gravity (token ∷ tokens) segment = do
    gravity ← parse_gravity flo (token ∷ tokens) segment
    ok (some gravity)

  unfoldable pub arm_c : List Str → Str → State → R State
  arm_c (w ∷ h ∷ tokens) segment st = do
    width ← parse_crop_dimension flo w segment
    height ← parse_crop_dimension flo h segment
    gravity ← crop_gravity tokens segment
    ok (record st { crop_raw = some (width, height, gravity) })
  arm_c _ segment st = invalid segment (expected_at_least 2)

  unfoldable pub arm_gr : List Str → Str → State → R State
  arm_gr [] segment st = invalid segment (expected_at_least 1)
  arm_gr (token ∷ tokens) segment st = do
    gravity ← parse_gravity flo (token ∷ tokens) segment
    ok (with_opts st (record (st.opts) { gravity = gravity }))

  unfoldable pub arm_rot : List Str → Str → State → R State
  arm_rot args segment st = do
    value ← require_one args segment
    x ← parse_rotate_angle value segment
    ok (with_opts st (record (st.opts) { rotate = x }))

  unfoldable pub arm_fl : List Str → Str → State → R State
  arm_fl args segment st = if ltb 2 (length args) then invalid segment (expected_at_most 2) else do
    h ← keep_or 0 args st.opts.flip_horizontal (λ v. parse_bool v segment)
    v ← keep_or 1 args st.opts.flip_vertical (λ v. parse_bool v segment)
    ok (with_opts st (record (st.opts) { flip_horizontal = h; flip_vertical = v }))

  unfoldable pub arm_t : List Str → Str → State → R State
  arm_t args segment st = do
    trim ← parse_trim flo args segment
    ok (with_opts st (record (st.opts) { trim = some trim }))

  unfoldable pub arm_ex : List Str → Str → State → R State
  arm_ex args segment st = do
    value ← require_one args segment
    x ← parse_bool value segment
    ok (with_opts st (record (st.opts) { extend = some x }))

  unfoldable pub arm_pd : List Str → Str → State → R State
  arm_pd args segment st = do
    padding ← parse_padding args segment
    ok (with_opts st (record (st.opts) { padding = some padding }))

  unfoldable pub arm_z : List Str → Str → State → R State
  arm_z args segment st = do
    (x, y) ← parse_zoom flo args segment
    ok (with_opts st (record (st.opts) { zoom_x = x; zoom_y = y }))

  unfoldable pub arm_dpr : List Str → Str → State → R State
  arm_dpr args segment st = do
    value ← require_one args segment
    x ← parse_positive_nonzero_float flo value segment
    ok (with_opts st (record (st.opts) { dpr = x }))

  unfoldable pub arm_mw : List Str → Str → State → R State
  arm_mw args segment st = do
    value ← require_one args segment
    x ← parse_dimension value segment
    ok (with_opts st (record (st.opts) { min_width = x }))

  unfoldable pub arm_mh : List Str → Str → State → R State
  arm_mh args segment st = do
    value ← require_one args segment
    x ← parse_dimension value segment
    ok (with_opts st (record (st.opts) { min_height = x }))

  -- `parse_watermark`.
  unfoldable pub arm_wm : List Str → Str → State → R State
  arm_wm [] segment st = invalid segment (expected_between 1 5)
  arm_wm (opacity ∷ args) segment st =
      if ltb 4 (length args) then invalid segment (expected_between 1 5) else do
        o ← parse_float flo opacity segment
        position ←
            keep_or 0 args st.opts.watermark_position (λ v. parse_watermark_position v segment)
        x ← keep_or 1 args st.opts.watermark_x_offset (λ v. parse_float flo v segment)
        y ← keep_or 2 args st.opts.watermark_y_offset (λ v. parse_float flo v segment)
        scale ← keep_or 3 args st.opts.watermark_scale (λ v. parse_float flo v segment)
        ok (
            with_opts st (record (st.opts) {
              watermark_opacity = some o;
              watermark_position = position;
              watermark_x_offset = x;
              watermark_y_offset = y;
              watermark_scale = scale;
            }))

  unfoldable pub arm_wmu : List Str → Str → State → R State
  arm_wmu args segment st = do
    encoded ← require_one args segment
    decoded ← or_invalid (base64_decode encoded) segment Reason.invalid_base64
    url ← or_invalid (from_utf8 decoded) segment Reason.invalid_utf8
    ok (with_opts st (record (st.opts) { watermark_url = some url }))

  unfoldable pub arm_wms : List Str → Str → State → R State
  arm_wms args segment st = do
    (w, h) ← require_two args segment
    width ← parse_dimension_allow_zero w segment
    height ← parse_dimension_allow_zero h segment
    ok (with_opts st (record (st.opts) { watermark_size = some (width, height) }))

  unfoldable pub arm_wmr : List Str → Str → State → R State
  arm_wmr args segment st = do
    value ← require_one args segment
    x ← parse_float flo value segment
    ok (with_opts st (record (st.opts) { watermark_rotate = x }))

  unfoldable pub arm_wmsh : List Str → Str → State → R State
  arm_wmsh args segment st = do
    value ← require_one args segment
    x ← parse_float flo value segment
    ok (with_opts st (record (st.opts) { watermark_shadow = some x }))

  -- The `match` on the code.
  unfoldable pub apply_code : OptionCode → List Str → Str → State → R State
  unfolding arm_rs arm_q arm_fq arm_webpo arm_jpgo arm_mb arm_bl arm_g arm_el arm_bg arm_ar arm_sm
      arm_c arm_gr arm_rot arm_fl arm_t arm_ex arm_pd arm_z arm_dpr arm_mw arm_mh arm_wm arm_wmu
      arm_wms arm_wmr arm_wmsh
  apply_code OptionCode.rs args segment st = arm_rs args segment st
  apply_code OptionCode.q args segment st = arm_q args segment st
  apply_code OptionCode.fq args segment st = arm_fq args segment st
  apply_code OptionCode.webpo args segment st = arm_webpo args segment st
  apply_code OptionCode.jpgo args segment st = arm_jpgo args segment st
  apply_code OptionCode.mb args segment st = arm_mb args segment st
  apply_code OptionCode.bl args segment st = arm_bl args segment st
  apply_code OptionCode.g args segment st = arm_g args segment st
  apply_code OptionCode.el args segment st = arm_el args segment st
  apply_code OptionCode.bg args segment st = arm_bg args segment st
  apply_code OptionCode.ar args segment st = arm_ar args segment st
  apply_code OptionCode.sm args segment st = arm_sm args segment st
  apply_code OptionCode.c args segment st = arm_c args segment st
  apply_code OptionCode.gr args segment st = arm_gr args segment st
  apply_code OptionCode.rot args segment st = arm_rot args segment st
  apply_code OptionCode.fl args segment st = arm_fl args segment st
  apply_code OptionCode.t args segment st = arm_t args segment st
  apply_code OptionCode.ex args segment st = arm_ex args segment st
  apply_code OptionCode.pd args segment st = arm_pd args segment st
  apply_code OptionCode.z args segment st = arm_z args segment st
  apply_code OptionCode.dpr args segment st = arm_dpr args segment st
  apply_code OptionCode.mw args segment st = arm_mw args segment st
  apply_code OptionCode.mh args segment st = arm_mh args segment st
  apply_code OptionCode.wm args segment st = arm_wm args segment st
  apply_code OptionCode.wmu args segment st = arm_wmu args segment st
  apply_code OptionCode.wms args segment st = arm_wms args segment st
  apply_code OptionCode.wmr args segment st = arm_wmr args segment st
  apply_code OptionCode.wmsh args segment st = arm_wmsh args segment st
