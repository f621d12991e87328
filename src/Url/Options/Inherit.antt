-- ===== src/Url/Options/Inherit.antt =====
-- The late resolution of the crop's gravity in `ProcessingOptions::parse`.
use image_resizer.Prelude.{
  >>=-eq-ok, All, AllOk, AllOk_of_ok, List, Option, Option-cases, Result-cases, [], ap, arith, inl,
  inr, none, ok, refl, some, subst, sym, ◌++◌, ◌∙◌, ◌∷◌, ◌≡◌, ◌≢◌,
}
use image_resizer.Prelude.Floats.{Floats}
use image_resizer.Text.{Str}
use image_resizer.Url.{R}
use image_resizer.Url.Codecs.{Codecs}
use image_resizer.Url.Options.{ParseState, ProcessingOptions, initial_state}
use image_resizer.Url.Options.Arms.{OptionCode, apply_code, option_code}
use image_resizer.Models.Query.{Crop, CropDimension, Gravity}
use image_resizer.Url.Options.Parse.{
  apply_all, apply_segment, args_of, code_of, parse_options, resolve_crop,
}
use image_resizer.Url.Options.Verdict.{apply_all-append}

-- A segment with another code than `c`.
abbrev pub IsNotCrop : Str → Type 0
IsNotCrop segment = option_code (code_of segment) ≢ some OptionCode.c

module _ (fl : Floats) (codecs : Codecs) where
  abbrev KeepsCrop : ParseState fl → R (ParseState fl) → Type 0
  KeepsCrop st m = AllOk (λ st'. st'.crop_raw ≡ st.crop_raw) m

  apply_code-crop_raw :
      (code : OptionCode) (args : List Str) (segment : Str) (st : ParseState fl)
      → code ≢ OptionCode.c
      → KeepsCrop st (apply_code fl codecs code args segment st)
  unfolding apply_code
  apply_code-crop_raw OptionCode.c args segment st h = absurd (h refl)
  apply_code-crop_raw _ args segment st h = ground arith

  apply_segment-crop_raw :
      (segment : Str) (st : ParseState fl)
      → IsNotCrop segment
      → KeepsCrop st (apply_segment fl codecs segment st)
  unfolding apply_segment
  apply_segment-crop_raw segment st h = elim (Option-cases (option_code (code_of segment))) [
    | inl e ↦ ground arith
    | inr (code, e) ↦
        let other : code ≢ OptionCode.c = λ same. h (e ∙ ap some same) in
        ground (arith, apply_code-crop_raw code (args_of segment) segment st other)
  ]

  apply_all-crop_raw :
      (segments : List Str) (st : ParseState fl)
      → All IsNotCrop segments
      → KeepsCrop st (apply_all fl codecs segments st)
  unfolding apply_all
  apply_all-crop_raw [] st h = refl
  apply_all-crop_raw (s ∷ segments) st (h, hs) =
      elim (Result-cases (apply_segment fl codecs s st)) [
        | inl (a, e) ↦
            ground (arith, apply_segment-crop_raw s st h, apply_all-crop_raw segments a hs)
        | inr (a, e) ↦ ground arith
      ]

  -- A crop was given without a gravity of its own.
  abbrev IsBareCrop : Option (CropDimension fl × CropDimension fl × Option (Gravity fl)) → Type 0
  IsBareCrop (some (w, h, none)) = Unit
  IsBareCrop _ = ⊥

  apply_segment-IsBareCrop :
      (segment w h : Str) (st : ParseState fl)
      → option_code (code_of segment) ≡ some OptionCode.c
      → args_of segment ≡ w ∷ h ∷ []
      → AllOk (λ st'. IsBareCrop st'.crop_raw) (apply_segment fl codecs segment st)
  unfolding apply_segment apply_code
  apply_segment-IsBareCrop segment w h st code args = ground arith

  resolve_crop_bare :
      (st : ParseState fl)
      (raw : Option (CropDimension fl × CropDimension fl × Option (Gravity fl)))
      → st.crop_raw ≡ raw
      → IsBareCrop raw
      → (c : Crop fl) × ((resolve_crop fl codecs st).crop ≡ some c)
        × (c.gravity ≡ (resolve_crop fl codecs st).gravity)
  resolve_crop_bare st none e h = absurd h
  resolve_crop_bare st (some (w, h, some own)) e b = absurd b
  resolve_crop_bare st (some (w, h, none)) e b =
      (record { width = w; height = h; gravity = st.opts.gravity }, ground arith, refl)

  -- A crop segment that names no gravity, with no later crop segment: the accepted options hold a
  -- crop, and its gravity is the gravity option's, whether that option stands before or behind it.
  pub parse_options_crop_inherits :
      (xs ys : List Str) (segment w h : Str) (o : ProcessingOptions fl)
      → option_code (code_of segment) ≡ some OptionCode.c
      → args_of segment ≡ w ∷ h ∷ []
      → All IsNotCrop ys
      → parse_options fl codecs (xs ++ segment ∷ ys) ≡ ok o
      → (c : Crop fl) × (o.crop ≡ some c) × (c.gravity ≡ o.gravity)
  unfolding parse_options apply_all
  parse_options_crop_inherits xs ys segment w h o code args later e =
      let start = initial_state fl in
      let (last, applied, same) = >>=-eq-ok (apply_all fl codecs (xs ++ segment ∷ ys) start) _ e in
      let split = sym (apply_all-append fl codecs xs (segment ∷ ys) start) ∙ applied in
      let (before, _, rest) = >>=-eq-ok (apply_all fl codecs xs start) _ split in
      let (after, at_crop, behind) = >>=-eq-ok (apply_segment fl codecs segment before) _ rest in
      let bare =
        AllOk_of_ok _ _ after (apply_segment-IsBareCrop segment w h before code args) at_crop in
      let kept = AllOk_of_ok _ _ last (apply_all-crop_raw ys after later) behind in
      let final = resolve_crop_bare last last.crop_raw refl (subst IsBareCrop (sym kept) bare) in
      ground arith
