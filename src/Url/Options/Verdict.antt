-- ===== src/Url/Options/Verdict.antt =====
-- The success or the error of `ProcessingOptions::parse`, apart from the options that it returns.
use image_resizer.Prelude.{
  List, Option-cases, Result-cases, [], arith, err, inl, inr, ok, refl, some, ◌++◌, ◌>>=◌, ◌>>◌,
  ◌∷◌, ◌≡◌,
}
use image_resizer.Prelude.Floats.{Floats}
use image_resizer.Text.{Str}
use image_resizer.Url.{R}
use image_resizer.Url.Codecs.{Codecs}
use image_resizer.Url.Options.{ParseState, ProcessingOptions, initial_state}
use image_resizer.Url.Options.Arms.{OptionCode, apply_code, option_code, quality_pairs}
use image_resizer.Url.Options.Parse.{apply_all, apply_segment, args_of, code_of, parse_options}
use image_resizer.Url.Options.Values.{parse_bounded}

-- Success or the error, with the value forgotten.
abbrev pub verdict : {A : Type 0} → R A → R (Unit {0})
verdict (ok a) = ok tt
verdict (err e) = err e

module _ (fl : Floats) (codecs : Codecs) where
  quality_pairs-verdict :
      (args : List Str) (segment : Str) (o o' : ProcessingOptions fl)
      → verdict (quality_pairs fl codecs args segment o)
        ≡ verdict (quality_pairs fl codecs args segment o')
  unfolding quality_pairs
  quality_pairs-verdict [] segment o o' = refl
  quality_pairs-verdict (format ∷ []) segment o o' = refl
  quality_pairs-verdict (format ∷ value ∷ args) segment o o' =
      elim (Result-cases (parse_bounded value segment 0 100)) [
        | inl (n, e) ↦ ground (
          arith,
          quality_pairs-verdict args segment (record o { jpeg_quality = some n })
              (record o' { jpeg_quality = some n }),
          quality_pairs-verdict args segment (record o { webp_quality = some n })
              (record o' { webp_quality = some n }),
        )
        | inr (n, e) ↦ ground arith
      ]

  apply_code-verdict :
      (code : OptionCode) (args : List Str) (segment : Str) (st st' : ParseState fl)
      → verdict (apply_code fl codecs code args segment st)
        ≡ verdict (apply_code fl codecs code args segment st')
  unfolding apply_code
  apply_code-verdict OptionCode.fq args segment st st' =
      ground (arith, quality_pairs-verdict args segment st.opts st'.opts)
  apply_code-verdict OptionCode.rs args segment st st' = ground arith
  apply_code-verdict _ args segment st st' = ground arith

  apply_segment-verdict :
      (segment : Str) (st st' : ParseState fl)
      → verdict (apply_segment fl codecs segment st) ≡ verdict (apply_segment fl codecs segment st')
  unfolding apply_segment
  apply_segment-verdict segment st st' = elim (Option-cases (option_code (code_of segment))) [
    | inl e ↦ ground arith
    | inr (code, e) ↦ ground (arith, apply_code-verdict code (args_of segment) segment st st')
  ]

  apply_all-verdict :
      (segments : List Str) (st st' : ParseState fl)
      → verdict (apply_all fl codecs segments st) ≡ verdict (apply_all fl codecs segments st')
  unfolding apply_all
  apply_all-verdict [] st st' = refl
  apply_all-verdict (s ∷ segments) st st' = elim (Result-cases (apply_segment fl codecs s st)) [
    | inl (a, e) ↦ elim (Result-cases (apply_segment fl codecs s st')) [
      | inl (b, e') ↦ rw (e, e') (apply_all-verdict segments a b)
      | inr (b, e') ↦ cc (apply_segment-verdict s st st')
    ]
    | inr (a, e) ↦ elim (Result-cases (apply_segment fl codecs s st')) [
      | inl (b, e') ↦ cc (apply_segment-verdict s st st')
      | inr (b, e') ↦ ground (arith, apply_segment-verdict s st st')
    ]
  ]

  pub apply_all-append :
      (xs ys : List Str) (st : ParseState fl)
      → apply_all fl codecs (xs ++ ys) st ≡ (apply_all fl codecs xs st >>= apply_all fl codecs ys)
  unfolding apply_all
  apply_all-append [] ys st = refl
  apply_all-append (s ∷ xs) ys st = elim (Result-cases (apply_segment fl codecs s st)) [
    | inl (a, e) ↦ rw e (apply_all-append xs ys a)
    | inr (a, e) ↦ rw e
  ]

  parse_options-verdict_all :
      (segments : List Str) (st : ParseState fl)
      → verdict (parse_options fl codecs segments) ≡ verdict (apply_all fl codecs segments st)
  unfolding parse_options
  parse_options-verdict_all segments st =
      ground (arith, apply_all-verdict segments st (initial_state fl))

  -- A concatenation is accepted exactly when both parts are accepted on their own; otherwise its
  -- error is the first part's error if that part is refused, and else the second part's.
  pub parse_options-append :
      (xs ys : List Str)
      → verdict (parse_options fl codecs (xs ++ ys))
        ≡ (verdict (parse_options fl codecs xs) >> verdict (parse_options fl codecs ys))
  parse_options-append xs ys = elim (Result-cases (apply_all fl codecs xs (initial_state fl))) [
    | inl (a, e) ↦ ground (
      arith,
      apply_all-append xs ys (initial_state fl),
      parse_options-verdict_all (xs ++ ys) (initial_state fl),
      parse_options-verdict_all xs (initial_state fl),
      parse_options-verdict_all ys a,
    )
    | inr (a, e) ↦ ground (
      arith,
      apply_all-append xs ys (initial_state fl),
      parse_options-verdict_all (xs ++ ys) (initial_state fl),
      parse_options-verdict_all xs (initial_state fl),
    )
  ]
