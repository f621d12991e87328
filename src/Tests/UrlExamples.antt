-- ===== src/Tests/UrlExamples.antt =====
-- Examples for src/modules/url and src/models.
use image_resizer.Prelude.{All, AllSome, List, [], ok, refl, some, true, ◌++◌, ◌>>◌, ◌∷◌, ◌≡◌}
use image_resizer.Models.Query.{Crop, Gravity, absolute}
use image_resizer.Url.Options.Validity.{IsCrop, IsValid}
use image_resizer.Url.Request.Expand.{parse_with_config-allowed}
use image_resizer.Url.Presets.Laws.{IsRegistry, parse_registry-IsRegistry}
use image_resizer.Url.Request.{
  ParsedRequest, SignedRequest, expand_segments, parse_with_config, source_index,
}
use image_resizer.Url.Presets.{
  PresetRegistry, default_preset, empty_registry, get, is_allowed, parse_registry,
}
use image_resizer.Url.Options.{ProcessingOptions, default_options}
use image_resizer.Text.{Str, codes, eqb, mem}
use image_resizer.Url.Options.Parse.{
  apply_segment, args_of, code_of, looks_like_option, parse_options,
}
use image_resizer.Text.Utf8.{from_utf8}
use image_resizer.Url.Options.Arms.{apply_code, option_code}
use image_resizer.Models.Formats.{
  jpg, north, parse_format, parse_resize_name, png, show_format, webp,
}
use image_resizer.Url.Options.Bounds.{parse_options-IsValid}
use image_resizer.Url.Options.Verdict.{parse_options-append, verdict}
use image_resizer.Url.Source.{parse_source}
use image_resizer.Url.Source.RoundTrip.{parse_source_base64, parse_source_plain}
use image_resizer.Tests.Samples.{plain_codecs, whole_numbers, whole_numbers_laws}
use image_resizer.Text.Split.{join, rsplit_once, split_on, split_once}
use image_resizer.Text.Numbers.{from_str_radix}
use image_resizer.Url.Options.Values.{
  parse_bounded, parse_crop_dimension, parse_dimension, parse_gravity, parse_resize_type,
}

abbrev whole_options : List Str
whole_options = codes "rs:fit:100:50" ∷ codes "q:80" ∷ []

abbrev whole_result : ProcessingOptions whole_numbers
whole_result = record (default_options whole_numbers) {
  width = some 100;
  height = some 50;
  quality = some 80;
}

parse_options-IsValid_example :
    IsValid whole_numbers whole_result × AllSome (IsCrop whole_numbers) whole_result.crop
unfolding parse_options image_resizer.Url.Options.Parse.apply_segment option_code code_of
    image_resizer.Url.Options.Arms.apply_code args_of
    image_resizer.Url.Options.Values.parse_resize_type
    image_resizer.Models.Formats.parse_resize_name image_resizer.Url.Options.Values.parse_dimension
    image_resizer.Text.Numbers.from_str_radix image_resizer.Url.Options.Values.parse_bounded
parse_options-IsValid_example =
    parse_options-IsValid whole_numbers plain_codecs whole_numbers_laws whole_options whole_result
      refl

parse_options-append_example :
    verdict (parse_options whole_numbers plain_codecs (whole_options ++ codes "q:101" ∷ [])) ≡ (
      verdict (parse_options whole_numbers plain_codecs whole_options)
      >> verdict (parse_options whole_numbers plain_codecs (codes "q:101" ∷ [])))
parse_options-append_example =
    parse_options-append whole_numbers plain_codecs whole_options (codes "q:101" ∷ [])

abbrev bare_crop : Crop whole_numbers
bare_crop = record { width = absolute 10; height = absolute 20; gravity = Gravity.north }

abbrev cropped : ProcessingOptions whole_numbers
cropped = record (default_options whole_numbers) { crop = some bare_crop; gravity = Gravity.north }

abbrev split_example : SignedRequest
split_example = record {
  signature_segment = codes "sig";
  signed_path = codes "/q:80/plain/a.jpg";
  remainder_segments = codes "q:80" ∷ codes "plain" ∷ codes "a.jpg" ∷ [];
}

abbrev presets_example : PresetRegistry
presets_example = (codes "thumb", codes "rs:fit:100" ∷ codes "q:80" ∷ []) ∷ []

parse_registry-IsRegistry_example : IsRegistry presets_example
unfolding parse_registry split_on image_resizer.Text.Trim.trim image_resizer.Text.Split.split_once
    image_resizer.Text.eqb code_of
parse_registry-IsRegistry_example =
    parse_registry-IsRegistry (codes " thumb=rs:fit:100/q:80,") presets_example refl

abbrev request_example : ParsedRequest whole_numbers plain_codecs
request_example = record {
  options = record (default_options whole_numbers) { quality = some 80 };
  source = record { url = codes "a"; format = jpg };
}

parse_with_config-allowed_example :
    All (λ s. is_allowed (code_of s) (some (codes "q" ∷ [])) ≡ true) (codes "q:80" ∷ [])
unfolding parse_with_config source_index expand_segments image_resizer.Text.eqb looks_like_option
    is_allowed image_resizer.Text.mem code_of parse_options image_resizer.Url.Presets.default_preset
    get image_resizer.Url.Options.Parse.apply_segment option_code
    image_resizer.Url.Options.Arms.apply_code args_of image_resizer.Url.Options.Values.parse_bounded
    image_resizer.Text.Numbers.from_str_radix parse_source image_resizer.Text.Split.rsplit_once
    parse_format image_resizer.Text.Split.join
parse_with_config-allowed_example =
    parse_with_config-allowed whole_numbers plain_codecs empty_registry (some (codes "q" ∷ []))
      split_example request_example refl

parse_source_plain_example :
    parse_source plain_codecs
      (codes "plain" ∷ split_on b'/' (codes "http://h/a" ++ (b'.' ∷ show_format webp)))
    ≡ ok (record { url = codes "http://h/a"; format = webp })
parse_source_plain_example =
    parse_source_plain plain_codecs (codes "http://h/a") (codes "http://h/a") webp refl (λ e. cc)

parse_source_base64_example :
    parse_source plain_codecs ((codes "abc" ++ (b'.' ∷ show_format png)) ∷ [])
    ≡ ok (record { url = codes "abc"; format = png })
unfolding from_utf8
parse_source_base64_example =
    parse_source_base64 plain_codecs (codes "abc") (codes "abc") (codes "abc") png refl refl
      (λ e. cc)
