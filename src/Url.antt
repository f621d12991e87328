-- ===== src/Url.antt =====
-- src/modules/url: the signed-path grammar. Errors of src/modules/url/mod.rs; an error message is one
-- constructor of `Reason` with the values that it prints.
pub mod Codecs
pub mod Options
pub mod Presets
pub mod Source
pub mod Request
use image_resizer.Prelude.{Result, ℕ}
use image_resizer.Text.{Str}
use image_resizer.Text.Signed.{ℤ}

pub data Reason : Type 0 where
  expected_exactly expected_at_least expected_at_most : ℕ → Reason
  expected_between : ℕ → ℕ → Reason
  expected_pairs expected_color_args png_quality : Reason
  not_unsigned not_integer not_number not_boolean not_hex_color : Str → Reason
  not_resize_type not_webp_mode not_quality_format not_position not_gravity : Str → Reason
  not_bounded : Str → ℕ → ℕ → Reason
  out_of_range : ℕ → ℕ → ℕ → Reason
  not_quarter_turn : ℤ → Reason
  not_finite_non_negative not_positive negative_threshold threshold_required top_required : Reason
  focus_out_of_range gravity_missing invalid_base64 invalid_utf8 : Reason

pub data SourceReason : Type 0 where
  invalid_percent_encoding invalid_base64 invalid_utf8 not_single_segment : SourceReason
  missing_extension unrecognized_extension : Str → SourceReason

pub data UrlParseError : Type 0 where
  malformed : Str → UrlParseError
  unknown_option : Str → UrlParseError
  invalid_option_value : Str → Reason → UrlParseError
  empty_source : UrlParseError
  invalid_source : SourceReason → UrlParseError
  option_not_allowed : Str → UrlParseError
  unknown_preset : Str → UrlParseError

abbrev pub R : Type 0 → Type 0
R A = Result UrlParseError A
