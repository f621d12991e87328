-- ===== src/Url/Codecs.antt =====
-- The decoders of the packages base64 (`URL_SAFE_NO_PAD`) and urlencoding, as a parameter.
use image_resizer.Prelude.{List, Option, ℕ}
use image_resizer.Text.{Str}

pub record Codecs : Type 0 where
  pub base64_decode : Str → Option (List ℕ)
  pub url_decode : Str → Option Str
