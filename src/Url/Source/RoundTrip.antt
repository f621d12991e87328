-- ===== src/Url/Source/RoundTrip.antt =====
-- Sources as a client writes them, against `parse_source` of source.rs.
use image_resizer.Prelude.{
  Bool-cases, List, [], arith, false, inl, inr, ok, refl, some, subst, true, ℕ, ◌++◌, ◌∷◌, ◌≡◌, ◌≢◌,
}
use image_resizer.Text.{Str, codes, eqb, eqb_iff, mem}
use image_resizer.Text.Split.{
  Lacks, contains, join, join-split_on, rsplit_once_lem, split_on, split_on-ne-nil,
}
use image_resizer.Url.Source.{known_extensions, parse_plain_source, parse_source, split_extension}
use image_resizer.Models.Formats.{ImageFormat, jpg, parse_format-show_format, show_format}
use image_resizer.Url.Codecs.{Codecs}
use image_resizer.Text.Utf8.{from_utf8}

show_format-Lacks : (f : ImageFormat) → Lacks b'.' (show_format f)
unfolding show_format contains
show_format-Lacks jpg = refl
show_format-Lacks _ = refl

show_format-known : (f : ImageFormat) → mem (show_format f) known_extensions ≡ true
unfolding show_format mem eqb
show_format-known jpg = refl
show_format-known _ = refl

split_extension_lem :
    (base : Str) (f : ImageFormat) → split_extension (base ++ (b'.' ∷ show_format f)) ≡ ok (base, f)
unfolding split_extension
split_extension_lem base f = ground (
  arith,
  rsplit_once_lem b'.' base (show_format f) (show_format-Lacks f),
  show_format-known f,
  parse_format-show_format f,
)

contains_dotted : (base ext : Str) → contains b'.' (base ++ (b'.' ∷ ext)) ≡ true
unfolding contains
contains_dotted [] ext = refl
contains_dotted (c ∷ base) ext = ground (arith, contains_dotted base ext)

plain-ne-dotted : (base ext : Str) → eqb (base ++ (b'.' ∷ ext)) (codes "plain") ≡ false
plain-ne-dotted base ext = elim (Bool-cases (eqb (base ++ (b'.' ∷ ext)) (codes "plain"))) [
  | inl same ↦
      let dotted : contains b'.' (codes "plain") ≡ true =
        subst (λ s. contains b'.' s ≡ true) ((eqb_iff _ _).0 same) (contains_dotted base ext) in
      unfold contains in cc dotted
  | inr other ↦ other
]

parse_plain_source_joined :
    (codecs : Codecs) (segments : List Str) (raw url : Str) (f : ImageFormat)
    → segments ≢ []
    → join b'/' segments ≡ raw ++ (b'.' ∷ show_format f)
    → codecs.url_decode raw ≡ some url
    → url ≢ []
    → parse_plain_source codecs segments ≡ ok (record { url = url; format = f })
unfolding parse_plain_source
parse_plain_source_joined codecs [] raw url f some_there joined decoded present =
    absurd (some_there refl)
parse_plain_source_joined codecs (s ∷ rest) raw url f some_there joined decoded present =
    ground (arith, split_extension_lem raw f)

-- A plain source, however many path segments it has, is read back with its format.
pub parse_source_plain :
    (codecs : Codecs) (raw url : Str) (f : ImageFormat)
    → codecs.url_decode raw ≡ some url
    → url ≢ []
    → parse_source codecs (codes "plain" ∷ split_on b'/' (raw ++ (b'.' ∷ show_format f)))
      ≡ ok (record { url = url; format = f })
unfolding parse_source eqb
parse_source_plain codecs raw url f decoded present =
    let dotted = raw ++ (b'.' ∷ show_format f) in
    parse_plain_source_joined codecs (split_on b'/' dotted) raw url f (split_on-ne-nil b'/' dotted)
      (join-split_on b'/' dotted) decoded present

-- A base64 source is read back with its format.
pub parse_source_base64 :
    (codecs : Codecs) (encoded : Str) (bytes url : List ℕ) (f : ImageFormat)
    → codecs.base64_decode encoded ≡ some bytes
    → from_utf8 bytes ≡ some url
    → url ≢ []
    → parse_source codecs ((encoded ++ (b'.' ∷ show_format f)) ∷ [])
      ≡ ok (record { url = url; format = f })
unfolding parse_source
parse_source_base64 codecs encoded bytes url f decoded text present =
    ground (arith, plain-ne-dotted encoded (show_format f), split_extension_lem encoded f)
