-- ===== src/Negotiation.antt =====
-- src/modules/negotiation.rs: the format of an `.auto` request from its `Accept` header.
pub mod Weights
pub mod Laws
use image_resizer.Text.Trim.{trim}
use image_resizer.Prelude.{
  Bool, List, Option, [], bind?, false, if◌then◌else◌, map, none, some, true, ◌&&◌, ◌||◌, ◌∷◌,
}
use image_resizer.Prelude.Floats.{Floats}
use image_resizer.Text.{Str, codes, eqb, is_empty, lower_byte, strip_prefix}
use image_resizer.Models.Formats.{ImageFormat, auto, avif, jpg, webp}
use image_resizer.Text.Split.{split_on}

module _ (fl : Floats) where
  open fl use {F32, parse_f32, one_f32, zero_f32, lt_f32, le_f32, max_f32}

  pub record AcceptEntry : Type 0 where
    pub media_type : Str
    pub q : F32

  -- A parameter of the form `q=<number>`.
  abbrev q_param : Str → Option F32
  q_param param = bind? (strip_prefix (codes "q=") (trim param)) (λ v. parse_f32 (trim v))

  -- The first that parses, or 1.0.
  unfoldable pub first_q : List Str → F32
  first_q [] = one_f32
  first_q (p ∷ ps) = elim (q_param p) [ none ↦ first_q ps | some q ↦ q ]

  abbrev parse_pieces : List Str → Option AcceptEntry
  parse_pieces [] = none
  parse_pieces (first ∷ parts) =
      let media_type = map lower_byte (trim first) in
      if is_empty media_type
      then none
      else some (record { media_type = media_type; q = first_q parts })

  -- `filter_map` over the ranges.
  abbrev parse_entries : List Str → List AcceptEntry
  parse_entries [] = []
  parse_entries (s ∷ ss) = elim (parse_pieces (split_on b';' s)) [
    | none ↦ parse_entries ss
    | some e ↦ e ∷ parse_entries ss
  ]

  unfoldable pub parse_accept : Str → List AcceptEntry
  parse_accept accept = parse_entries (split_on b',' accept)

  unfoldable pub accepts : Str → AcceptEntry → Bool
  accepts media_type e =
      eqb e.media_type media_type
      || eqb e.media_type (codes "image/*")
      || eqb e.media_type (codes "*/*")

  abbrev pub larger : Option F32 → F32 → F32
  larger none q = q
  larger (some a) q = max_f32 a q

  -- `fold(None, ..)` over the entries that accept the type.
  unfoldable pub best_from : Option F32 → List AcceptEntry → Str → Option F32
  unfolding accepts
  best_from acc [] media_type = acc
  best_from acc (e ∷ es) media_type =
      best_from (if accepts media_type e then some (larger acc e.q) else acc) es media_type

  unfoldable pub best_q : List AcceptEntry → Str → Option F32
  unfolding best_from
  best_q = best_from none

  abbrev pub or_zero : Option F32 → F32
  or_zero none = zero_f32
  or_zero (some q) = q

  abbrev pub entries_of : Option Str → List AcceptEntry
  entries_of none = []
  entries_of (some accept) = parse_accept accept

  -- The choice for `.auto`.
  unfoldable pub negotiated_format : List AcceptEntry → ImageFormat
  unfolding best_q
  negotiated_format entries =
      let avif_q = or_zero (best_q entries (codes "image/avif")) in
      let webp_q = or_zero (best_q entries (codes "image/webp")) in
      if lt_f32 zero_f32 avif_q && le_f32 webp_q avif_q
      then avif
      else if lt_f32 zero_f32 webp_q
      then webp
      else jpg

  unfoldable pub resolve : ImageFormat → Option Str → ImageFormat × Bool
  unfolding negotiated_format
  resolve ImageFormat.auto accept = (negotiated_format (entries_of accept), true)
  resolve format accept = (format, false)
