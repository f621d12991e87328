-- ===== src/Url/Options/Parse.antt =====
-- `ProcessingOptions::parse` of src/modules/url/options.rs: the loop over the segments, and the crop's
-- gravity, which is settled after the loop.
use image_resizer.Prelude.{Bool, List, Option, [], err, none, ok, some, ◌>>=◌, ◌∷◌}
use image_resizer.Prelude.Floats.{Floats}
use image_resizer.Text.{Str}
use image_resizer.Text.Split.{contains, split_on}
use image_resizer.Url.{R, unknown_option}
use image_resizer.Url.Codecs.{Codecs}
use image_resizer.Url.Options.{ParseState, ProcessingOptions, initial_state}
use image_resizer.Models.Query.{Gravity}
use image_resizer.Url.Options.Arms.{apply_code, option_code}

-- `looks_like_option`.
unfoldable pub looks_like_option : Str → Bool
unfolding contains
looks_like_option segment = contains b':' segment

-- The code and the arguments of a segment.
unfoldable pub code_of : Str → Str
unfolding split_on
code_of segment = elim (split_on b':' segment) [ [] ↦ [] | code ∷ args ↦ code ]

unfoldable pub args_of : Str → List Str
unfolding split_on
args_of segment = elim (split_on b':' segment) [ [] ↦ [] | code ∷ args ↦ args ]

module _ (fl : Floats) (codecs : Codecs) where
  -- One round of the loop.
  unfoldable pub apply_segment : Str → ParseState fl → R (ParseState fl)
  apply_segment segment st = elim (option_code (code_of segment)) [
    | none ↦ err (unknown_option (code_of segment))
    | some code ↦ apply_code fl codecs code (args_of segment) segment st
  ]

  unfoldable pub apply_all : List Str → ParseState fl → R (ParseState fl)
  apply_all [] st = ok st
  apply_all (segment ∷ segments) st = do st' ← apply_segment segment st; apply_all segments st'

  abbrev own_or : Option (Gravity fl) → Gravity fl → Gravity fl
  own_or none g = g
  own_or (some own) g = own

  -- After the loop: a crop without a gravity of its own takes the option's.
  abbrev pub resolve_crop : ParseState fl → ProcessingOptions fl
  resolve_crop st = record (st.opts) {
    crop = elim st.crop_raw [
      | none ↦ none
      | some (w, h, own) ↦
          some (record { width = w; height = h; gravity = own_or own st.opts.gravity })
    ];
  }

  unfoldable pub parse_options : List Str → R (ProcessingOptions fl)
  unfolding apply_all
  parse_options segments = do st ← apply_all segments (initial_state fl); ok (resolve_crop st)
