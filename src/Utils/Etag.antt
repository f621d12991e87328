-- ===== src/Utils/Etag.antt =====
-- src/modules/utils/etag.rs: the match of an `If-None-Match` header against one strong entity tag.
use image_resizer.Prelude.{Bool, any, unwrap_or, ◌||◌}
use image_resizer.Text.{Str, codes, eqb, strip_prefix}
use image_resizer.Text.Trim.{trim}
use image_resizer.Text.Split.{split_on}

unfoldable pub strip_weak_prefix : Str → Str
unfolding strip_prefix
strip_weak_prefix value = unwrap_or (strip_prefix (codes "W/") value) value

unfoldable pub if_none_match_satisfied : Str → Str → Bool
unfolding strip_weak_prefix split_on eqb
if_none_match_satisfied if_none_match etag =
    any
      (λ piece.
        let candidate = trim piece in
        eqb candidate (codes "*") || eqb (strip_weak_prefix candidate) etag)
      (split_on b',' if_none_match)
