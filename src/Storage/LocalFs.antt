-- ===== src/Storage/LocalFs.antt =====
-- The paths of src/services/storage/local_fs_handler.rs, and the expiry of its sidecar files. A
-- `PathBuf` of the standard library is the list of its components.
pub mod Safety
use image_resizer.Prelude.{
  Bool, List, Option, [], all, false, if◌then◌else◌, leb, length, min, none, not, some, take, true,
  ℕ, ◌&&◌, ◌++◌, ◌==◌, ◌||◌, ◌∷◌,
}
use image_resizer.Text.{Str, codes, eqb, is_empty}
use image_resizer.Text.Trim.{trim}
use image_resizer.Text.Numbers.{from_str_radix, parse_u64}
use image_resizer.Storage.KeyValidation.{split_key}
use image_resizer.Text.Split.{split_on}

pub record PathBuf : Type 0 where
  pub absolute : Bool
  pub components : List Str

abbrev pub empty_path : PathBuf
empty_path = record { absolute = false; components = [] }

-- The pieces between slashes; an empty piece is no component.
abbrev pub nonempty : List Str → List Str
nonempty [] = []
nonempty (p ∷ ps) = if is_empty p then nonempty ps else p ∷ nonempty ps

abbrev pub is_absolute : Str → Bool
is_absolute [] = false
is_absolute (c ∷ s) = c == b'/'

-- `PathBuf::push`: an absolute path takes the place of what was there.
unfoldable pub push : PathBuf → Str → PathBuf
push path s =
    if is_absolute s
    then record { absolute = true; components = nonempty (split_on b'/' s) }
    else record {
      absolute = path.absolute;
      components = path.components ++ nonempty (split_on b'/' s);
    }

-- "", "." and "..".
abbrev pub is_skipped : Str → Bool
is_skipped s = is_empty s || eqb s (codes ".") || eqb s (codes "..")

unfoldable pub push_segments : PathBuf → List Str → PathBuf
unfolding push
push_segments out [] = out
push_segments out (s ∷ ss) = push_segments (if is_skipped s then out else push out s) ss

unfoldable pub sanitize_relative : Str → PathBuf
unfolding push_segments
sanitize_relative input = push_segments empty_path (split_on b'/' input)

abbrev pub shard_prefix_len : ℕ
shard_prefix_len = 2

-- `is_ascii_hexdigit`.
abbrev pub is_hex_digit : ℕ → Bool
is_hex_digit b = leb b'0' b && leb b b'9' || leb b'a' b && leb b b'f' || leb b'A' b && leb b b'F'

-- `<prefix>/<first two digits>/<hash>.<ext>`.
unfoldable pub sharded_path : Str → Str → Str → PathBuf
unfolding sanitize_relative push
sharded_path prefix hash ext =
    let shard_len = min (length hash) shard_prefix_len in
    push (push (sanitize_relative prefix) (take shard_len hash)) (hash ++ (b'.' ∷ ext))

-- The match on the parts of the key.
unfoldable pub path_of_parts : Str → Option (Str × Str × Str) → PathBuf
unfolding sharded_path sanitize_relative
path_of_parts key none = sanitize_relative key
path_of_parts key (some (prefix, hash, ext)) =
    if not (is_empty hash) && all is_hex_digit hash
    then sharded_path prefix hash ext
    else sanitize_relative key

unfoldable pub relative_path : Str → PathBuf
unfolding split_key path_of_parts
relative_path key = path_of_parts key (split_key key)

-- `base_path.join(..)`.
unfoldable pub resolve_key : PathBuf → Str → PathBuf
unfolding relative_path
resolve_key base key =
    let path = relative_path key in
    if path.absolute
    then path
    else record { absolute = base.absolute; components = base.components ++ path.components }

-- `is_expired`, for the content of the sidecar file, `none` where it cannot be read.
unfoldable pub is_expired : Option Str → ℕ → Bool
unfolding image_resizer.Text.Numbers.from_str_radix
is_expired none now = false
is_expired (some contents) now = elim (parse_u64 (trim contents)) [
  | none ↦ false
  | some expires_at ↦ leb expires_at now
]
