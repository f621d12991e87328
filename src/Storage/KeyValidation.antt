-- ===== src/Storage/KeyValidation.antt =====
-- src/services/storage/key_validation.rs: the check that every storage key passes before it reaches a
-- backend, and the split of a key into its parts.
pub mod Laws
pub mod Generated
use image_resizer.Prelude.{
  Bool, List, Option, Result, [], all, any, bind?, drop, guard, if◌then◌else◌, leb, length, ltb,
  none, not, ok, ok_or, some, take, ℕ, ◌&&◌, ◌-◌, ◌==◌, ◌>>=◌, ◌>>◌, ◌||◌, ◌∷◌,
}
use image_resizer.Text.{Str, codes, mem, strip_prefix}
use image_resizer.Text.Split.{rsplit_once, split_once}

abbrev pub hash_len : ℕ
hash_len = 64

abbrev pub allowed_extensions : List Str
allowed_extensions = codes "jpg" ∷ codes "png" ∷ codes "webp" ∷ codes "avif" ∷ codes "gif" ∷ []

abbrev pub is_lower_hex : ℕ → Bool
is_lower_hex b = leb b'0' b && leb b b'9' || leb b'a' b && leb b b'f'

abbrev pub is_control : ℕ → Bool
is_control b = ltb b 0x20 || b == 0x7f

-- The error holds the key.
abbrev pub Checked : Type 0 → Type 0
Checked A = Result Str A

unfoldable pub validate_cache_key : Str → Str → Checked (Unit {0})
validate_cache_key key prefix = do
  guard (not (any is_control key)) key
  rest ← ok_or (strip_prefix prefix key) key
  (hash, ext) ← ok_or (split_once b'.' rest) key
  guard (length hash == hash_len && all is_lower_hex hash) key
  guard (mem ext allowed_extensions) key
  ok tt

-- `split_key`: prefix, hash and extension, with no check of their content.
unfoldable pub split_key : Str → Option (Str × Str × Str)
split_key key = bind? (rsplit_once b'.' key) (λ (before, ext).
    if ltb (length before) hash_len
    then none
    else some (take (length before - hash_len) before, drop (length before - hash_len) before, ext))
