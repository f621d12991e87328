-- ===== src/Storage/KeyValidation/Laws.antt =====
-- The form of a storage key, against the check of key_validation.rs.
use image_resizer.Prelude.{
  Option-cases, [], all, any, ap, arith, false, inl, inr, length, ok, refl, some, true, ℕ, ◌++◌,
  ◌↔◌, ◌∙◌, ◌∷◌, ◌≡◌,
}
use image_resizer.Text.{Str, mem, strip_prefix}
use image_resizer.Text.Split.{Lacks, contains, split_once, split_once-some, split_once_lem}
use image_resizer.Storage.KeyValidation.{
  allowed_extensions, hash_len, is_control, is_lower_hex, validate_cache_key,
}

pub strip_prefix_append : (p s : Str) → strip_prefix p (p ++ s) ≡ some s
unfolding strip_prefix
strip_prefix_append [] s = refl
strip_prefix_append (c ∷ p) s = ground (arith, strip_prefix_append p s)

pub strip_prefix-some : (p s rest : Str) → strip_prefix p s ≡ some rest → s ≡ p ++ rest
unfolding strip_prefix
strip_prefix-some [] s rest e = cc
strip_prefix-some (c ∷ p) [] rest e = cc
strip_prefix-some (c ∷ p) (d ∷ s) rest e = ground (arith, strip_prefix-some p s rest)

-- The form of a key that can be stored under a prefix.
pub record IsKey (prefix key hash ext : Str) : Type 0 where
  pub whole : key ≡ prefix ++ (hash ++ (b'.' ∷ ext))
  pub printable : any is_control key ≡ false
  pub hash_length : length hash ≡ hash_len
  pub hash_hex : all is_lower_hex hash ≡ true
  pub extension : mem ext allowed_extensions ≡ true

pub lower_hex-Lacks :
    (b : ℕ) (s : Str) → is_lower_hex b ≡ false → all is_lower_hex s ≡ true → Lacks b s
unfolding contains
lower_hex-Lacks b [] h a = refl
lower_hex-Lacks b (c ∷ s) h a = ground (arith, lower_hex-Lacks b s h)

IsKey→validate :
    (prefix key hash ext : Str) → IsKey prefix key hash ext → validate_cache_key key prefix ≡ ok tt
unfolding validate_cache_key
IsKey→validate prefix key hash ext k =
    let stripped : strip_prefix prefix key ≡ some (hash ++ (b'.' ∷ ext)) =
      ap (strip_prefix prefix) k.whole ∙ strip_prefix_append prefix _ in
    let split = split_once_lem b'.' hash ext (lower_hex-Lacks b'.' hash refl k.hash_hex) in
    ground arith

validate→IsKey :
    (prefix key : Str)
    → validate_cache_key key prefix ≡ ok tt
    → (hash : Str) × (ext : Str) × IsKey prefix key hash ext
unfolding validate_cache_key
validate→IsKey prefix key e = elim (Option-cases (strip_prefix prefix key)) [
  | inl s ↦ ground arith
  | inr (rest, s) ↦ elim (Option-cases (split_once b'.' rest)) [
    | inl t ↦ ground arith
    | inr ((hash, ext), t) ↦ (
      hash,
      ext,
      record {
        whole =
            strip_prefix-some prefix key rest s
            ∙ ap (◌++◌ prefix) (split_once-some b'.' rest hash ext t).0;
        printable = ground arith;
        hash_length = ground arith;
        hash_hex = ground arith;
        extension = ground arith;
      },
    )
  ]
]

-- A key passes the check exactly when it is the prefix, 64 lower-case hexadecimal digits, a dot and
-- one of the allowed extensions, with no control byte.
pub validate_iff :
    (prefix key : Str)
    → (validate_cache_key key prefix ≡ ok tt)
      ↔ ((hash : Str) × (ext : Str) × IsKey prefix key hash ext)
validate_iff prefix key = (validate→IsKey prefix key, λ k. IsKey→validate prefix key k.0 k.1 k.2)
