-- ===== src/Storage/KeyValidation/Generated.antt =====
-- The keys of the cache service against the storage check.
use image_resizer.Prelude.{
  Bool, List, [], all, any, ap, append_assoc, arith, drop-length-append, false, length,
  length-append, ltb, ok, refl, some, take-length-append, true, ℕ, ◌++◌, ◌-◌, ◌||◌, ◌↔◌, ◌∙◌, ◌∷◌,
  ◌≡◌, ◌≢◌,
}
use image_resizer.Prelude.Floats.{Floats}
use image_resizer.Text.{Str, eqb, mem}
use image_resizer.Text.Split.{Lacks, contains, rsplit_once, rsplit_once_lem, split_once_lem}
use image_resizer.Models.Formats.{ImageFormat, avif, gif, jpg, png, show_format, webp}
use image_resizer.Models.Query.{ResizeQuery}
use image_resizer.Cache.{generate_key, hash_input}
use image_resizer.Storage.KeyValidation.{
  allowed_extensions, hash_len, is_control, is_lower_hex, split_key, validate_cache_key,
}
use image_resizer.Storage.KeyValidation.Laws.{
  IsKey, lower_hex-Lacks, strip_prefix_append, validate_iff,
}

-- What `{:x}` of a SHA-256 digest looks like.
abbrev pub IsHexDigest : (List ℕ → Str) → Type 0
IsHexDigest sha256_hex =
    (input : List ℕ)
    → (length (sha256_hex input) ≡ hash_len) × (all is_lower_hex (sha256_hex input) ≡ true)

any-append : (p : ℕ → Bool) (xs ys : Str) → any p (xs ++ ys) ≡ (any p xs || any p ys)
any-append p [] ys = refl
any-append p (x ∷ xs) ys = ground (arith, any-append p xs ys)

lower_hex_printable : (s : Str) → all is_lower_hex s ≡ true → any is_control s ≡ false
lower_hex_printable [] h = refl
lower_hex_printable (c ∷ s) h = ground (arith, lower_hex_printable s)

-- The allowed extensions are those of the stored formats.
extension_allowed :
    (f : ImageFormat) → f ≢ ImageFormat.auto → mem (show_format f) allowed_extensions ≡ true
unfolding mem eqb show_format
extension_allowed jpg h = refl
extension_allowed png h = refl
extension_allowed webp h = refl
extension_allowed avif h = refl
extension_allowed gif h = refl
extension_allowed ImageFormat.auto h = absurd (h refl)

auto_refused : mem (show_format ImageFormat.auto) allowed_extensions ≡ false
unfolding mem eqb show_format
auto_refused = refl

extension_printable : (f : ImageFormat) → any is_control (b'.' ∷ show_format f) ≡ false
unfolding show_format
extension_printable jpg = refl
extension_printable _ = refl

pub extension-Lacks : (f : ImageFormat) → Lacks b'.' (show_format f)
unfolding show_format contains
extension-Lacks jpg = refl
extension-Lacks _ = refl

module _ (fl : Floats) (sha256_hex : List ℕ → Str) (digest : IsHexDigest sha256_hex) where
  generated-IsKey :
      (sub_path : Str) (p : ResizeQuery fl)
      → any is_control sub_path ≡ false
      → p.format ≢ ImageFormat.auto
      → IsKey sub_path
          (generate_key fl sha256_hex sub_path p)
          (sha256_hex (hash_input fl p))
          (show_format p.format)
  unfolding generate_key
  generated-IsKey sub_path p clean stored =
      let hash = sha256_hex (hash_input fl p) in
      let tail = b'.' ∷ show_format p.format in
      record {
        whole = refl;
        printable = ground (
          arith,
          any-append is_control sub_path (hash ++ tail),
          any-append is_control hash tail,
          lower_hex_printable hash (digest (hash_input fl p)).1,
          extension_printable p.format,
        );
        hash_length = (digest (hash_input fl p)).0;
        hash_hex = (digest (hash_input fl p)).1;
        extension = extension_allowed p.format stored;
      }

  -- Taking a generated key apart gives the configured sub-path, the digest and the format's name.
  pub split_key-generate_key :
      (sub_path : Str) (p : ResizeQuery fl)
      → split_key (generate_key fl sha256_hex sub_path p)
        ≡ some (sub_path, sha256_hex (hash_input fl p), show_format p.format)
  unfolding split_key generate_key
  split_key-generate_key sub_path p =
      let hash = sha256_hex (hash_input fl p) in
      let size = (digest (hash_input fl p)).0 in
      let start : length (sub_path ++ hash) - hash_len ≡ length sub_path =
        omega (arith, length-append sub_path hash) in
      let long : ltb (length (sub_path ++ hash)) hash_len ≡ false =
        ground (arith, length-append sub_path hash) in
      let cut : rsplit_once b'.' (sub_path ++ (hash ++ (b'.' ∷ show_format p.format)))
          ≡ some (sub_path ++ hash, show_format p.format) =
        rw (← append_assoc sub_path hash (b'.' ∷ show_format p.format)) (
          rsplit_once_lem b'.' (sub_path ++ hash) (show_format p.format)
            (extension-Lacks p.format)) in
      simp (cut, long, start, take-length-append, drop-length-append)

  generated_auto :
      (sub_path : Str) (p : ResizeQuery fl)
      → p.format ≡ ImageFormat.auto
      → validate_cache_key (generate_key fl sha256_hex sub_path p) sub_path ≢ ok tt
  unfolding validate_cache_key generate_key
  generated_auto sub_path p is_auto valid =
      let hash = sha256_hex (hash_input fl p) in
      let hex = lower_hex-Lacks b'.' hash refl (digest (hash_input fl p)).1 in
      let refused : mem (show_format p.format) allowed_extensions ≡ false =
        ap (λ f. mem (show_format f) allowed_extensions) is_auto ∙ auto_refused in
      ground (
        arith,
        strip_prefix_append sub_path (hash ++ (b'.' ∷ show_format p.format)),
        split_once_lem b'.' hash (show_format p.format) hex,
      )

  -- A generated key under a printable sub-path is accepted by every backend exactly when its format
  -- is not `auto`, so the format has to be resolved before the key is made.
  pub validate-generate_key :
      (sub_path : Str) (p : ResizeQuery fl)
      → any is_control sub_path ≡ false
      → (validate_cache_key (generate_key fl sha256_hex sub_path p) sub_path ≡ ok tt)
        ↔ (p.format ≢ ImageFormat.auto)
  validate-generate_key sub_path p clean = (
    λ valid is_auto. generated_auto sub_path p is_auto valid,
    λ stored. (validate_iff _ _).1 (_, _, generated-IsKey sub_path p clean stored),
  )
