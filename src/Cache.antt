-- ===== src/Cache.antt =====
-- src/services/cache/handler.rs: the key under which a result is stored, a hash over every field of
-- the query that changes the output. SHA-256, in lower-case hexadecimal, is a parameter.
pub mod Fields
pub mod Framing
pub mod Codes
pub mod Injective
use image_resizer.Prelude.{List, [], length, ℕ, ◌%◌, ◌++◌, ◌/◌, ◌^◌, ◌∷◌}
use image_resizer.Prelude.Floats.{Floats}
use image_resizer.Text.{Str}
use image_resizer.Models.Query.{ResizeQuery}
use image_resizer.Cache.Fields.{key_fields}
use image_resizer.Models.Formats.{show_format}

abbrev pub cache_key_version : ℕ
cache_key_version = 11

-- `(len as u32).to_be_bytes()`.
unfoldable pub be32 : ℕ → List ℕ
be32 n = n / 2 ^ 24 % 256 ∷ n / 2 ^ 16 % 256 ∷ n / 2 ^ 8 % 256 ∷ n % 256 ∷ []

-- `update_field`: the length in four bytes, then the bytes. The hasher is what it was fed so far.
unfoldable pub update_field : List ℕ → Str → List ℕ
unfolding be32
update_field hasher bytes = hasher ++ (be32 (length bytes % 2 ^ 32) ++ bytes)

unfoldable pub update_fields : List ℕ → List Str → List ℕ
unfolding update_field
update_fields hasher [] = hasher
update_fields hasher (f ∷ fs) = update_fields (update_field hasher f) fs

module _ (fl : Floats) where
  -- What the hash is fed for a query.
  unfoldable pub hash_input : ResizeQuery fl → List ℕ
  unfolding update_fields key_fields
  hash_input p = update_fields (cache_key_version ∷ []) (key_fields fl p)

  -- `generate_key`, for the configured sub-path.
  unfoldable pub generate_key : (List ℕ → Str) → Str → ResizeQuery fl → Str
  generate_key sha256_hex sub_path p =
      sub_path ++ (sha256_hex (hash_input p) ++ (b'.' ∷ show_format p.format))
