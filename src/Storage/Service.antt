-- ===== src/Storage/Service.antt =====
-- `StorageService` of src/services/storage/handler.rs: every operation checks its key before it calls
-- the backend.
use image_resizer.Prelude.{
  Bool, List, Option, Result, [], err, if◌then◌else◌, ok, ℕ, ◌&&◌, ◌++◌, ◌==◌, ◌∷◌,
}
use image_resizer.Text.{Str, is_empty}
use image_resizer.Storage.Backend.{StorageBackend, StorageError, invalid_key, upload_image}
use image_resizer.Storage.KeyValidation.{Checked, validate_cache_key}

-- A check that fails ends the operation.
abbrev pub after_check :
    {A : Type 0} → Checked (Unit {0}) → Result StorageError A → Result StorageError A
after_check (ok _) rest = rest
after_check (err key) rest = err (invalid_key key)

module _ (b : StorageBackend) (key_prefix : Str) where
  open b use {State, upload_image_with_ttl, check_cache, get_image, delete}

  -- An operation that changes the state gives the new state.
  unfoldable pub service_upload_with_ttl :
      ℕ → Str → Str → List ℕ → Option ℕ → State → Result StorageError State
  service_upload_with_ttl now key content_type content ttl s =
      after_check (validate_cache_key key key_prefix)
        (ok (upload_image_with_ttl now key content_type content ttl s))

  unfoldable pub service_upload : ℕ → Str → Str → List ℕ → State → Result StorageError State
  service_upload now key content_type content s =
      after_check (validate_cache_key key key_prefix)
        (ok (upload_image b now key content_type content s))

  unfoldable pub service_delete : Str → State → Result StorageError State
  service_delete key s = after_check (validate_cache_key key key_prefix) (ok (delete key s))

  unfoldable pub service_check_cache : ℕ → Str → State → Result StorageError Bool
  service_check_cache now key s =
      after_check (validate_cache_key key key_prefix) (ok (check_cache now key s))

  unfoldable pub service_get_image : ℕ → Str → State → Result StorageError (List ℕ)
  service_get_image now key s =
      after_check (validate_cache_key key key_prefix) (get_image now key s)

-- `trim_end_matches('/')`.
unfoldable pub trim_end_slashes : Str → Str
trim_end_slashes [] = []
trim_end_slashes (c ∷ s) =
    let rest = trim_end_slashes s in if c == b'/' && is_empty rest then [] else c ∷ rest

unfoldable pub get_cdn_url : Str → Str → Str
unfolding trim_end_slashes
get_cdn_url cdn_base_url key = trim_end_slashes cdn_base_url ++ (b'/' ∷ key)
