-- ===== src/Resize/Work.antt =====
-- `do_resize_work` and `resize` of src/services/resize/handler.rs for a request that meets no other
-- one, with `process_image` and `download_watermark_if_needed` of src/services/image/handler.rs, over
-- any storage backend. The clock stands still for the request, and the texts of the errors are left
-- out. The two downloads may meet different networks.
pub mod Answers
use image_resizer.Prelude.{
  Bool, List, Option, Result, err, false, guard, none, ok, ok_or, some, true, ℕ, ◌>>=◌, ◌>>◌,
}
use image_resizer.Prelude.Floats.{Floats}
use image_resizer.Text.{Str}
use image_resizer.Models.Query.{ResizeQuery, WatermarkQuery}
use image_resizer.Cache.{generate_key}
use image_resizer.SourceGuard.{IpNet}
use image_resizer.SourceGuard.Allowlist.{UrlCrate}
use image_resizer.Download.{DownloadConfig, DownloadError, Network, download_image}
use image_resizer.Image.Geometry.{ImageCrate}
use image_resizer.Image.Pipeline.{OutputConfig, PixelWork, ProcessError}
use image_resizer.Image.Pipeline.Stages.{process_image}
use image_resizer.Storage.Backend.{StorageBackend, StorageError}
use image_resizer.Storage.Service.{
  get_cdn_url, service_check_cache, service_get_image, service_upload_with_ttl,
}

pub data WorkError : Type 0 where
  download_failed watermark_download_failed : DownloadError → WorkError
  no_watermark_url no_processing_permit : WorkError
  process_failed : ProcessError → WorkError
  storage_failed : StorageError → WorkError

-- `map_err`, with the monad's argument order.
abbrev pub failing : {E A : Type 0} → (E → WorkError) → Result E A → Result WorkError A
failing f (ok a) = ok a
failing f (err e) = err (f e)

-- `Option::or`.
abbrev pub or_else : {A : Type 0} → Option A → Option A → Option A
or_else none other = other
or_else (some a) other = some a

module _ (fl : Floats) (im : ImageCrate) (work : PixelWork fl im) (net : IpNet)
    (crate : UrlCrate) where
  -- What a request finds: the configuration, the networks of its two downloads, and whether the
  -- semaphore has a permit.
  pub record ImageService : Type 0 where
    pub download : DownloadConfig
    pub output : OutputConfig
    pub watermark_url : Option Str
    pub source_network : Network net crate
    pub watermark_network : Network net crate
    pub has_permit : Bool

  abbrev pub download_source : ImageService → Str → Result WorkError Str
  download_source i url =
      failing download_failed (download_image net crate i.source_network i.download url).1

  abbrev pub watermark_from : ImageService → Option Str → Result WorkError (Option Str)
  watermark_from i address = do
    url ← ok_or address no_watermark_url
    bytes ←
        failing watermark_download_failed
          (download_image net crate i.watermark_network i.download url).1
    ok (some bytes)

  unfoldable pub download_watermark_if_needed :
      ImageService → Option (WatermarkQuery fl) → Result WorkError (Option Str)
  download_watermark_if_needed i none = ok none
  download_watermark_if_needed i (some watermark) =
      watermark_from i (or_else watermark.url i.watermark_url)

  unfoldable pub process_on_pool :
      ImageService → Str → ResizeQuery fl → Result WorkError (List ℕ × Str)
  unfolding download_watermark_if_needed process_image
  process_on_pool i image_bytes params = do
    watermark_bytes ← download_watermark_if_needed i params.watermark
    guard i.has_permit no_processing_permit
    failing process_failed (process_image fl im work image_bytes params i.output watermark_bytes)

  -- The bytes and the content type of a result.
  unfoldable pub produce : ImageService → ResizeQuery fl → Result WorkError (List ℕ × Str)
  unfolding process_on_pool
  produce i params = do
    image_bytes ← download_source i params.url
    process_on_pool i image_bytes params

  -- The services behind a request, with `cache_ttl`, the sub-path of the keys, and SHA-256.
  module _ (b : StorageBackend) (cdn_base_url key_prefix sub_path : Str) (cache_ttl : Option ℕ)
      (sha256_hex : List ℕ → Str) where
    open b use {State}

    abbrev pub key_of : ResizeQuery fl → Str
    key_of params = generate_key fl sha256_hex sub_path params

    -- The upload, which leaves the state if it fails.
    abbrev pub stored : Str → State → Result StorageError State → State × Result WorkError Str
    stored key s (ok next) = (next, ok (get_cdn_url cdn_base_url key))
    stored key s (err e) = (s, err (storage_failed e))

    abbrev pub upload_result :
        ℕ → Str → State → Result WorkError (List ℕ × Str) → State × Result WorkError Str
    upload_result now key s (err e) = (s, err e)
    upload_result now key s (ok (bytes, content_type)) =
        stored key s (service_upload_with_ttl b key_prefix now key content_type bytes cache_ttl s)

    unfoldable pub do_resize_work :
        ImageService → ℕ → Str → ResizeQuery fl → State → State × Result WorkError Str
    unfolding produce service_upload_with_ttl get_cdn_url
    do_resize_work i now key params s = upload_result now key s (produce i params)

    -- A failing check counts as a miss.
    unfoldable pub after_cache_check :
        ImageService
        → ℕ
        → ResizeQuery fl
        → State
        → Result StorageError Bool
        → State × Result WorkError Str
    unfolding do_resize_work
    after_cache_check i now params s (ok true) = (s, ok (get_cdn_url cdn_base_url (key_of params)))
    after_cache_check i now params s (ok false) = do_resize_work i now (key_of params) params s
    after_cache_check i now params s (err e) = do_resize_work i now (key_of params) params s

    unfoldable pub resize : ImageService → ℕ → ResizeQuery fl → State → State × Result WorkError Str
    unfolding after_cache_check service_check_cache
    resize i now params s =
        after_cache_check i now params s (service_check_cache b key_prefix now (key_of params) s)

-- `ResizeService::download`, of the file endpoint.
unfoldable pub download :
    (b : StorageBackend) → Str → ℕ → Str → StorageBackend.State b → Result StorageError (List ℕ)
unfolding service_get_image
download b key_prefix now key s = service_get_image b key_prefix now key s
