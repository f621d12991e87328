-- ===== src/Tests/StorageExamples.antt =====
-- Examples for the storage backends.
use image_resizer.Prelude.{
  List, Option, [], is_some, none, ok, ok_or, refl, some, ℕ, ◌++◌, ◌+◌, ◌∷◌, ◌≡◌,
}
use image_resizer.Text.{Str, codes, eqb, mem, strip_prefix}
use image_resizer.Storage.Backend.Refinement.{Call, live, newest, run_calls, service-newest, upload}
use image_resizer.Tests.Samples.{constant_digest}
use image_resizer.Storage.Service.{service_check_cache, service_get_image}
use image_resizer.Storage.LocalFs.{relative_path}
use image_resizer.Storage.LocalFs.Safety.{IsBelow, relative_path-IsBelow}
use image_resizer.Storage.Backend.{image_not_found, in_memory}
use image_resizer.Storage.KeyValidation.{validate_cache_key}
use image_resizer.Text.Split.{split_once}

abbrev sample_key : Str
sample_key = codes "v/" ++ (constant_digest [] ++ codes ".webp")

abbrev pub add_times : ℕ → ℕ → Option ℕ
add_times a b = some (a + b)

-- Two uploads of the key and one under a key that is refused.
abbrev calls : List Call
calls =
    upload 20 (codes "../x") (codes "image/webp") (9 ∷ []) none
    ∷ upload 10 sample_key (codes "image/webp") (1 ∷ 2 ∷ []) (some 60)
    ∷ upload 5 sample_key (codes "image/webp") (3 ∷ []) none
    ∷ []

sample_valid : validate_cache_key sample_key (codes "v/") ≡ ok tt
unfolding validate_cache_key image_resizer.Text.strip_prefix image_resizer.Text.Split.split_once
    image_resizer.Text.mem image_resizer.Text.eqb
sample_valid = refl

service-newest_example :
    (service_get_image
        (in_memory add_times)
        (codes "v/")
        30
        sample_key
        (run_calls add_times (codes "v/") calls)
      ≡ ok_or (live 30 (newest add_times sample_key calls)) (image_not_found sample_key))
    × (service_check_cache
          (in_memory add_times)
          (codes "v/")
          30
          sample_key
          (run_calls add_times (codes "v/") calls)
        ≡ ok (is_some (live 30 (newest add_times sample_key calls))))
service-newest_example = service-newest add_times (codes "v/") 30 sample_key calls sample_valid

relative_path-IsBelow_example : IsBelow (relative_path (codes "/../../etc/./passwd"))
relative_path-IsBelow_example = relative_path-IsBelow (codes "/../../etc/./passwd")
