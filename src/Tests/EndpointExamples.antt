-- ===== src/Tests/EndpointExamples.antt =====
-- Examples for the file endpoint and the metrics endpoint.
use image_resizer.Prelude.{Option, [], false, none, ok, refl, some, ◌++◌, ◌↔◌, ◌∷◌, ◌≡◌, ◌≢◌}
use image_resizer.Text.{Str, codes}
use image_resizer.Api.Files.{content_type_for_key, served_type-encode_output}
use image_resizer.Cache.{generate_key}
use image_resizer.Image.Pipeline.Stages.{encode_output}
use image_resizer.MetricsAuth.{
  MetricsAuthConfig, MetricsEnv, bearer_prefix, configured_token, from_env, next_run,
  require_metrics_auth,
}
use image_resizer.MetricsAuth.Laws.{require_metrics_auth_iff}
use image_resizer.Url.Request.{into_resize_query}
use image_resizer.Tests.Samples.{constant_digest, whole_numbers}
use image_resizer.Tests.ImageExamples.{one_dot, plain_query, size_work, small_config}

served_type-encode_output_example :
    content_type_for_key (generate_key whole_numbers constant_digest (codes "v/") plain_query)
    ≡ codes "image/webp"
unfolding encode_output into_resize_query
served_type-encode_output_example =
    served_type-encode_output whole_numbers one_dot size_work constant_digest (codes "v/") (4, 3)
      plain_query small_config (record { icc_profile = none; exif = none }) (4 ∷ [])
      (codes "image/webp") refl

abbrev metrics_env : MetricsEnv
metrics_env = record {
  metrics_auth_token = some (codes " secret ");
  allow_unauthenticated_metrics = none;
}

abbrev metrics_config : MetricsAuthConfig
metrics_config = record { token = codes "secret"; allow_unauthenticated = false }

starts : from_env metrics_env ≡ ok metrics_config
unfolding from_env
starts = refl

require_metrics_auth_iff_example :
    (metrics_config.token ≢ [])
    × ((require_metrics_auth metrics_config (some (codes "Bearer secret")) ≡ next_run) ↔ (
        ◌≡◌ {A = Option Str}
          (some (codes "Bearer secret"))
          (some (bearer_prefix ++ configured_token metrics_env.metrics_auth_token))))
require_metrics_auth_iff_example =
    require_metrics_auth_iff metrics_env metrics_config (some (codes "Bearer secret")) starts refl
