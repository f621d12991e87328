-- ===== src/MetricsAuth.antt =====
-- src/modules/metrics_auth: the bearer token of the metrics endpoint (config.rs) and the middleware in
-- front of it (middleware.rs).
pub mod Laws
use image_resizer.Prelude.{
  Bool, Bool-cases, List, Option, Option-cases, Result, [], arith, bind?, err, false, guard,
  guard-eq-ok, if◌then◌else◌, inl, inr, length, none, not, ok, refl, some, true, unwrap_or, ℕ, ◌&&◌,
  ◌++◌, ◌==◌, ◌>>=◌, ◌>>◌, ◌||◌, ◌↔◌, ◌∷◌, ◌≡◌, ◌≢◌, ◌⊎◌,
}
use image_resizer.Text.{Str, codes, eqb, eqb_iff, is_empty, strip_prefix}
use image_resizer.Text.Trim.{trim}

pub record MetricsAuthConfig : Type 0 where
  pub token : Str
  pub allow_unauthenticated : Bool

-- The variables that are read.
pub record MetricsEnv : Type 0 where
  pub metrics_auth_token : Option Str
  pub allow_unauthenticated_metrics : Option Bool

unfoldable pub enabled : MetricsAuthConfig → Bool
enabled config = not (is_empty config.token)

-- A token that is absent or blank is the empty one.
unfoldable pub configured_token : Option Str → Str
unfolding trim
configured_token none = []
configured_token (some raw) = trim raw

-- `bail!` with a fixed text.
pub data ConfigError : Type 0 where
  token_required : ConfigError

unfoldable pub from_env : MetricsEnv → Result ConfigError MetricsAuthConfig
unfolding configured_token enabled
from_env config = do
  let metrics_auth : MetricsAuthConfig = record {
    token = configured_token config.metrics_auth_token;
    allow_unauthenticated = unwrap_or config.allow_unauthenticated_metrics false;
  }
  guard (enabled metrics_auth || metrics_auth.allow_unauthenticated) token_required
  ok metrics_auth

unfoldable pub verify_token : MetricsAuthConfig → Str → Bool
unfolding enabled eqb
verify_token config provided =
    if not (enabled config)
    then false
    else if not (length provided == length config.token)
    then false
    else eqb provided config.token

abbrev pub bearer_prefix : Str
bearer_prefix = codes "Bearer "

-- The rest of the service, or the 401 with its challenge.
pub data Passed : Type 0 where
  next_run unauthorized : Passed

-- The test of the middleware, for the `Authorization` header if it is there and a text.
unfoldable pub authorized : MetricsAuthConfig → Option Str → Bool
unfolding verify_token strip_prefix
authorized config header = elim (bind? header (strip_prefix bearer_prefix)) [
  | some token ↦ verify_token config token
  | none ↦ false
]

unfoldable pub require_metrics_auth : MetricsAuthConfig → Option Str → Passed
unfolding authorized
require_metrics_auth config header =
    if config.allow_unauthenticated
    then next_run
    else if authorized config header
    then next_run
    else unauthorized
