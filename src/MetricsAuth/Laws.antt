-- ===== src/MetricsAuth/Laws.antt =====
-- Who reads the metrics.
use image_resizer.Prelude.{
  Bool, Option, Option-cases, [], ap, arith, false, guard-eq-ok, if◌then◌else◌, inl, inr, length,
  none, ok, refl, some, subst, sym, true, unwrap_or, ◌++◌, ◌||◌, ◌↔◌, ◌∙◌, ◌∷◌, ◌≡◌, ◌≢◌,
}
use image_resizer.Text.{Str, eqb_iff, is_empty, strip_prefix}
use image_resizer.Storage.KeyValidation.Laws.{strip_prefix-some, strip_prefix_append}
use image_resizer.MetricsAuth.{
  MetricsAuthConfig, MetricsEnv, Passed, authorized, bearer_prefix, configured_token, enabled,
  from_env, next_run, require_metrics_auth, token_required, unauthorized, verify_token,
}

-- A configuration that the service starts with.
pub record Starts (env : MetricsEnv) (config : MetricsAuthConfig) : Type 0 where
  pub token_of : config.token ≡ configured_token env.metrics_auth_token
  pub opted_out : config.allow_unauthenticated ≡ unwrap_or env.allow_unauthenticated_metrics false
  pub guarded : config.allow_unauthenticated ≡ false → config.token ≢ []

from_env-Starts :
    (env : MetricsEnv) (config : MetricsAuthConfig) → from_env env ≡ ok config → Starts env config
unfolding from_env enabled
from_env-Starts env config e =
    let made : MetricsAuthConfig = record {
      token = configured_token env.metrics_auth_token;
      allow_unauthenticated = unwrap_or env.allow_unauthenticated_metrics false;
    } in
    let (passes, same) =
      guard-eq-ok (enabled made || made.allow_unauthenticated) token_required (ok made) e in
    let is_made : made ≡ config = cc in
    let kept : (enabled config || config.allow_unauthenticated) ≡ true =
      subst (λ c. (enabled c || c.allow_unauthenticated) ≡ true) is_made passes in
    record {
      token_of = sym (ap (λ c. c.token) is_made);
      opted_out = sym (ap (λ c. c.allow_unauthenticated) is_made);
      guarded = λ off blank. let empty = ap is_empty blank in absurd (ground arith);
    }

is_empty-ne : (s : Str) → s ≢ [] → is_empty s ≡ false
is_empty-ne [] h = absurd (h refl)
is_empty-ne (c ∷ s) h = refl

verify_token_iff :
    (config : MetricsAuthConfig) (provided : Str)
    → config.token ≢ []
    → (verify_token config provided ≡ true) ↔ (provided ≡ config.token)
unfolding verify_token enabled
verify_token_iff config provided set =
    let filled = is_empty-ne config.token set in
    let agree = eqb_iff provided config.token in
    (
      λ e. agree.0 (ground (arith, filled)),
      λ same. ground (arith, filled, ap length same, agree.1 same),
    )

next_run_iff :
    (b : Bool) → (◌≡◌ {A = Passed} (if b then next_run else unauthorized) next_run) ↔ (b ≡ true)
next_run_iff true = (λ e. refl, λ e. refl)
next_run_iff false = (λ e. cc, λ e. cc)

authorized_iff :
    (config : MetricsAuthConfig) (header : Option Str)
    → config.token ≢ []
    → (authorized config header ≡ true) ↔ (header ≡ some (bearer_prefix ++ config.token))
unfolding authorized
authorized_iff config none set = (λ e. cc, λ e. cc)
authorized_iff config (some text) set = elim (Option-cases (strip_prefix bearer_prefix text)) [
  | inl other ↦ (
    λ e. let clash : false ≡ true = sym (ap judge other) ∙ e in cc,
    λ same.
        let is_text : text ≡ bearer_prefix ++ config.token = cc in
        let strips : strip_prefix bearer_prefix text ≡ some config.token =
          ap (strip_prefix bearer_prefix) is_text
          ∙ strip_prefix_append bearer_prefix config.token in
        cc (other, strips),
  )
  | inr (token, found) ↦ (
    λ e.
        let is_token = (verify_token_iff config token set).0 (sym (ap judge found) ∙ e) in
        let is_text = strip_prefix-some bearer_prefix text token found in
        ap some (is_text ∙ ap (◌++◌ bearer_prefix) is_token),
    λ same.
        let is_text : text ≡ bearer_prefix ++ config.token = cc in
        let strips : strip_prefix bearer_prefix text ≡ some config.token =
          ap (strip_prefix bearer_prefix) is_text
          ∙ strip_prefix_append bearer_prefix config.token in
        ap judge strips ∙ (verify_token_iff config config.token set).1 refl,
  )
]
  where
    judge : Option Str → Bool
    judge none = false
    judge (some token) = verify_token config token

-- With a configuration that the service starts with and no opt-out, the configured token is not empty,
-- and a request passes exactly when its `Authorization` header is a text that is "Bearer " and the
-- configured token without white space around it.
pub require_metrics_auth_iff :
    (env : MetricsEnv) (config : MetricsAuthConfig) (header : Option Str)
    → from_env env ≡ ok config
    → unwrap_or env.allow_unauthenticated_metrics false ≡ false
    → (config.token ≢ [])
      × ((require_metrics_auth config header ≡ next_run)
          ↔ (header ≡ some (bearer_prefix ++ configured_token env.metrics_auth_token)))
unfolding require_metrics_auth
require_metrics_auth_iff env config header e closed =
    let starts = from_env-Starts env config e in
    let strict = starts.opted_out ∙ closed in
    let set = starts.guarded strict in
    let by_token = authorized_iff config header set in
    let gate : require_metrics_auth config header
        ≡ (if authorized config header then next_run else unauthorized) =
      ap (λ b. if b then next_run else if authorized config header then next_run else unauthorized)
        strict in
    let wanted = ap (λ token. some (bearer_prefix ++ token)) starts.token_of in
    let opens = next_run_iff (authorized config header) in
    (
      set,
      (
        λ passes. by_token.0 (opens.0 (sym gate ∙ passes)) ∙ wanted,
        λ named. gate ∙ opens.1 (by_token.1 (named ∙ sym wanted)),
      ),
    )
