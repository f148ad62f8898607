-- ===== src/Application/Components.antt =====
-- internal/application/catalog.go: `ValidateComponent` and `RegisterComponent`.
pub mod Registered
use envy.Common.{
  ℕ, ◌+◌, String, Bool, true, false, not, ◌&&◌, ◌||◌, Option, none, some, List, [], ◌∷◌, Map, any,
  all, length, is_empty, leb, ltb, ◌==◌, if◌then◌else◌, str_eq, codes, len, starts_with,
}
use envy.Model.{
  Url, Component, WorkloadKind, http, worker, job, scheduled_job, Error, Platform, validation,
}
use envy.Domain.Catalog.{valid_catalog_id, is_lower, is_digit}
use envy.Domain.Workload.{reject_if, first_error, validate_execution, workload_kind, is_http}
use envy.Application.Requests.{contains_any, is_deployment_profile, validate_pull_secrets}
use envy.Application.Backend.{
  Backend, Config, Formats, Action, Outcome, Query, ◌>>=◌, ◌>>◌, pure, fail, query, check, reject,
  register_component,
}

abbrev starts_absolute : String → Bool
starts_absolute path = starts_with path "/" && not (starts_with path "//")

module _ (f : Formats) where
  -- `validPath`
  unfoldable pub valid_path : String → Bool
  valid_path path = elim (f.parse_url path) [
    | none ↦ false
    | some u ↦
        starts_absolute path
        && leb (len path) 256
        && str_eq u.host ""
        && str_eq u.raw_query ""
        && str_eq u.fragment ""
        && not (contains_any path (13 ∷ 10 ∷ []))
  ]

abbrev pub is_letter : ℕ → Bool
is_letter c = is_lower c || leb b'A' c && leb c b'Z'

abbrev name_codes : List ℕ → Bool
name_codes [] = false
name_codes (c ∷ cs) =
    (is_letter c || c == b'_') && all (λ d. is_letter d || is_digit d || d == b'_') cs

-- The regular expression `envName`.
unfoldable pub is_env_name : String → Bool
is_env_name text = name_codes (codes text)

-- Whether nothing of an HTTP endpoint is declared.
abbrev pub endpoint_free : Component → Bool
endpoint_free c =
    str_eq c.protocol "" && c.port == 0 && str_eq c.health_path "" && str_eq c.readiness_path ""

abbrev pub http_shape : Component → Bool
http_shape c =
    str_eq c.protocol "http"
    && (str_eq c.profile "http-small" || is_deployment_profile c.profile)
    && leb 1 c.port
    && leb c.port 65535
    && not (str_eq c.profile "http-small" && ltb c.port 1024)

-- The `switch` on the kind; others were refused by `ValidateExecution`.
unfoldable pub validate_shape : WorkloadKind → Component → Option Error
validate_shape http c =
    reject_if (not (http_shape c))
      "HTTP components require http, a supported profile and a valid Service port; http-small ports must be unprivileged"
      none
validate_shape worker c =
    reject_if (not (str_eq c.profile "worker" && endpoint_free c))
      "workers require the worker profile and cannot declare an HTTP endpoint" none
validate_shape job c =
    reject_if (not (str_eq c.profile "job" && endpoint_free c))
      "jobs require the job profile and cannot declare an HTTP endpoint" none
validate_shape scheduled_job c =
    reject_if (not (str_eq c.profile "scheduled-job" && endpoint_free c))
      "scheduled jobs require the scheduled-job profile and cannot declare an HTTP endpoint" none
validate_shape _ c = none

-- The loop over the pull secrets; `seen` holds those before.
unfoldable pub validate_secret_names : List String → List String → Option Error
validate_secret_names seen [] = none
validate_secret_names seen (name ∷ names) =
    reject_if (not (valid_catalog_id name) || any (str_eq name) seen)
      "image pull Secret names must be unique DNS labels"
      (validate_secret_names (name ∷ seen) names)

abbrev pub is_reserved : String → Bool
is_reserved key = str_eq key "POD_UID" || starts_with key "ENVY_"

abbrev pub is_variable : String → String → Bool
is_variable key value =
    is_env_name key
    && leb (len key) 128
    && not (is_reserved key)
    && not (contains_any value (0 ∷ []))

abbrev pub env_size : Map String → ℕ
env_size [] = 0
env_size ((key, value) ∷ env) = len key + len value + env_size env

unfoldable pub validate_env : Map String → Option Error
validate_env [] = none
validate_env ((key, value) ∷ env) =
    reject_if (not (is_variable key value)) "environment contains an invalid or reserved variable"
      (validate_env env)

module _ (p : Platform) (f : Formats) where
  abbrev pub derives_nothing : Component → Bool
  derives_nothing c =
      str_eq c.health_path ""
      && str_eq c.readiness_path ""
      && is_empty c.env
      && is_empty c.image_pull_secrets

  unfoldable pub validate_paths : Component → Option Error
  validate_paths c =
      if is_deployment_profile c.profile
      then reject_if (not (derives_nothing c))
          "deployment profiles derive configuration through preview discovery and approval" none
      else reject_if
          (is_http (workload_kind c)
            && not (valid_path f c.health_path && valid_path f c.readiness_path))
          "health_path and readiness_path must be absolute HTTP paths" none

  unfoldable pub validate_bounds : Component → Option Error
  validate_bounds c =
      reject_if (ltb 2048 (len c.repository) || ltb 32 (length c.env))
        "repository or environment exceeds catalog bounds"
        (reject_if (ltb 8 (length c.image_pull_secrets))
          "at most eight image pull Secrets are allowed"
          (first_error (validate_secret_names [] c.image_pull_secrets) (
            first_error (validate_env c.env)
              (reject_if (ltb 8192 (env_size c.env)) "environment must not exceed 8 KiB" none))))

  unfoldable pub validate_component : Component → Option Error
  validate_component c =
      reject_if (not (valid_catalog_id c.id) || not (valid_catalog_id c.project))
        "component and project IDs must be DNS labels"
        (first_error (validate_execution p c) (
          first_error (validate_shape (workload_kind c) c)
            (first_error (validate_paths c) (validate_bounds c))))

  module _ (b : Backend) (cfg : Config) where
    -- `RegisterComponent`
    unfoldable pub register : Component → Action Component
    register c = do
      check (validate_component c)
      check (validate_pull_secrets cfg.approved_image_pull_secrets c.image_pull_secrets)
      if b.has_catalog then pure tt else reject "unavailable" "catalog registration is unavailable"
      query (register_component c) (λ h. b.register_component h c)
