-- ===== src/Application/Components/Registered.antt =====
-- internal/application/catalog.go: what a component is that the store is asked to register.
use envy.Common.{
  ◌≤◌, ◌≡◌, refl, ◌⊎◌, inl, inr, String, Bool, true, false, Option, none, some, List, [], ◌∷◌, Map,
  any, All, length, str_eq, eq_iff, codes, len, Bool-cases, arith,
}
use envy.Model.{
  Component, WorkloadKind, unset, http, worker, job, scheduled_job, other, WorkloadExecution,
  Platform,
}
use envy.Domain.Catalog.Labels.{IsLabel, valid_catalog_id-IsLabel}
use envy.Domain.Workload.{validate_execution, workload_kind, is_http}
use envy.Application.Requests.{is_deployment_profile}
use envy.Application.Backend.{Backend, Config, Formats, Query, register_component}
use envy.Application.Components.{
  valid_path, endpoint_free, http_shape, validate_shape, validate_secret_names, is_variable,
  env_size, validate_env, derives_nothing, validate_paths, validate_bounds, validate_component,
  register,
}
use envy.Application.Prepare.Selection.{IsApproved, validate_pull_secrets-IsApproved}
use envy.Application.Lookups.{is_read}
use envy.Application.Allows.{Allows, Allows-checked, Allows-unless, Allows-ask, Anything}

-- An HTTP component with a port that its profile allows, or one without an endpoint.
pub data IsShape (c : Component) : Type 0 where
  serves :
      workload_kind c ≡ http
      → c.protocol ≡ "http"
      → 1 ≤ c.port
      → c.port ≤ 65535
      → ((c.profile ≡ "http-small") × (1024 ≤ c.port)) ⊎ (is_deployment_profile c.profile ≡ true)
      → IsShape c
  runs :
      is_http (workload_kind c) ≡ false
      → c.protocol ≡ ""
      → c.port ≡ 0
      → c.health_path ≡ ""
      → c.readiness_path ≡ ""
      → IsShape c

endless : (c : Component) → is_http (workload_kind c) ≡ false → endpoint_free c ≡ true → IsShape c
endless c k h =
    IsShape.runs k ((eq_iff c.protocol "").0 (ground arith)) (ground arith)
      ((eq_iff c.health_path "").0 (ground arith)) ((eq_iff c.readiness_path "").0 (ground arith))

serving : (c : Component) → workload_kind c ≡ http → http_shape c ≡ true → IsShape c
serving c k h =
    IsShape.serves k ((eq_iff c.protocol "http").0 (ground arith)) (ground arith) (ground arith)
      (elim (Bool-cases (str_eq c.profile "http-small")) [
        | inl small ↦ inl ((eq_iff c.profile "http-small").0 small, ground (arith, small))
        | inr derived ↦ inr (ground (arith, derived))
      ])

-- No component that passes has a kind that is unknown.
abbrev is_listed : WorkloadKind → Bool
is_listed unset = false
is_listed (other t) = false
is_listed k = true

validate_execution-listed :
    (p : Platform) (c : Component)
    → validate_execution p c ≡ none
    → is_listed (workload_kind c) ≡ true
unfolding validate_execution workload_kind
validate_execution-listed p c e = at c.execution refl
  where
    at : (x : Option WorkloadExecution) → c.execution ≡ x → is_listed (workload_kind c) ≡ true
    at none s = rw s refl
    at (some x) s = ground (arith, s)

validate_shape-IsShape :
    (p : Platform) (c : Component)
    → validate_execution p c ≡ none
    → validate_shape (workload_kind c) c ≡ none
    → IsShape c
unfolding validate_shape
validate_shape-IsShape p c e h = at (workload_kind c) refl h
  where
    at : (k : WorkloadKind) → workload_kind c ≡ k → validate_shape k c ≡ none → IsShape c
    at http s h' = serving c s (ground arith)
    at worker s h' = endless c (rw s refl) (ground arith)
    at job s h' = endless c (rw s refl) (ground arith)
    at scheduled_job s h' = endless c (rw s refl) (ground arith)
    at unset s h' = cc (s, validate_execution-listed p c e)
    at (other t) s h' = cc (s, validate_execution-listed p c e)

-- Labels that are distinct, and none of those before.
abbrev pub AreDistinct : List String → List String → Type 0
AreDistinct seen [] = Unit
AreDistinct seen (name ∷ names) =
    IsLabel (codes name) × ((any (str_eq name) seen ≡ false) × AreDistinct (name ∷ seen) names)

validate_secret_names-AreDistinct :
    (seen names : List String) → validate_secret_names seen names ≡ none → AreDistinct seen names
unfolding validate_secret_names
validate_secret_names-AreDistinct seen [] e = tt
validate_secret_names-AreDistinct seen (name ∷ names) e = (
  (valid_catalog_id-IsLabel name).0 (ground arith),
  (ground arith, validate_secret_names-AreDistinct (name ∷ seen) names (ground arith)),
)

validate_env-variables :
    (env : Map String) → validate_env env ≡ none → All (λ v. is_variable v.0 v.1 ≡ true) env
unfolding validate_env
validate_env-variables [] e = tt
validate_env-variables ((key, value) ∷ env) e =
    (ground arith, validate_env-variables env (ground arith))

module _ (p : Platform) (f : Formats) where
  -- Where a component is derived from a deployment, its own settings are empty; else an HTTP component
  -- has absolute paths.
  pub data HasPaths (c : Component) : Type 0 where
    derived : is_deployment_profile c.profile ≡ true → derives_nothing p f c ≡ true → HasPaths c
    pathless :
        is_deployment_profile c.profile ≡ false → is_http (workload_kind c) ≡ false → HasPaths c
    absolute :
        is_deployment_profile c.profile ≡ false
        → valid_path f c.health_path ≡ true
        → valid_path f c.readiness_path ≡ true
        → HasPaths c

  pub record IsComponent (c : Component) : Type 0 where
    pub id : IsLabel (codes c.id)
    pub project : IsLabel (codes c.project)
    pub execution : validate_execution p c ≡ none
    pub shape : IsShape c
    pub paths : HasPaths c
    pub repository : len c.repository ≤ 2048
    pub few_secrets : length c.image_pull_secrets ≤ 8
    pub secrets : AreDistinct [] c.image_pull_secrets
    pub few_variables : length c.env ≤ 32
    pub variables : All (λ v. is_variable v.0 v.1 ≡ true) c.env
    pub size : env_size c.env ≤ 8192

  validate_paths-HasPaths : (c : Component) → validate_paths p f c ≡ none → HasPaths c
  unfolding validate_paths
  validate_paths-HasPaths c e = elim (Bool-cases (is_deployment_profile c.profile)) [
    | inl d ↦ HasPaths.derived d (ground (arith, d))
    | inr own ↦ elim (Bool-cases (is_http (workload_kind c))) [
      | inl endpoint ↦
          HasPaths.absolute own (ground (arith, own, endpoint)) (ground (arith, own, endpoint))
      | inr silent ↦ HasPaths.pathless own silent
    ]
  ]

  pub validate_component-IsComponent :
      (c : Component) → validate_component p f c ≡ none → IsComponent c
  unfolding validate_component validate_bounds
  validate_component-IsComponent c e = record {
    id = (valid_catalog_id-IsLabel c.id).0 (ground arith);
    project = (valid_catalog_id-IsLabel c.project).0 (ground arith);
    execution = ground arith;
    shape = validate_shape-IsShape p c (ground arith) (ground arith);
    paths = validate_paths-HasPaths c (ground arith);
    repository = ground arith;
    few_secrets = ground arith;
    secrets = validate_secret_names-AreDistinct [] c.image_pull_secrets (ground arith);
    few_variables = ground arith;
    variables = validate_env-variables c.env (ground arith);
    size = ground arith;
  }

  module _ (b : Backend) (cfg : Config) where
    -- What may be asked for a component: to register it where it is valid and its pull secrets are
    -- approved, or nothing that changes the store.
    abbrev pub Registers : Component → Query → Type 0
    Registers c (register_component d) =
        (d ≡ c) × (IsComponent c × IsApproved cfg.approved_image_pull_secrets c.image_pull_secrets)
    Registers c q = is_read q ≡ true

    register-Allows : (c : Component) → Allows (Registers c) Anything (register p f b cfg c)
    unfolding register
    register-Allows c = Allows-checked _ _ (λ _ valid. Allows-checked _ _ (λ _ approved.
        Allows-unless b.has_catalog _ _ (λ _ _. Allows-ask _ _ (
          refl,
          (
            validate_component-IsComponent c valid,
            validate_pull_secrets-IsApproved cfg.approved_image_pull_secrets _ approved,
          ),
        ))))

    -- A registration asks the store for nothing but to register the component, and only where the
    -- component is valid and all its pull secrets are approved.
    pub register-IsComponent : (c : Component) → All (Registers c) (register p f b cfg c []).1
    register-IsComponent c = (register-Allows c).queries [] tt
