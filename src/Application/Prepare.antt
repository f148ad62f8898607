-- ===== src/Application/Prepare.antt =====
-- internal/application/service.go: `prepareCreate`, the checks that planning and creation share.
pub mod Selection
pub mod Closure
pub mod Prepared
use envy.Common.{
  ℕ, ◌+◌, ℤ, pos, String, Bool, true, false, not, ◌&&◌, ◌||◌, Option, none, some, List, [], ◌∷◌,
  Map, get_or, has_key, lookup, insert, is_empty, is_some, all, leb, ltb, len, codes, if◌then◌else◌,
  str_eq, ◌<>◌,
}
use envy.Model.{
  Url, Composition, Component, ComponentOverride, ComponentObservation, ExecutionState, Baseline,
  BaselineBinding, PreviewSnapshot, PreviewProvenance, CreateRequest, Endpoint, Condition, Phase,
  MessageSubscription, Platform, Time, Err, domain_error, plain, Error, validation, RuntimeState,
  ResolvedPlan,
}
use envy.Domain.Catalog.{override_names, no_workload}
use envy.Domain.Workload.{has_endpoint}
use envy.Domain.Workload.Graph.{validate_execution_graph}
use envy.Domain.Messaging.{Checked, passed, refused, validate_messaging}
use envy.Domain.Messaging.Resolve.{resolve_messaging}
use envy.Application.Requests.{
  normalize_create, validate_pull_secrets, valid_preview_image, no_override, or_empty,
}
use envy.Application.Builds.{resolve_overrides}
use envy.Application.Previews.{resolve_preview}
use envy.Application.Backend.{
  Backend, Config, Formats, Action, Outcome, returned, Query, ◌>>=◌, ◌>>◌, pure, fail, query,
  invalid, reject, require, check, coded_error, read_baseline, read_component, validate_provider,
  replay_create, create_composition, read_clock, draw_id,
}

-- `createPreparation`
pub record Preparation : Type 0 where
  pub profiles : Map Component
  pub previews : Map PreviewSnapshot
  pub provenance : Map PreviewProvenance
  pub has_endpoint : Bool

abbrev pub no_component : Component
no_component = record {
  execution = none;
  image_pull_secrets = [];
  profile = "";
  readiness_path = "";
  env = [];
  id = "";
  project = "";
  protocol = "";
  port = 0;
  health_path = "";
  overridable = false;
  repository = "";
}

-- The port that a baseline binds a component to.
abbrev pub bound_port : Baseline → String → ℕ
bound_port base component = elim (lookup component base.components) [
  | none ↦ 0
  | some binding ↦ binding.port
]

unfoldable pub valid_base_url : Url → Bool
valid_base_url u =
    (str_eq u.scheme "http" || str_eq u.scheme "https")
    && not (str_eq u.hostname "")
    && not u.has_user
    && (str_eq u.path "" || str_eq u.path "/")
    && str_eq u.raw_query ""
    && str_eq u.fragment ""

abbrev url_message : String
url_message = "preview base URL configuration is invalid"

-- A composition that depends on a component must select it.
unfoldable pub unselected : Map Component → String → List String → Option Error
unselected profiles component [] = none
unselected profiles component (d ∷ ds) =
    if has_key d profiles
    then unselected profiles component ds
    else some (validation ("component " <> (component <> (" requires selected dependency " <> d))))

abbrev pub declared_by : Component → List String
declared_by profile = elim profile.execution [ none ↦ [] | some e ↦ e.dependencies ]

unfoldable pub missing_dependency : Map Component → Map Component → Option Error
missing_dependency profiles [] = none
missing_dependency profiles ((component, profile) ∷ rest) =
    elim (unselected profiles component (declared_by profile)) [
      | some e ↦ some e
      | none ↦ missing_dependency profiles rest
    ]

abbrev pub check_graph : Option Err → Action (Unit {0})
check_graph none = pure tt
check_graph (some e) = fail e

module _ (p : Platform) (f : Formats) (b : Backend) (cfg : Config) where
  -- What `url.Parse` returned, nothing on an error.
  abbrev pub of_url : Option Url → Action Url
  of_url none = reject "unavailable" url_message
  of_url (some u) = if valid_base_url u then pure u else reject "unavailable" url_message

  unfoldable pub preview_base_url : Action Url
  preview_base_url = of_url (f.parse_url cfg.preview_base_url)

  -- What is added for a component: its profile, and what was captured of its preview.
  unfoldable pub capture :
      Baseline
      → CreateRequest
      → Preparation
      → String
      → Component
      → Option PreviewSnapshot
      → Action Preparation
  capture base req acc component profile none = pure (record acc {
    profiles = insert component profile acc.profiles;
    has_endpoint = acc.has_endpoint || has_endpoint profile;
  })
  capture base req acc component profile (some snapshot) = do
    require (valid_preview_image (get_or no_override component (or_empty req.overrides)).image)
        "deployment-derived previews require digest-pinned images"
    let ported = record profile { port = bound_port base component }
    pure (record {
      profiles = insert component ported acc.profiles;
      previews = insert component snapshot acc.previews;
      provenance =
          insert component
            (record {
              shared_dependencies = [];
              revision = snapshot.revision;
              source = snapshot.source;
            })
            acc.provenance;
      has_endpoint = acc.has_endpoint || has_endpoint ported;
    })

  -- The body of the loop over the overridden components.
  unfoldable pub prepare_component :
      Baseline → CreateRequest → Preparation → String → Action Preparation
  prepare_component base req acc component = do
    profile ←
        query (read_component req.project component) (λ h. b.component h req.project component)
    check (validate_pull_secrets cfg.approved_image_pull_secrets profile.image_pull_secrets)
    require profile.overridable ("component " <> (component <> " does not allow image overrides"))
    require (has_key component base.components) ("baseline has no binding for " <> component)
    snapshot ←
        resolve_preview f b base profile (get_or (pos 0) component req.expected_preview_revisions)
    capture base req acc component profile snapshot

  unfoldable pub prepare_each :
      Baseline → CreateRequest → Preparation → List String → Action Preparation
  prepare_each base req acc [] = pure acc
  prepare_each base req acc (component ∷ rest) = do
    acc' ← prepare_component base req acc component
    prepare_each base req acc' rest

  -- What message isolation asks of the baseline and the provider.
  unfoldable pub check_isolation : Baseline → Bool → Action (Unit {0})
  check_isolation base false = pure tt
  check_isolation base true = do
    require (not (is_empty base.pubsub) && b.has_messaging)
        "message isolation requires registered Pub/Sub bindings and an enabled provider"
    query (validate_provider base) (λ h. b.validate h base)

  abbrev pub of_checked : {A : Type 0} → Checked A → Action A
  of_checked (passed a) = pure a
  of_checked (refused e) = fail (domain_error e)

  abbrev pub check_revision : CreateRequest → Baseline → Action (Unit {0})
  check_revision req base =
      if str_eq req.expected_baseline_revision ""
        || str_eq req.expected_baseline_revision base.revision
      then pure tt
      else fail (
          domain_error
            (record (coded_error "conflict"
              "baseline binding revision changed; inspect the current baseline before recreating") {
                project = req.project;
              }))

  abbrev pub check_base_url : Bool → Action (Unit {0})
  check_base_url false = pure tt
  check_base_url true = preview_base_url >>= λ _. pure tt

  unfoldable pub prepare_create : CreateRequest → Action (Baseline × Preparation)
  prepare_create req = do
    base ←
        query (read_baseline req.project req.baseline) (λ h. b.baseline h req.project req.baseline)
    check_revision req base
    of_checked (validate_messaging base)
    check_isolation base req.message_isolation
    prepared ←
        prepare_each base req
          (record {
            profiles = [];
            previews = [];
            provenance = [];
            has_endpoint = not (str_eq base.verification.kind "none");
          })
          (override_names (or_empty req.overrides))
    check_graph (validate_execution_graph p prepared.profiles)
    check (missing_dependency prepared.profiles prepared.profiles)
    check_base_url prepared.has_endpoint
    pure (base, prepared)
