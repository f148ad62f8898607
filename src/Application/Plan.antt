-- ===== src/Application/Plan.antt =====
-- internal/application/onboarding_plan.go: `PlanCreate`, which checks as `Create` does and reports
-- what it would select.
pub mod Selected
pub mod Planned
use envy.Common.{
  ℕ, ◌+◌, ◌*◌, max, String, Bool, true, false, not, ◌&&◌, ◌||◌, Option, none, some, List, [], ◌∷◌,
  ◌++◌, Map, get_or, has_key, lookup, insert, is_empty, length, ◌==◌, if◌then◌else◌, str_eq,
  contains_text, ◌<>◌,
}
use envy.Model.{
  Baseline, BaselineBinding, Component, ComponentOverride, CreateRequest, PreviewPlan,
  PlannedWorkload, PlanningBlocker, PreviewSnapshot, CompositePreviewPolicy, Platform, Err,
  domain_error, error_text,
}
use envy.Domain.Catalog.{override_names}
use envy.Domain.Workload.{workload_kind}
use envy.Domain.Messaging.{Checked, passed, refused}
use envy.Application.Requests.{normalize_create, valid_preview_image, no_override, or_empty}
use envy.Application.Builds.{resolve_overrides}
use envy.Application.Previews.{planning_blocker}
use envy.Application.Backend.{
  Backend, Config, Formats, Action, Outcome, returned, failed, ◌>>=◌, pure, attempt,
}
use envy.Application.Prepare.{Preparation, prepare_create, no_component}

-- `matchingComponent`, over the names that are left.
unfoldable pub matching_component : String → Bool → List String → String
matching_component text single [] = ""
matching_component text single (name ∷ names) =
    if contains_text text name || single then name else matching_component text single names

abbrev shared_caution : PlanningBlocker
shared_caution = record {
  code = "shared_side_effects";
  component = "";
  source = "baseline contract";
  message = "Inherited services and undeclared external dependencies remain shared.";
  next_action = "Review stateful side effects and dependency isolation before use.";
}

abbrev routing_caution : PlanningBlocker
routing_caution = record {
  code = "routing_proof_unknown";
  component = "";
  source = "verification contract";
  message = "HTTP reachability does not demonstrate selected downstream routing.";
  next_action = "Run the application acceptance procedure with scoped routing evidence.";
}

abbrev mutable_caution : String → PlanningBlocker
mutable_caution id = record {
  code = "mutable_image_reference";
  component = id;
  source = "selected image";
  message = "The direct image reference is not digest-pinned; it can resolve differently later.";
  next_action = "Pin an immutable digest or select a published build for reproducible previews.";
}

abbrev external_caution : String → PlanningBlocker
external_caution id = record {
  code = "external_readiness_unknown";
  component = id;
  source = "operator composite policy";
  message =
      "The plan declares shared external dependencies but does not verify their protocol readiness.";
  next_action = "Confirm the operator's external dependency acceptance evidence.";
}

-- The level of verification and the caution that comes with the kind of a contract.
abbrev planned_level : String → String
planned_level kind =
    if str_eq kind "none"
    then "none"
    else if str_eq kind "envy-chain"
    then "routing_when_verified"
    else "reachability"

abbrev level_cautions : String → List PlanningBlocker
level_cautions kind =
    if str_eq kind "none" || str_eq kind "envy-chain" then [] else routing_caution ∷ []

abbrev pub add_inherited :
    Map ComponentOverride → Map BaselineBinding → Map BaselineBinding → Map BaselineBinding
add_inherited overrides [] out = out
add_inherited overrides ((id, binding) ∷ rest) out =
    add_inherited overrides rest (if has_key id overrides then out else insert id binding out)

-- What the policy of a preview adds to a workload.
abbrev pub with_policy : Option CompositePreviewPolicy → PlannedWorkload → PlannedWorkload
with_policy none w = w
with_policy (some policy) w = record w {
  shared_dependencies = policy.shared_dependencies;
  service_account = policy.service_account;
  pod_cpu_ceiling = policy.max_pod_cpu;
  pod_memory_ceiling = policy.max_pod_memory;
}

abbrev with_preview : Option PreviewSnapshot → PlannedWorkload → PlannedWorkload
with_preview none w = w
with_preview (some preview) w =
    with_policy preview.composite_policy (record w { profile_revision = preview.revision })

abbrev policy_cautions : String → Option CompositePreviewPolicy → List PlanningBlocker
policy_cautions id none = []
policy_cautions id (some policy) =
    if is_empty policy.shared_dependencies then [] else external_caution id ∷ []

abbrev preview_cautions : String → Option PreviewSnapshot → List PlanningBlocker
preview_cautions id none = []
preview_cautions id (some preview) = policy_cautions id preview.composite_policy

abbrev add_revision : String → Option PreviewSnapshot → Map ℕ → Map ℕ
add_revision id none m = m
add_revision id (some preview) m = insert id preview.revision m

abbrev pub planned_workload :
    Component → Option PreviewSnapshot → String → ComponentOverride → PlannedWorkload
planned_workload profile preview id o = with_preview preview (record {
  component = id;
  kind = workload_kind profile;
  image = o.image;
  immutable = valid_preview_image o.image;
  build_id = o.build_id;
  profile_revision = 0;
  dependencies = elim profile.execution [ none ↦ [] | some e ↦ e.dependencies ];
  shared_dependencies = [];
  service_account = "";
  pod_cpu_ceiling = "";
  pod_memory_ceiling = "";
})

-- The body of the loop over the overridden components.
unfoldable pub add_selected :
    Map ComponentOverride → Preparation → String → PreviewPlan → PreviewPlan
add_selected overrides prepared id plan =
    let o = get_or no_override id overrides in
    let preview = lookup id prepared.previews in
    record plan {
      selected =
          plan.selected
          ++ (planned_workload (get_or no_component id prepared.profiles) preview id o ∷ []);
      cautions =
          plan.cautions
          ++ ((if valid_preview_image o.image then [] else mutable_caution id ∷ [])
              ++ preview_cautions id preview);
      expected_preview_revisions = add_revision id preview plan.expected_preview_revisions;
    }

abbrev pub add_each : Map ComponentOverride → Preparation → List String → PreviewPlan → PreviewPlan
add_each overrides prepared [] plan = plan
add_each overrides prepared (id ∷ ids) plan =
    add_each overrides prepared ids (add_selected overrides prepared id plan)

module _ (p : Platform) (f : Formats) (b : Backend) (cfg : Config) where
  -- The plan before anything is checked.
  abbrev pub first_plan : CreateRequest → PreviewPlan
  first_plan input = record {
    ready = false;
    project = input.project;
    baseline = input.baseline;
    baseline_revision = "";
    installation = cfg.installation;
    namespace = "";
    gateway = "";
    lifetime = "";
    verification_level = "unknown";
    resource_demand = "not_resolved";
    message_isolation = input.message_isolation;
    selected = [];
    inherited = [];
    expected_preview_revisions = [];
    blockers = [];
    cautions = [];
  }

  abbrev demand : ℕ → String
  demand n =
      "estimated quota ceiling: "
      <> (f.decimal (2 * max 1 n + 2)
          <> (" Pods for "
              <> (f.decimal n
                  <> " selected workloads including rollout overlap; create enforces current capacity")))

  abbrev pub blocked : PreviewPlan → PlanningBlocker → PreviewPlan
  blocked plan blocker = record plan { blockers = blocker ∷ [] }

  -- The plan of a creation that nothing blocks.
  unfoldable pub open_plan :
      CreateRequest → Map ComponentOverride → Baseline → Preparation → PreviewPlan → PreviewPlan
  open_plan req overrides base prepared plan =
      add_each overrides prepared (override_names overrides) (record plan {
        ready = true;
        baseline_revision = base.revision;
        namespace = base.routing.namespace;
        gateway = base.routing.gateway;
        verification_level = planned_level base.verification.kind;
        cautions = level_cautions base.verification.kind ++ (shared_caution ∷ []);
        resource_demand = demand (length overrides);
        inherited = add_inherited overrides base.components [];
      })

  abbrev pub of_prepared :
      CreateRequest
      → Map ComponentOverride
      → PreviewPlan
      → Outcome (Baseline × Preparation)
      → Action PreviewPlan
  of_prepared req overrides plan (failed e) = pure (
      blocked plan (
        planning_blocker f e
          (matching_component (error_text e) (length overrides == 1) (override_names overrides))
          "catalog and source cluster"))
  of_prepared req overrides plan (returned (base, prepared)) =
      pure (open_plan req overrides base prepared plan)

  abbrev pub of_resolved :
      CreateRequest → PreviewPlan → Outcome (Map ComponentOverride) → Action PreviewPlan
  of_resolved req plan (failed e) = pure (blocked plan (planning_blocker f e "" "build registry"))
  of_resolved req plan (returned overrides) =
      attempt (prepare_create p f b cfg (record req { overrides = some overrides }))
      >>= of_prepared req overrides plan

  abbrev pub of_normal : PreviewPlan → Checked (CreateRequest × ℕ) → Action PreviewPlan
  of_normal plan (refused e) =
      pure (blocked plan (planning_blocker f (domain_error e) "" "request"))
  of_normal plan (passed (req, ttl)) =
      attempt (resolve_overrides b req.project (or_empty req.overrides))
      >>= of_resolved req (record plan { lifetime = f.duration_text ttl })

  unfoldable pub plan_create : CreateRequest → Action PreviewPlan
  plan_create input = of_normal (first_plan input) (normalize_create p f cfg input)
