-- ===== src/Application/Update.antt =====
-- internal/application/service.go: `Update`, which extends the captured plan of a composition.
pub mod Extension
pub mod Planned
use envy.Common.{
  ℕ, ℤ, pos, lez, is_zero, String, Bool, true, false, not, ◌&&◌, ◌||◌, Option, none, some, List, [],
  ◌∷◌, Map, get_or, has_key, lookup, insert, copy, is_some, if◌then◌else◌, ◌<>◌,
}
use envy.Model.{
  Composition, Component, ComponentOverride, PreviewSnapshot, UpdateRequest, ResolvedPlan, Err,
  domain_error,
}
use envy.Domain.Catalog.{override_names, profiles}
use envy.Application.Requests.{
  validate_overrides, validate_preview_guards, validate_pull_secrets, valid_preview_image,
  no_override, or_empty, is_revision,
}
use envy.Application.Builds.{resolve_overrides}
use envy.Application.Previews.{resolve_preview}
use envy.Application.Prepare.{bound_port}
use envy.Application.Backend.{
  Backend, Config, Formats, Action, Outcome, returned, failed, Query, ◌>>=◌, ◌>>◌, pure, fail,
  query, attempt, invalid, reject, require, check, coded_error, read_component, read_composition,
  update_composition, draw_id,
}

-- A new component of a plan, with the preview captured for it.
abbrev pub with_component :
    ResolvedPlan → String → Component → Option PreviewSnapshot → ResolvedPlan
with_component plan component profile none = record plan {
  components = insert component profile plan.components;
}
with_component plan component profile (some snapshot) = record plan {
  components =
      insert component (record profile { port = bound_port plan.baseline component })
        plan.components;
  previews = insert component snapshot plan.previews;
}

abbrev pub with_published : ResolvedPlan → String → Outcome Component → ResolvedPlan
with_published plan component (returned profile) = record plan {
  components = insert component profile plan.components;
}
with_published plan component (failed e) = plan

-- The copy of the captured plan that an update extends.
abbrev pub copied_plan : ResolvedPlan → ResolvedPlan
copied_plan plan = record plan {
  previews = copy [] plan.previews;
  components = copy [] (profiles plan);
}

module _ (f : Formats) (b : Backend) (cfg : Config) where
  abbrev pub expected_revision : UpdateRequest → String → ℤ
  expected_revision req component = get_or (pos 0) component req.expected_preview_revisions

  -- A component that the plan has is kept as it was captured.
  unfoldable pub capture_new :
      UpdateRequest → ResolvedPlan → String → Component → Bool → Action ResolvedPlan
  capture_new req plan component profile true = pure plan
  capture_new req plan component profile false = do
    snapshot ← resolve_preview f b plan.baseline profile (expected_revision req component)
    pure (with_component plan component profile snapshot)

  -- Whether the request expects no revision, or the captured one.
  abbrev pub expects : UpdateRequest → String → PreviewSnapshot → Bool
  expects req component snapshot =
      is_zero (expected_revision req component)
      || is_revision (expected_revision req component) snapshot.revision

  -- What the request expects of a captured preview.
  unfoldable pub check_captured :
      UpdateRequest → String → Option PreviewSnapshot → Action (Unit {0})
  check_captured req component none =
      require (is_zero (expected_revision req component))
        "composition has no captured preview profile"
  check_captured req component (some snapshot) = do
    if expects req component snapshot
        then pure tt
        else reject "conflict" "captured preview profile revision differs"
    require (valid_preview_image (get_or no_override component (or_empty req.overrides)).image)
        "deployment-derived previews require digest-pinned images"

  -- The body of the loop over the overridden components.
  unfoldable pub extend_plan : String → UpdateRequest → ResolvedPlan → String → Action ResolvedPlan
  extend_plan project req plan component = do
    profile ← query (read_component project component) (λ h. b.component h project component)
    check (validate_pull_secrets cfg.approved_image_pull_secrets profile.image_pull_secrets)
    require profile.overridable "component does not allow image overrides"
    require (has_key component plan.baseline.components)
        ("baseline has no binding for " <> component)
    plan' ← capture_new req plan component profile (has_key component plan.components)
    check_captured req component (lookup component plan'.previews)
    pure plan'

  unfoldable pub extend_each :
      String → UpdateRequest → ResolvedPlan → List String → Action ResolvedPlan
  extend_each project req plan [] = pure plan
  extend_each project req plan (component ∷ rest) = do
    plan' ← extend_plan project req plan component
    extend_each project req plan' rest

  -- The profile of a published component that the plan has not; an error of the store is dropped.
  unfoldable pub keep_component : String → ResolvedPlan → String → Bool → Action ResolvedPlan
  keep_component project plan component true = pure plan
  keep_component project plan component false = do
    r ← attempt (query (read_component project component) (λ h. b.component h project component))
    pure (with_published plan component r)

  unfoldable pub keep_published :
      String → ResolvedPlan → Map ComponentOverride → Action ResolvedPlan
  keep_published project plan [] = pure plan
  keep_published project plan ((component, _) ∷ rest) = do
    plan' ← keep_component project plan component (has_key component plan.components)
    keep_published project plan' rest

  abbrev pub require_plan : String → Option ResolvedPlan → Action ResolvedPlan
  require_plan id none = fail (
      domain_error (record (coded_error "conflict" "composition has no resolved baseline plan") {
        composition = id;
      }))
  require_plan id (some plan) = pure plan

  unfoldable pub update : String → UpdateRequest → Action Composition
  update id req = do
    require (lez (pos 1) req.expected_generation) "expected_generation must be positive"
    check (validate_preview_guards req.expected_preview_revisions (or_empty req.overrides))
    check (validate_overrides req.overrides)
    c ← query (read_composition id) (λ h. b.composition h id)
    overrides ← resolve_overrides b c.project (or_empty req.overrides)
    let resolved : UpdateRequest = record req { overrides = some overrides }
    plan ← require_plan id c.runtime.plan
    extended ← extend_each c.project resolved (copied_plan plan) (override_names overrides)
    kept ← keep_published c.project extended (or_empty c.runtime.published_overrides)
    op ← draw_id b
    let planned : UpdateRequest = record resolved { plan = some kept }
    query (update_composition id planned op) (λ h. b.update h id planned op)
