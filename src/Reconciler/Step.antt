-- ===== src/Reconciler/Step.antt =====
-- internal/reconciler/reconciler.go: `step`.
pub mod Baseline
pub mod Messaging
pub mod Workloads
pub mod Retire
pub mod Unready
pub mod Publish
use envy.Common.{
  ℕ, String, Bool, true, false, not, ◌||◌, Option, none, some, List, [], ◌∷◌, if◌then◌else◌, str_eq,
  length, ltb,
}
use envy.Model.{Composition, Platform, Err, plain, ResolvedPlan, Time}
use envy.Domain.Catalog.{override_names, max_overrides}
use envy.Reconciler.Effects.{M, Oracle, Config, pure, fail, gets, modify, ◌>>=◌, ◌>>◌}
use envy.Reconciler.Routes.{sync_routes}
use envy.Reconciler.Failure.{waiting_condition, started_at}
use envy.Reconciler.Destroy.{destroy}
use Baseline.{begin_step, observe_current}
use Messaging.{prepare_messaging}
use Workloads.{Progress, visit_components}
use Unready.{set_condition, workloads_condition, conclude_unready, conclude_endpoint_free}
use Publish.{conclude_routed}

-- The three conditions that every composition has.
abbrev pub reset_conditions : Composition → Composition
reset_conditions c = record c {
  conditions =
      waiting_condition "WorkloadsReady" ""
      ∷ waiting_condition "RoutesConfigured" ""
      ∷ waiting_condition "RouteVerified" ""
      ∷ [];
}

abbrev pub no_progress : ResolvedPlan → Progress
no_progress plan = record {
  all_ready = true;
  all_completed = true;
  any_suspended = false;
  waiting_for_other = false;
  has_endpoint = not (str_eq plan.baseline.verification.kind "none");
  failed = false;
  messages = [];
  failures = [];
  pods = [];
}

module _ (p : Platform) (o : Oracle) (cfg : Config) where
  unfoldable pub conclude : ResolvedPlan → Time → Progress → M (Unit {0})
  conclude plan started g =
      if not g.all_ready
      then conclude_unready o cfg (sync_routes p o) g started
      else if not g.has_endpoint
      then conclude_endpoint_free o cfg g
      else conclude_routed p o cfg plan g.pods started

  unfoldable pub run_overrides : ResolvedPlan → Time → List String → M (Unit {0})
  run_overrides plan started names = do
    modify reset_conditions
    prepare_messaging o plan
    g ← visit_components p o names plan names (no_progress plan)
    modify (set_condition 0 (workloads_condition g))
    conclude plan started g

  unfoldable pub run_plan : Time → Option ResolvedPlan → M (Unit {0})
  run_plan started none = fail (plain "persisted composition has no resolved catalog plan")
  run_plan started (some plan) = do
    observe_current o plan
    names ← gets (λ c. override_names c.overrides)
    (if ltb max_overrides (length names)
        then fail (plain "persisted overrides and profiles do not match")
        else run_overrides plan started names)

  unfoldable pub provision : M (Unit {0})
  provision = do
    modify begin_step
    started ← gets started_at
    plan ← gets (λ c. c.runtime.plan)
    run_plan started plan

  unfoldable pub step : M (Unit {0})
  step = do
    deleting ← gets (λ c. c.deletion_requested)
    (if deleting then destroy p o cfg else provision)
