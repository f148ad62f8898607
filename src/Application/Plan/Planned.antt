-- ===== src/Application/Plan/Planned.antt =====
-- internal/application/onboarding_plan.go: what `PlanCreate` reports, and what it asks for.
use envy.Common.{
  ◌==◌, length, ℕ, ◌≡◌, String, true, false, not, ◌&&◌, some, [], ◌∷◌, map, Map, has_key,
}
use envy.Model.{
  Baseline, ComponentOverride, CreateRequest, PreviewPlan, PlanningBlocker, Platform, Err, Error,
  domain_error, error_text,
}
use envy.Domain.Catalog.{override_names}
use envy.Domain.Messaging.{passed, refused}
use envy.Application.Requests.{normalize_create, or_empty}
use envy.Application.Lookups.{is_read}
use envy.Application.Resolutions.{Resolution}
use envy.Application.Backend.{Backend, Config, Formats, Query, History, failed}
use envy.Application.Prepare.{Preparation, prepare_create}
use envy.Application.Builds.{resolve_overrides}
use envy.Application.Previews.{planning_blocker}
use envy.Application.Prepare.Prepared.{IsPrepared}
use envy.Application.Plan.Selected.{selected_names, planned_for}
use envy.Application.Plan.{matching_component}

module _ (p : Platform) (f : Formats) (b : Backend) (cfg : Config) where
  -- Why a creation is not accepted: the request has no canonical form, its overrides did not
  -- resolve, or it could not be prepared. The reason is what became of the error.
  pub data IsRefusal (input : CreateRequest) (reason : PlanningBlocker) : Type 0 where
    malformed :
        (e : Error)
        → normalize_create p f cfg input ≡ refused e
        → reason ≡ planning_blocker f (domain_error e) "" "request"
        → IsRefusal input reason
    unresolved :
        (normal : CreateRequest) (ttl : ℕ) (h : History) (e : Err)
        → normalize_create p f cfg input ≡ passed (normal, ttl)
        → (resolve_overrides b normal.project (or_empty normal.overrides) h).0 ≡ failed e
        → reason ≡ planning_blocker f e "" "build registry"
        → IsRefusal input reason
    unprepared :
        (normal : CreateRequest) (ttl : ℕ) (overrides : Map ComponentOverride) (h : History)
        (e : Err)
        → normalize_create p f cfg input ≡ passed (normal, ttl)
        → Resolution b normal.project (or_empty normal.overrides) overrides
        → (prepare_create p f b cfg (record normal { overrides = some overrides }) h).0 ≡ failed e
        → reason
          ≡ planning_blocker f e
              (matching_component (error_text e) (length overrides == 1) (override_names overrides))
              "catalog and source cluster"
        → IsRefusal input reason

  -- A plan that gives the one reason for which the creation is not accepted.
  pub record IsBlocked (input : CreateRequest) (plan : PreviewPlan) : Type 0 where
    unready : plan.ready ≡ false
    unselected : plan.selected ≡ []
    reason : PlanningBlocker
    refusal : IsRefusal input reason
    alone : plan.blockers ≡ reason ∷ []

  -- A plan for a request whose canonical form was prepared, its overrides resolved, as a creation
  -- prepares it: it lists the overridden components, and the bindings of the baseline that stay.
  pub record IsOpen (input : CreateRequest) (plan : PreviewPlan) : Type 0 where
    normal : CreateRequest
    ttl : ℕ
    canonical : normalize_create p f cfg input ≡ passed (normal, ttl)
    overrides : Map ComponentOverride
    base : Baseline
    prepared : Preparation
    resolution : Resolution b normal.project (or_empty normal.overrides) overrides
    accepted : IsPrepared p f b cfg (record normal { overrides = some overrides }) base prepared
    ready : plan.ready ≡ true
    unblocked : plan.blockers ≡ []
    revision : plan.baseline_revision ≡ base.revision
    selected : selected_names plan ≡ override_names overrides
    planned : plan.selected ≡ map (planned_for overrides prepared) (override_names overrides)
    inherited :
        (name : String)
        → has_key name plan.inherited
          ≡ (has_key name base.components && not (has_key name overrides))

  pub data IsPlan (input : CreateRequest) (plan : PreviewPlan) : Type 0 where
    is_blocked : IsBlocked input plan → IsPlan input plan
    is_open : IsOpen input plan → IsPlan input plan

  record IsFirst (plan : PreviewPlan) : Type 0 where
    unready : plan.ready ≡ false
    unselected : plan.selected ≡ []
    unblocked : plan.blockers ≡ []

  abbrev Reads : Query → Type 0
  Reads q = is_read q ≡ true
