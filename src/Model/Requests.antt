-- ===== src/Model/Requests.antt =====
-- internal/domain/model.go, preview.go, builds.go and onboarding_plan.go: what clients ask for, and
-- the records that the service answers from. Revisions and generations that a client sends may be
-- below zero, so they are integers; those that the store counts are natural numbers.
use envy.Common.{ℕ, ℤ, String, Bool, Option, List, Map}
use envy.Model.Catalog.{Time, WorkloadKind, BaselineBinding}
use envy.Model.Preview.{
  PreviewSelection, PreviewDependency, PreviewSource, PreviewSnapshot, ResolvedPlan,
}
use envy.Model.Compositions.{ComponentOverride}

pub record ResourceOverride : Type 0 where
  pub strategy : String
  pub source : String

-- Nil overrides differ from none, so they are an `Option`.
pub record CreateRequest : Type 0 where
  pub message_isolation : Bool
  pub expected_preview_revisions : Map ℤ
  pub expected_baseline_revision : String
  pub project : String
  pub baseline : String
  pub name : String
  pub overrides : Option (Map ComponentOverride)
  pub resources : Map ResourceOverride
  pub ttl : String

pub record UpdateRequest : Type 0 where
  pub expected_preview_revisions : Map ℤ
  pub expected_generation : ℤ
  pub overrides : Option (Map ComponentOverride)
  pub idempotency_key : String
  pub plan : Option ResolvedPlan

pub record PlanningBlocker : Type 0 where
  pub code : String
  pub component : String
  pub source : String
  pub message : String
  pub next_action : String

-- What a discovery reports, less the settings that it only shows.
pub record PreviewReport : Type 0 where
  pub source : PreviewSource
  pub selection : PreviewSelection
  pub inspection : String
  pub contract : String
  pub dependencies : List PreviewDependency
  pub blockers : List String
  pub findings : List PlanningBlocker
  pub snapshot : PreviewSnapshot

pub record PreviewApproval : Type 0 where
  pub selection : PreviewSelection
  pub inspection : String
  pub expected_revision : ℤ
  pub confirm_connectivity : Bool

pub record PreviewProfile : Type 0 where
  pub project : String
  pub baseline : String
  pub component : String
  pub revision : ℕ
  pub selection : PreviewSelection
  pub source_uid : String
  pub contract : String
  pub dependencies : List PreviewDependency

pub record SourceRepository : Type 0 where
  pub project : String
  pub id : String
  pub github_repository : String
  pub installation_id : ℤ
  pub enabled : Bool
  pub images : Map String

-- `BuildReport`, as a pipeline sends it.
pub record BuildReport : Type 0 where
  pub component : String
  pub revision : String
  pub image : String
  pub run_id : String
  pub attempt : ℤ
  pub built_at : Time

pub record PlannedWorkload : Type 0 where
  pub component : String
  pub kind : WorkloadKind
  pub image : String
  pub immutable : Bool
  pub build_id : String
  pub profile_revision : ℕ
  pub dependencies : List String
  pub shared_dependencies : List String
  pub service_account : String
  pub pod_cpu_ceiling : String
  pub pod_memory_ceiling : String

pub record PreviewPlan : Type 0 where
  pub ready : Bool
  pub project : String
  pub baseline : String
  pub baseline_revision : String
  pub installation : String
  pub namespace : String
  pub gateway : String
  pub lifetime : String
  pub verification_level : String
  pub resource_demand : String
  pub message_isolation : Bool
  pub selected : List PlannedWorkload
  pub inherited : Map BaselineBinding
  pub expected_preview_revisions : Map ℕ
  pub blockers : List PlanningBlocker
  pub cautions : List PlanningBlocker
