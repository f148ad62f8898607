-- ===== src/Model/Preview.antt =====
-- internal/domain/preview.go and builds.go: approved preview configuration and reported builds.
use envy.Common.{ℕ, String, Option, List, Map}
use envy.Model.Catalog.{Time, Component, Baseline, MessageSubscription}

pub record PreviewSelection : Type 0 where
  pub deployment : String
  pub container : String
  pub env : Map String
  pub config_map_keys : Map (Map String)

pub record PreviewDependency : Type 0 where
  pub kind : String
  pub name : String
  pub uid : String
  pub resource_version : String

pub record PreviewSource : Type 0 where
  pub namespace : String
  pub deployment : String
  pub uid : String
  pub resource_version : String
  pub generation : ℕ
  pub container : String

pub record CompositePreviewPolicy : Type 0 where
  pub revision : ℕ
  pub application_container : String
  pub sidecars : List String
  pub init_containers : List String
  pub native_sidecars : List String
  pub source_service_account : String
  pub service_account : String
  pub service_account_annotations : Map String
  pub shared_dependencies : List String
  pub max_pod_cpu : String
  pub max_pod_memory : String

pub record PreviewSnapshot : Type 0 where
  pub application_container : String
  pub composite_policy_key : String
  pub composite_policy : Option CompositePreviewPolicy
  pub mesh_budget : Map String
  pub source : PreviewSource
  pub dependencies : List PreviewDependency
  pub template_json : String
  pub selection : PreviewSelection
  pub contract : String
  pub revision : ℕ

pub record PreviewProvenance : Type 0 where
  pub shared_dependencies : List String
  pub revision : ℕ
  pub source : PreviewSource

pub record ResolvedPlan : Type 0 where
  pub message_subscriptions : List MessageSubscription
  pub previews : Map PreviewSnapshot
  pub baseline : Baseline
  pub components : Map Component
  -- legacy single-override profile
  pub component : Component

-- `Build`, the fields of the embedded `BuildReport` first.
pub record Build : Type 0 where
  pub component : String
  pub revision : String
  pub image : String
  pub run_id : String
  pub attempt : ℕ
  pub built_at : Time
  pub id : String
  pub project : String
  pub repository : String
  pub github_repository : String
  pub run_url : String
