-- ===== src/Model/Routes.antt =====
-- internal/domain/model.go and catalog.go: what the reconciler asks its providers for, and what
-- they observe.
use envy.Common.{ℕ, String, Bool, Option, List, Map, ℕ_discrete, String-discrete}
use envy.Model.Catalog.{Component}
use envy.Model.Preview.{PreviewSnapshot}
use envy.Model.Compositions.{ExecutionRef, ExecutionState}

pub record WorkloadSpec : Type 0 where
  pub execution : Option ExecutionRef
  pub schedule_active : Bool
  pub desired_components : List String
  pub baseline_namespace : String
  pub messaging_env : Map String
  pub preview : Option PreviewSnapshot
  pub previews : Map PreviewSnapshot
  pub composition_id : String
  pub project_id : String
  pub component_id : String
  pub image : String
  pub ownership_token : String
  pub profile : Component
  pub workload_count : ℕ

pub record WorkloadObservation : Type 0 where
  pub state : ExecutionState
  pub runs : ℕ
  pub ready : Bool
  pub failed : Bool
  pub message : String
  pub image : String
  pub workload_id : String

pub record RouteDomain : Type 0 where
  pub namespace : String
  pub gateway : String
  pub service_host : String
  pub aggregate_name : String
  pub gateway_namespace : String
  pub gateway_section_name : String
  pub port : ℕ

pub record RouteEntry : Type 0 where
  pub message_isolation : Bool
  pub domain : RouteDomain
  pub composition_id : String
  pub host : String
  pub destination_host : String
  pub ownership_token : String
  pub selector_header : String
  pub port : ℕ

pub record RouteSnapshot : Type 0 where
  pub domains : List RouteDomain
  pub mesh_entries : List RouteEntry
  pub ingress_entries : List RouteEntry
  pub selector_entries : List RouteEntry
  pub owned_compositions : Map String

pub record RouteObservation : Type 0 where
  pub ready : Bool
  pub message : String

unfoldable pub RouteSnapshot-discrete : Discrete RouteSnapshot
RouteSnapshot-discrete = hlevel (ℕ_discrete, String-discrete)
