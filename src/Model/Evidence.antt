-- ===== src/Model/Evidence.antt =====
-- internal/domain/evidence.go and baseline_observation.go: what a check observed.
use envy.Common.{ℕ, String, Option, List, Map}
use envy.Model.Errors.{Error}
use envy.Model.Catalog.{Time}

pub record VerificationWorkload : Type 0 where
  pub image : String
  pub workload_id : String

pub record VerificationProbe : Type 0 where
  pub target : String
  pub expected_status : ℕ
  pub observed_status : ℕ
  pub request_id : String

pub record VerificationHop : Type 0 where
  pub service : String
  pub version : String
  pub composition : String
  pub workload_id : String
  pub deployment_composition : String

pub record VerificationEvidence : Type 0 where
  pub baseline_fingerprint : String
  pub baseline_scope : String
  pub contract_fingerprint : String
  pub workloads : Map VerificationWorkload
  pub freshness : String
  pub id : String
  pub composition : String
  pub generation : ℕ
  pub kind : String
  pub outcome : String
  pub first_checked_at : Time
  pub last_checked_at : Time
  pub probes : List VerificationProbe
  pub hops : List VerificationHop
  pub error : Option Error

pub record BaselineServicePort : Type 0 where
  pub name : String
  pub protocol : String
  pub port : ℕ
  pub target_port : String

pub record BaselineComponentObservation : Type 0 where
  pub service_uid : String
  pub service_selector : Map String
  pub service_ports : List BaselineServicePort
  pub execution_state : String
  pub deployment_uid : String
  pub deployment_generation : ℕ
  pub template_fingerprint : String
  pub declared_images : Map String
  pub actual_image_ids : Map (List String)
  pub image_identity : String

pub record BaselineObservation : Type 0 where
  pub installation : String
  pub project : String
  pub baseline : String
  pub state : String
  pub fingerprint : String
  pub observed_at : Time
  pub components : Map BaselineComponentObservation
  pub error : Option Error
