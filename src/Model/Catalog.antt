-- ===== src/Model/Catalog.antt =====
-- internal/domain/model.go, catalog.go, workload.go and messaging.go: what a project registers.
-- Ports, statuses and generations are native numbers; a limit that a client may send below zero is
-- an integer.
use envy.Common.{ℕ, ℤ, String, Bool, Option, List, Map}

pub record Project : Type 0 where
  pub id : String
  pub name : String

pub data WorkloadKind : Type 0 where
  unset http worker job scheduled_job : WorkloadKind
  other : String → WorkloadKind

pub record WorkloadExecution : Type 0 where
  pub kind : WorkloadKind
  pub dependencies : List String
  pub timeout : String
  pub retry_limit : ℤ
  pub schedule : String
  pub max_runs : ℤ
  pub concurrency_policy : String

pub record Component : Type 0 where
  pub execution : Option WorkloadExecution
  pub image_pull_secrets : List String
  pub profile : String
  pub readiness_path : String
  pub env : Map String
  pub id : String
  pub project : String
  pub protocol : String
  pub port : ℕ
  pub health_path : String
  pub overridable : Bool
  pub repository : String

pub record BaselineBinding : Type 0 where
  pub service_host : String
  pub port : ℕ
  pub image : String

pub record PreviewSelector : Type 0 where
  pub header : String

pub record BaselineRouting : Type 0 where
  pub namespace : String
  pub gateway : String
  pub gateway_namespace : String
  pub gateway_section_name : String
  pub entry_component : String
  pub preview_selector : Option PreviewSelector

pub record VerificationContract : Type 0 where
  pub kind : String
  pub chain : List String
  pub path : String
  pub expected_status : ℕ

pub record PubSubConsumer : Type 0 where
  pub subscription : String
  pub component : String
  pub subscription_env : String
  pub filter : String

pub record PubSubTopic : Type 0 where
  pub topic : String
  pub publishers : List String
  pub consumers : Map PubSubConsumer

pub record Baseline : Type 0 where
  pub pubsub : Map PubSubTopic
  pub routing : BaselineRouting
  pub verification : VerificationContract
  pub id : String
  pub project : String
  pub revision : String
  pub endpoint : String
  pub components : Map BaselineBinding

-- Times are nanoseconds; the zero time is 0.
abbrev pub Time : Type 0
Time = ℕ

pub record MessageSubscription : Type 0 where
  pub instance_name : String
  pub name : String
  pub topic : String
  pub component : String
  pub subscription_env : String
  pub filter : String
  pub retention : String
  pub expires_at : Time
  pub ready : Bool
  pub backlog_may_be_lost : Bool
