-- ===== src/Model/Compositions.antt =====
-- internal/domain/model.go: a composition, its desired state, its durable runtime state and what
-- was observed of it. Of the operation's initiator nothing is read.
use envy.Common.{ℕ, String, Bool, Option, List, Map, ℕ_discrete, String-discrete}
use envy.Model.Errors.{Error}
use envy.Model.Catalog.{Time, WorkloadKind, MessageSubscription}
use envy.Model.Preview.{Build, PreviewProvenance, ResolvedPlan}
use envy.Model.Evidence.{BaselineObservation, VerificationEvidence}

pub data Phase : Type 0 where
  created provisioning ready completed suspended cancelled : Phase
  updating failed destroying destroyed : Phase

pub data ExecutionState : Type 0 where
  -- the empty text
  unreported : ExecutionState
  pending running ready succeeded failed suspended cancelled : ExecutionState

pub record ComponentOverride : Type 0 where
  pub image : String
  pub build_id : String
  pub source : Option Build

pub record ComponentObservation : Type 0 where
  pub source : String
  pub status : String
  pub image : String
  pub workload_id : String
  pub execution_id : String
  pub execution_state : ExecutionState

pub record Endpoint : Type 0 where
  pub url : String
  pub ready : Bool

pub record Condition : Type 0 where
  pub kind : String
  pub status : Bool
  pub message : String

pub record Operation : Type 0 where
  pub id : String
  pub kind : String
  pub status : String
  pub error : Option Error

pub record ExecutionRef : Type 0 where
  pub id : String
  pub provider_id : String
  pub spec_hash : String
  pub generation : ℕ
  pub runs : ℕ
  pub state : ExecutionState
  pub started_at : Time
  pub finished_at : Time

pub record WorkloadRef : Type 0 where
  pub kind : WorkloadKind
  pub namespace : String
  pub namespace_uid : String
  pub deployment : String
  pub deployment_uid : String
  pub service : String
  pub service_uid : String
  pub job : String
  pub job_uid : String
  pub cron_job : String
  pub cron_job_uid : String
  pub ownership_token : String
  pub deployment_generation : ℕ
  pub max_runs : ℕ
  pub image : String
  pub execution_fingerprint : String

-- A nil map of published overrides differs from an empty one, so it is an `Option`.
pub record RuntimeState : Type 0 where
  pub executions : Map ExecutionRef
  pub messaging_observed : Map Bool
  pub plan : Option ResolvedPlan
  pub deletion_reason : String
  pub provision_started_at : Time
  pub ownership_token : String
  pub workloads : Map WorkloadRef
  pub published_overrides : Option (Map ComponentOverride)
  pub retiring_workloads : Map WorkloadRef
  pub retirement_drain_until : Option Time
  pub workload : WorkloadRef
  pub routing_active : Bool
  pub routes_removed : Bool
  pub drain_until : Option Time
  pub attempts : ℕ
  pub next_attempt_at : Time

pub record Composition : Type 0 where
  pub pending_verification : Option VerificationEvidence
  pub baseline_observation : Option BaselineObservation
  pub pr_preview_id : String
  pub message_isolation : Bool
  pub message_subscriptions : List MessageSubscription
  pub preview_profiles : Option (Map PreviewProvenance)
  pub verification_level : String
  pub id : String
  pub project : String
  pub baseline : String
  pub baseline_revision : String
  pub name : String
  pub overrides : Map ComponentOverride
  pub generation : ℕ
  pub observed_generation : ℕ
  pub phase : Phase
  pub expires_at : Time
  pub created_at : Time
  pub updated_at : Time
  pub components : Map ComponentObservation
  pub endpoints : Map Endpoint
  pub conditions : List Condition
  pub latest_operation : Operation
  pub last_error : Option Error
  pub deletion_requested : Bool
  pub runtime : RuntimeState

unfoldable pub Phase-discrete : Discrete Phase
Phase-discrete = hlevel

unfoldable pub ExecutionState-discrete : Discrete ExecutionState
ExecutionState-discrete = hlevel

unfoldable pub ComponentOverride-discrete : Discrete ComponentOverride
ComponentOverride-discrete = hlevel (ℕ_discrete, String-discrete)
