-- ===== src/Reconciler/Step/Workloads.antt =====
-- internal/reconciler/reconciler.go: the loop of `step` over the overridden components.
pub mod Identity
use envy.Common.{
  ℕ, max, String, Bool, false, not, ◌&&◌, ◌||◌, Option, none, some, List, [], ◌∷◌, ◌++◌, Map,
  lookup, get_or, insert, if◌then◌else◌, str_eq, ◌<>◌, length, is_some, holds,
}
use envy.Model.{
  Composition, Component, ComponentOverride, ComponentObservation, ExecutionRef, ExecutionState,
  ExecutionState-discrete, WorkloadRef, WorkloadObservation, WorkloadSpec, ResolvedPlan, Platform,
  Err, plain, wrapped, error_text,
}
use envy.Domain.Catalog.{profiles}
use envy.Domain.Workload.{workload_kind, has_endpoint, is_finite, is_scheduled, execution_id}
use envy.Domain.Messaging.Resolve.{messaging_environment}
use envy.Reconciler.Effects.{
  M, Oracle, ask_both, pure, fail, gets, modify, persist, ◌>>=◌, ◌>>◌, ensure, observe,
}

-- What the loop has gathered: `allReady`, `allCompleted`, `anySuspended`, `waitingForOther`,
-- `hasEndpoint`, `failed`, `messages`, `failures` and `pods`.
pub record Progress : Type 0 where
  pub all_ready : Bool
  pub all_completed : Bool
  pub any_suspended : Bool
  pub waiting_for_other : Bool
  pub has_endpoint : Bool
  pub failed : Bool
  pub messages : List String
  pub failures : List Err
  pub pods : Map String

abbrev pub is_state : ExecutionState → ExecutionState → Bool
is_state s t = holds (ExecutionState-discrete s t)

-- The text of a state.
abbrev pub state_text : ExecutionState → String
state_text ExecutionState.unreported = ""
state_text ExecutionState.pending = "pending"
state_text ExecutionState.running = "running"
state_text ExecutionState.ready = "ready"
state_text ExecutionState.succeeded = "succeeded"
state_text ExecutionState.failed = "failed"
state_text ExecutionState.suspended = "suspended"
state_text ExecutionState.cancelled = "cancelled"

abbrev pub fresh_execution : String × String → ℕ → ExecutionRef
fresh_execution identity generation = record {
  id = identity.0;
  provider_id = "";
  spec_hash = identity.1;
  generation = generation;
  runs = 0;
  state = ExecutionState.pending;
  started_at = 0;
  finished_at = 0;
}

-- An execution that must not be replaced yet.
abbrev pub is_active : Component → ExecutionState → Bool
is_active profile s =
    is_state s ExecutionState.pending
    || is_state s ExecutionState.running
    || is_scheduled (workload_kind profile) && is_state s ExecutionState.ready

unfoldable pub set_execution : String → ExecutionRef → Composition → Composition
set_execution component e c = record c {
  runtime = record (c.runtime) { executions = insert component e c.runtime.executions };
}

abbrev pub no_execution : ExecutionRef
no_execution = record {
  id = "";
  provider_id = "";
  spec_hash = "";
  generation = 0;
  runs = 0;
  state = ExecutionState.unreported;
  started_at = 0;
  finished_at = 0;
}

abbrev pub no_override : ComponentOverride
no_override = record { image = ""; build_id = ""; source = none }

-- `WorkloadObservation{}`
abbrev pub no_observation : WorkloadObservation
no_observation = record {
  state = ExecutionState.unreported;
  runs = 0;
  ready = false;
  failed = false;
  message = "";
  image = "";
  workload_id = "";
}

module _ (p : Platform) (o : Oracle) where
  -- The identity is durable before the provider can create a Job.
  unfoldable pub start_execution : String → String × String → M ExecutionRef
  start_execution component identity = do
    generation ← gets (λ c. c.generation)
    let e = fresh_execution identity generation
    modify (set_execution component e)
    persist o
    pure e

  unfoldable pub replace_execution :
      String → Component → String × String → ExecutionRef → M ExecutionRef
  replace_execution component profile identity persisted =
      if str_eq persisted.spec_hash identity.1
      then pure persisted
      else if is_active profile persisted.state
      then fail (
          plain (
            "cannot replace active Job "
            <> (component <> "; wait for it to finish or delete the composition")))
      else start_execution component identity

  unfoldable pub find_execution :
      String → Component → String × String → Option ExecutionRef → M ExecutionRef
  find_execution component profile identity none = start_execution component identity
  find_execution component profile identity (some persisted) =
      replace_execution component profile identity persisted

  unfoldable pub identify_finite : String → Component → String → M (Option ExecutionRef)
  identify_finite component profile image = do
    persisted ← gets (λ c. lookup component c.runtime.executions)
    e ← find_execution component profile (execution_id p profile image) persisted
    pure (some e)

  -- The execution of a Job or a scheduled Job, none for other kinds.
  unfoldable pub identify : String → Component → String → M (Option ExecutionRef)
  identify component profile image =
      if is_finite (workload_kind profile)
      then identify_finite component profile image
      else pure none

abbrev published_count : Option (Map ComponentOverride) → ℕ
published_count none = 0
published_count (some m) = length m

-- What the runtime is asked for.
unfoldable pub workload_spec :
    List String
    → ResolvedPlan
    → String
    → Component
    → String
    → Option ExecutionRef
    → Composition
    → WorkloadSpec
workload_spec names plan component profile image execution c = record {
  execution = execution;
  schedule_active = false;
  desired_components = names;
  baseline_namespace = plan.baseline.routing.namespace;
  messaging_env =
      messaging_environment plan.baseline component c.message_isolation c.message_subscriptions;
  preview = lookup component plan.previews;
  previews = plan.previews;
  composition_id = c.id;
  project_id = c.project;
  component_id = component;
  image = image;
  ownership_token = c.runtime.ownership_token;
  profile = profile;
  workload_count = max 1 (max (length names) (published_count c.runtime.published_overrides));
}

unfoldable pub set_workload : String → WorkloadRef → Composition → Composition
set_workload component ref c = if str_eq ref.namespace "" then c else record c {
  runtime = record (c.runtime) { workloads = insert component ref c.runtime.workloads };
}

-- The state of an execution that reports none is pending.
abbrev pub known_state : ExecutionState → ExecutionState
known_state ExecutionState.unreported = ExecutionState.pending
known_state s = s

abbrev pub ready_status : Option ExecutionRef → WorkloadObservation → String
ready_status execution seen =
    if is_some execution && is_state seen.state ExecutionState.succeeded
    then "succeeded"
    else "ready"

abbrev waiting_status : Option ExecutionRef → WorkloadObservation → String
waiting_status none seen = "provisioning"
waiting_status (some _) seen = state_text (known_state seen.state)

abbrev execution_name : Option ExecutionRef → String
execution_name none = ""
execution_name (some e) = e.id

abbrev execution_state : Option ExecutionRef → WorkloadObservation → ExecutionState
execution_state none seen = ExecutionState.unreported
execution_state (some _) seen = known_state seen.state

-- What is reported of the component.
unfoldable pub component_state :
    String → Option ExecutionRef → WorkloadObservation → ComponentObservation
component_state image execution seen = record {
  source = "override";
  status = if seen.ready then ready_status execution seen else waiting_status execution seen;
  image = if str_eq seen.image "" then image else seen.image;
  workload_id = seen.workload_id;
  execution_id = execution_name execution;
  execution_state = execution_state execution seen;
}

abbrev provider_id : WorkloadRef → String
provider_id ref = if str_eq ref.cron_job_uid "" then ref.job_uid else ref.cron_job_uid

unfoldable pub update_execution :
    String → WorkloadRef → WorkloadObservation → Option ExecutionRef → Composition → Composition
unfolding set_execution
update_execution component ref seen none c = c
update_execution component ref seen (some _) c =
    set_execution component
      (record (get_or no_execution component c.runtime.executions) {
        state = known_state seen.state;
        runs = seen.runs;
        provider_id = provider_id ref;
      })
      c

-- `c.Components[component] = state` and the component's condition.
unfoldable pub report :
    String → ComponentObservation → WorkloadObservation → Composition → Composition
report component state seen c = record c {
  components = insert component state c.components;
  conditions =
      c.conditions
      ++ record {
        kind = "WorkloadReady/" <> component;
        status = seen.ready;
        message = seen.message;
      }
        ∷ [];
}

abbrev tally_ready : String → WorkloadObservation → Progress → Progress
tally_ready component seen g =
    if seen.ready then record g { pods = insert component seen.workload_id g.pods } else record g {
      all_ready = false;
      any_suspended = g.any_suspended || is_state seen.state ExecutionState.suspended;
      waiting_for_other = g.waiting_for_other || not (is_state seen.state ExecutionState.suspended);
      messages = g.messages ++ (component <> (": " <> seen.message)) ∷ [];
    }

-- What the loop gathers of one component.
unfoldable pub tally :
    String
    → Component
    → Option ExecutionRef
    → Option Err
    → WorkloadObservation
    → Progress
    → Progress
tally component profile execution error seen g =
    let h = tally_ready component seen g in
    record h {
      has_endpoint = g.has_endpoint || has_endpoint profile;
      failed = g.failed || seen.failed;
      all_completed =
          g.all_completed
          && not (is_some execution && not (is_state seen.state ExecutionState.succeeded));
      failures = elim error [ none ↦ g.failures | some e ↦ g.failures ++ wrapped component e ∷ [] ];
    }

-- The observation, with the message of an error in it.
abbrev explain : Option Err → WorkloadObservation → WorkloadObservation
explain none seen = seen
explain (some e) seen = record seen { message = error_text e }

module _ (p : Platform) (o : Oracle) (names : List String) (plan : ResolvedPlan) where
  -- `Observe`, unless `Ensure` failed.
  unfoldable pub observe_workload : WorkloadRef → Option Err → M (WorkloadObservation × Option Err)
  observe_workload ref (some e) = pure (no_observation, some e)
  observe_workload ref none = ask_both (observe ref) (λ h. o.observe h ref)

  unfoldable pub record_workload :
      String
      → Component
      → String
      → Option ExecutionRef
      → WorkloadRef
      → WorkloadObservation × Option Err
      → Progress
      → M Progress
  record_workload component profile image execution ref got g = do
    let seen = explain got.1 got.0
    modify (update_execution component ref seen execution)
    modify (report component (component_state image execution seen) seen)
    pure (tally component profile execution got.1 seen g)

  unfoldable pub run_component : String → Component → Progress → M Progress
  run_component component profile g = do
    override ← gets (λ c. get_or no_override component c.overrides)
    execution ← identify p o component profile override.image
    spec ← gets (workload_spec names plan component profile override.image execution)
    made ← ask_both (ensure spec) (λ h. o.ensure h spec)
    modify (set_workload component made.0)
    got ← observe_workload made.0 made.1
    record_workload component profile override.image execution made.0 got g

  unfoldable pub visit_profile : String → Option Component → Progress → M Progress
  visit_profile component none g = fail (plain ("missing resolved profile for " <> component))
  visit_profile component (some profile) g =
      if str_eq profile.id component
      then run_component component profile g
      else fail (plain ("missing resolved profile for " <> component))

  -- The body of the loop.
  unfoldable pub visit_component : String → Progress → M Progress
  visit_component component g = visit_profile component (lookup component (profiles plan)) g

  unfoldable pub visit_components : List String → Progress → M Progress
  visit_components [] g = pure g
  visit_components (component ∷ rest) g = do
    g' ← visit_component component g
    visit_components rest g'
