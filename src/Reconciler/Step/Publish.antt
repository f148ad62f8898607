-- ===== src/Reconciler/Step/Publish.antt =====
-- internal/reconciler/reconciler.go: `step` from the publication of routes to the end.
use envy.Common.{
  String, Bool, true, false, Option, none, some, List, [], ◌∷◌, ◌++◌, Map, lookup, get_or, has_key,
  insert, if◌then◌else◌, str_eq, ◌<>◌, update_at,
}
use envy.Model.{
  Composition, Component, ComponentOverride, ComponentObservation, ExecutionState, Phase, Platform,
  Err, Error, wrapped, error_text, baseline_pending, ResolvedPlan, Time, VerificationEvidence,
  VerificationWorkload, VerificationHop, BaselineObservation,
}
use envy.Domain.Catalog.{profiles}
use envy.Reconciler.Effects.{
  M, Oracle, Config, VerificationResult, Res, ok, failed, ask_both, catch, pure, fail, gets, modify,
  lift, clock, persist, ◌>>=◌, ◌>>◌, verify,
}
use envy.Reconciler.Snapshot.{endpoint_host}
use envy.Reconciler.Routes.{sync_routes}
use envy.Reconciler.Failure.{set_ready, set_operation, timed_out}
use envy.Reconciler.Step.Baseline.{observe_current}
use envy.Reconciler.Step.Retire.{adopt_selection, is_current, set_published, retire_routed}
use envy.Reconciler.Step.Unready.{
  set_condition, mark_routed, reset_attempts, clear_error, passed_condition, schedule_next,
}

abbrev pub set_routing : Composition → Composition
set_routing c = record c { runtime = record (c.runtime) { routing_active = true } }

module _ (p : Platform) (o : Oracle) where
  -- The intention is durable before shared routing is written.
  unfoldable pub declare_routing : M (Unit {0})
  declare_routing = do
    active ← gets (λ c. c.runtime.routing_active)
    modify set_routing
    (if active then pure tt else persist o)

  unfoldable pub publish_selection : Bool → M (Unit {0})
  publish_selection true = pure tt
  publish_selection false = do modify adopt_selection; persist o; sync_routes p o

  unfoldable pub publish_routes : M (Unit {0})
  publish_routes = do
    declare_routing
    sync_routes p o
    current ← gets is_current
    publish_selection current
    modify mark_routed

-- The plan with the profiles of the overridden components alone.
abbrev select_profiles : Map Component → Map ComponentOverride → Map Component
select_profiles all [] = []
select_profiles all ((component, _) ∷ rest) = elim (lookup component all) [
  | none ↦ select_profiles all rest
  | some profile ↦ insert component profile (select_profiles all rest)
]

abbrev no_component : Component
no_component = record {
  execution = none;
  image_pull_secrets = [];
  profile = "";
  readiness_path = "";
  env = [];
  id = "";
  project = "";
  protocol = "";
  port = 0;
  health_path = "";
  overridable = false;
  repository = "";
}

unfoldable pub plan_for_overrides : ResolvedPlan → Map ComponentOverride → ResolvedPlan
plan_for_overrides plan overrides = record plan {
  components = select_profiles (profiles plan) overrides;
  component = no_component;
}

abbrev contract_fingerprint : Platform → ResolvedPlan → String
contract_fingerprint p plan = p.digest 32 (p.encode_contract plan.baseline.verification)

abbrev observed_fingerprint : Option BaselineObservation → String
observed_fingerprint none = ""
observed_fingerprint (some b) = b.fingerprint

abbrev observed_scope : Option BaselineObservation → String
observed_scope none = ""
observed_scope (some b) = b.installation <> ("/" <> (b.project <> ("/" <> b.baseline)))

abbrev evidence_workloads :
    Map String → Map ComponentOverride → Map VerificationWorkload → Map VerificationWorkload
evidence_workloads pods [] out = out
evidence_workloads pods ((component, selected) ∷ rest) out = evidence_workloads pods rest (
    insert component (record { image = selected.image; workload_id = get_or "" component pods })
      out)

abbrev outcome : Option Err → String
outcome none = "passed"
outcome (some e) = "failed"

abbrev outcome_error : Option Err → Option Error
outcome_error none = none
outcome_error (some e) = some (record {
  code = "verification_failed";
  message = error_text e;
  retryable = false;
  project = "";
  composition = "";
})

-- What the check observed, at the two times at which the clock was read.
unfoldable pub make_evidence :
    Platform
    → ResolvedPlan
    → Map String
    → VerificationResult
    → Option Err
    → Time
    → Time
    → Composition
    → VerificationEvidence
make_evidence p plan pods result error first last c = record {
  baseline_fingerprint = observed_fingerprint c.baseline_observation;
  baseline_scope = observed_scope c.baseline_observation;
  contract_fingerprint = contract_fingerprint p plan;
  workloads = evidence_workloads pods c.overrides [];
  freshness = "";
  id = "";
  composition = c.id;
  generation = c.generation;
  kind = plan.baseline.verification.kind;
  outcome = outcome error;
  first_checked_at = first;
  last_checked_at = last;
  probes = result.probes;
  hops = result.composition;
  error = outcome_error error;
}

abbrev no_state : ComponentObservation
no_state = record {
  source = "";
  status = "";
  image = "";
  workload_id = "";
  execution_id = "";
  execution_state = ExecutionState.unreported;
}

abbrev hop_state : Bool → VerificationHop → ComponentObservation → ComponentObservation
hop_state overridden hop old = record old {
  status = "ready";
  workload_id = hop.workload_id;
  source = if overridden then old.source else "baseline";
}

-- The loop over the services that a verified request passed.
unfoldable pub record_hops : List VerificationHop → Composition → Composition
record_hops [] c = c
record_hops (hop ∷ hops) c = record_hops hops (record c {
  components =
      insert hop.service
        (hop_state (has_key hop.service c.overrides) hop (get_or no_state hop.service c.components))
        c.components;
})

abbrev set_message : String → Composition → Composition
set_message m c = record c { conditions = update_at c.conditions 2 (λ x. record x { message = m }) }

abbrev mark_verified : ResolvedPlan → Composition → Composition
mark_verified plan c =
    if str_eq plan.baseline.verification.kind "http"
    then set_condition 2
        (record {
          kind = "RouteVerified";
          status = false;
          message = "HTTP reachability does not prove context propagation or override selection";
        })
        (record c { verification_level = "reachability" })
    else record c {
      verification_level = "routing";
      conditions = update_at c.conditions 2 (λ x. record x {
        status = true;
        message = "override pod and shared baseline hops observed through ingress";
      });
    }

-- The assignments at the end of `step`, but for the next attempt and the endpoints.
unfoldable pub mark_ready : ResolvedPlan → Composition → Composition
mark_ready plan c =
    let v = mark_verified plan (record c { phase = Phase.ready }) in
    let reached = record v {
      conditions =
          v.conditions
          ++ passed_condition "IngressReachable" "baseline and composition ingress probes passed"
            ∷ [];
    } in
    reset_attempts (set_published (set_operation "succeeded" none (clear_error reached)))

module _ (p : Platform) (o : Oracle) (cfg : Config) (plan : ResolvedPlan) where
  unfoldable pub unchanged_baseline :
      String → Res (Unit {0}) → Option BaselineObservation → M (Unit {0})
  unchanged_baseline before (failed e) now = fail baseline_pending
  unchanged_baseline before (ok _) now =
      if str_eq (observed_fingerprint now) before then pure tt else fail baseline_pending

  -- The baseline must be the same after the check as before.
  unfoldable pub recheck_baseline : Option BaselineObservation → M (Unit {0})
  recheck_baseline none = pure tt
  recheck_baseline (some before) = do
    r ← catch (observe_current o plan)
    now ← gets (λ c. c.baseline_observation)
    unchanged_baseline before.fingerprint r now

  unfoldable pub store_evidence : Map String → VerificationResult → Option Err → M (Unit {0})
  store_evidence pods result error = do
    first ← clock o
    last ← clock o
    modify (λ c. record c {
      pending_verification = some (make_evidence p plan pods result error first last c);
    })

  unfoldable pub give_up_or_wait : Err → Bool → M (Unit {0})
  give_up_or_wait e give_up =
      if give_up then fail (wrapped "verify request routing" e) else modify clear_error

  -- A failed check may still pass while an operation is new.
  unfoldable pub unverified : Err → Time → M (Unit {0})
  unverified e started = do
    modify (set_message (error_text e))
    settled ← gets (λ c. str_eq c.latest_operation.status "succeeded")
    late ← (if settled then pure true else timed_out o cfg started)
    give_up_or_wait e late

  unfoldable pub become_ready : Bool → M (Unit {0})
  become_ready false = pure tt
  become_ready true = do modify (mark_ready plan); schedule_next o cfg; modify (set_ready true)

  unfoldable pub judge_verification : Time → VerificationResult → Option Err → M (Unit {0})
  judge_verification started result (some e) = unverified e started
  judge_verification started result none = do
    modify (record_hops result.composition)
    settled ← retire_routed o cfg
    become_ready settled

  unfoldable pub judge_checked : Map String → Time → VerificationResult × Option Err → M (Unit {0})
  judge_checked pods started got = do
    before ← gets (λ c. c.baseline_observation)
    recheck_baseline before
    store_evidence pods got.0 got.1
    judge_verification started got.0 got.1

  unfoldable pub verify_routes : Map String → Time → M (Unit {0})
  verify_routes pods started = do
    host ← gets (endpoint_host p)
    name ← lift host
    id ← gets (λ c. c.id)
    checked ← gets (λ c. plan_for_overrides plan c.overrides)
    got ← ask_both (verify id name pods checked) (λ h. o.verify h id name pods checked)
    judge_checked pods started got

  unfoldable pub conclude_routed : Map String → Time → M (Unit {0})
  conclude_routed pods started = do publish_routes p o; verify_routes pods started
