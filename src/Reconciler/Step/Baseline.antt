-- ===== src/Reconciler/Step/Baseline.antt =====
-- internal/reconciler/reconciler.go: the start of `step`, and `observeBaseline`.
use envy.Common.{true, false, Option, none, some, [], if◌then◌else◌, str_eq, ◌==◌, Map}
use envy.Model.{
  Composition, Phase, Err, ResolvedPlan, BaselineObservation, baseline_pending, error_text, Time,
  Baseline, ComponentOverride,
}
use envy.Reconciler.Effects.{
  M, History, Oracle, ask_both, pure, fail, gets, modify, clock, ◌>>=◌, ◌>>◌, observe_baseline,
}
use envy.Reconciler.Failure.{set_ready, set_operation}

-- An operation that has not succeeded is running.
abbrev mark_running : Composition → Composition
mark_running c =
    if str_eq c.latest_operation.status "succeeded" then c else set_operation "running" none c

-- The assignments of `step` before its first call.
unfoldable pub begin_step : Composition → Composition
begin_step c =
    let phase =
      if str_eq c.latest_operation.kind "update" then Phase.updating else Phase.provisioning in
    mark_running (set_ready false (record c { phase = phase }))

unfoldable pub set_observation : BaselineObservation → Composition → Composition
set_observation b c = record c { baseline_observation = some b }

abbrev unavailable : Composition → BaselineObservation → Err → Time → BaselineObservation
unavailable c seen e now = record {
  installation = seen.installation;
  project = c.project;
  baseline = c.baseline;
  state = "unavailable";
  fingerprint = "";
  observed_at = now;
  components = [];
  error = some (record {
    code = "unavailable";
    message = error_text e;
    retryable = true;
    project = "";
    composition = "";
  });
}

module _ (o : Oracle) where
  -- The time of an observation that has none is now.
  unfoldable pub stamp : BaselineObservation → M BaselineObservation
  stamp b =
      if b.observed_at == 0
      then (clock o >>= λ now. pure (record b { observed_at = now }))
      else pure b

  unfoldable pub record_baseline : BaselineObservation → Option Err → M (Unit {0})
  record_baseline seen none = do b ← stamp seen; modify (set_observation b)
  record_baseline seen (some e) = do
    now ← clock o
    modify (λ c. set_observation (unavailable c seen e now) c)
    fail baseline_pending

  -- A runtime that does not observe baselines leaves the observation as it is.
  unfoldable pub observe_with :
      Option (History → Baseline → Map ComponentOverride → BaselineObservation × Option Err)
      → ResolvedPlan
      → M (Unit {0})
  observe_with none plan = pure tt
  observe_with (some observer) plan = do
    overrides ← gets (λ c. c.overrides)
    seen ←
        ask_both (observe_baseline plan.baseline overrides)
          (λ h. observer h plan.baseline overrides)
    record_baseline seen.0 seen.1

  unfoldable pub observe_current : ResolvedPlan → M (Unit {0})
  observe_current plan =
      if str_eq plan.baseline.verification.kind "none"
      then pure tt
      else observe_with o.observe_baseline plan
