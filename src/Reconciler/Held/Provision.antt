-- ===== src/Reconciler/Held/Provision.antt =====
-- The parts of `step` that observe, prepare and run workloads leave the desired state and the
-- endpoints as they are.
use envy.Common.{◌≡◌, Option, none, some, refl, arith, List, [], ◌∷◌, String, Map}
use envy.Model.{
  Composition, Platform, ResolvedPlan, WorkloadRef, BaselineObservation, Err, Baseline,
  ComponentOverride, MessageSubscription, Component, ExecutionRef, WorkloadObservation,
}
use envy.Reconciler.Effects.{Oracle, Messaging, History, Res, ok, failed}
use envy.Reconciler.Keeps.{Keeps, Calm}
use envy.Reconciler.Intent.{held}
use envy.Reconciler.Held.{held_rules, held-modify, held-ask, held-ask_both}
use envy.Reconciler.Step.Baseline
use envy.Reconciler.Step.Messaging
use envy.Reconciler.Step.Workloads
use envy.Reconciler.Step.Workloads.{Progress}

module _ (o : Oracle) where
  stamp-Held : (b : BaselineObservation) → Keeps (Calm held) (Baseline.stamp o b)
  unfolding Baseline.stamp
  stamp-Held b = search held_rules

  record_baseline-Held :
      (b : BaselineObservation) (e : Option Err)
      → Keeps (Calm held) (Baseline.record_baseline o b e)
  unfolding Baseline.record_baseline Baseline.set_observation held
  record_baseline-Held b none = search (held_rules, stamp-Held, held-modify)
  record_baseline-Held b (some e) = search (held_rules, held-modify) depth 7

  observe_with-Held :
      (f : Option (History → Baseline → Map ComponentOverride → BaselineObservation × Option Err))
      (plan : ResolvedPlan)
      → Keeps (Calm held) (Baseline.observe_with o f plan)
  unfolding Baseline.observe_with
  observe_with-Held none plan = search held_rules
  observe_with-Held (some f) plan =
      search (held_rules, held-ask_both, record_baseline-Held, tt) depth 7

  pub observe_current-Held :
      (plan : ResolvedPlan) → Keeps (Calm held) (Baseline.observe_current o plan)
  unfolding Baseline.observe_current
  observe_current-Held plan = search (held_rules, observe_with-Held)

  confirm-Held : (s : Option String) → Keeps (Calm held) (Messaging.confirm o s)
  unfolding Messaging.confirm Messaging.confirm_messaging held
  confirm-Held none = search (held_rules, held-modify)
  confirm-Held (some s) = search held_rules

  check_ready-Held :
      (e : Option Err) (subs : List MessageSubscription)
      → Keeps (Calm held) (Messaging.check_ready o e subs)
  unfolding Messaging.check_ready
  check_ready-Held none subs = confirm-Held _
  check_ready-Held (some e) subs = search held_rules

  ensure_subscriptions-Held :
      (m : Messaging) (plan : ResolvedPlan)
      → Keeps (Calm held) (Messaging.ensure_subscriptions o m plan)
  unfolding Messaging.ensure_subscriptions Messaging.store_subscriptions held
  ensure_subscriptions-Held m plan =
      search (held_rules, held-ask_both, held-modify, check_ready-Held, tt) depth 9

  validated-Held : (r : Res (Unit {0})) → Keeps (Calm held) (Messaging.validated o r)
  unfolding Messaging.validated held
  validated-Held (ok _) = search held_rules
  validated-Held (failed e) = search (held_rules, held-modify)

  prepare_by-Held :
      (m : Option Messaging) (plan : ResolvedPlan)
      → Keeps (Calm held) (Messaging.prepare_by o m plan)
  unfolding Messaging.prepare_by Messaging.prepare_with
  prepare_by-Held none plan = search held_rules
  prepare_by-Held (some m) plan =
      search (held_rules, held-ask, validated-Held, ensure_subscriptions-Held, tt) depth 7

  pub prepare_messaging-Held :
      (plan : ResolvedPlan) → Keeps (Calm held) (Messaging.prepare_messaging o plan)
  unfolding Messaging.prepare_messaging Messaging.prepare_isolated held
  prepare_messaging-Held plan = search (held_rules, held-modify, prepare_by-Held) depth 7

module _ (p : Platform) (o : Oracle) where
  start_execution-Held :
      (component : String) (identity : String × String)
      → Keeps (Calm held) (Workloads.start_execution p o component identity)
  unfolding Workloads.start_execution Workloads.set_execution held
  start_execution-Held component identity = search (held_rules, held-modify) depth 9

  find_execution-Held :
      (component : String) (profile : Component) (identity : String × String)
      (e : Option ExecutionRef)
      → Keeps (Calm held) (Workloads.find_execution p o component profile identity e)
  unfolding Workloads.find_execution Workloads.replace_execution
  find_execution-Held component profile identity none = start_execution-Held component identity
  find_execution-Held component profile identity (some e) =
      search (held_rules, start_execution-Held)

  identify-Held :
      (component : String) (profile : Component) (image : String)
      → Keeps (Calm held) (Workloads.identify p o component profile image)
  unfolding Workloads.identify Workloads.identify_finite
  identify-Held component profile image = search (held_rules, find_execution-Held) depth 7

module _ (p : Platform) (o : Oracle) (names : List String) (plan : ResolvedPlan) where
  set_workload-held :
      (component : String) (ref : WorkloadRef) (c : Composition)
      → held (Workloads.set_workload component ref c) ≡ held c
  unfolding Workloads.set_workload held
  set_workload-held component ref c = ground arith

  update_execution-held :
      (component : String) (ref : WorkloadRef) (seen : WorkloadObservation)
      (e : Option ExecutionRef) (c : Composition)
      → held (Workloads.update_execution component ref seen e c) ≡ held c
  unfolding Workloads.update_execution held
  update_execution-held component ref seen none c = refl
  update_execution-held component ref seen (some e) c = refl

  observe_workload-Held :
      (ref : WorkloadRef) (e : Option Err)
      → Keeps (Calm held) (Workloads.observe_workload p o names plan ref e)
  unfolding Workloads.observe_workload
  observe_workload-Held ref none = search (held-ask_both, tt)
  observe_workload-Held ref (some e) = search held_rules

  record_workload-Held :
      (component : String) (profile : Component) (image : String) (e : Option ExecutionRef)
      (ref : WorkloadRef) (got : WorkloadObservation × Option Err) (g : Progress)
      → Keeps
          (Calm held)
          (Workloads.record_workload p o names plan component profile image e ref got g)
  unfolding Workloads.record_workload Workloads.report held
  record_workload-Held component profile image e ref got g =
      search (held_rules, held-modify, update_execution-held) depth 7

  run_component-Held :
      (component : String) (profile : Component) (g : Progress)
      → Keeps (Calm held) (Workloads.run_component p o names plan component profile g)
  unfolding Workloads.run_component
  run_component-Held component profile g =
      search
        (
          held_rules, identify-Held, held-ask_both, held-modify, set_workload-held,
          observe_workload-Held, record_workload-Held, tt,
        )
        depth 12

  visit_profile-Held :
      (component : String) (profile : Option Component) (g : Progress)
      → Keeps (Calm held) (Workloads.visit_profile p o names plan component profile g)
  unfolding Workloads.visit_profile
  visit_profile-Held component none g = search held_rules
  visit_profile-Held component (some profile) g = search (held_rules, run_component-Held)

  pub visit_components-Held :
      (rest : List String) (g : Progress)
      → Keeps (Calm held) (Workloads.visit_components p o names plan rest g)
  unfolding Workloads.visit_components Workloads.visit_component
  visit_components-Held [] g = search held_rules
  visit_components-Held (component ∷ rest) g =
      search (held_rules, visit_profile-Held, visit_components-Held rest)
