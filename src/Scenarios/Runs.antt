-- ===== src/Scenarios/Runs.antt =====
-- internal/reconciler/reconciler.go: whole runs, of a step that ends ready and of a teardown that
-- ends destroyed.
use envy.Common.{◌≡◌, refl, String-discrete, Option-discrete}
use envy.Model.{Phase, Phase-discrete, ExecutionState-discrete, ComponentOverride-discrete}
use envy.Domain.Catalog.{namespace_for_id, workload_for, profiles, route_domain, override_names}
use envy.Domain.Workload.{has_endpoint, workload_kind}
use envy.Domain.Workload.Graph.Acyclic.{Depends, search_cycles-acyclic}
use envy.Reconciler.Step.Workloads.Identity.{Identified, identify-Identified}
use envy.Domain.Workload.Graph.{visited, visit, search_cycles, out_of_fuel}
use envy.Domain.Workload.Graph.Fuel.{search_cycles-ends}
use envy.Common.{◌≢◌, ◌∷◌, []}
use envy.Reconciler.Effects
use envy.Reconciler.Routes
use envy.Reconciler.Failure
use envy.Reconciler.Snapshot
use envy.Reconciler.Destroy
use envy.Reconciler.Destroy.Confirmed.{Confirmed, destroy-Confirmed}
use envy.Reconciler.Step
use envy.Reconciler.Step.Baseline
use envy.Reconciler.Step.Messaging
use envy.Reconciler.Step.Workloads
use envy.Reconciler.Step.Retire
use envy.Reconciler.Step.Unready
use envy.Reconciler.Step.Publish
use envy.Scenarios.Fixtures.{platform, oracle, config, start, published, deleting, web, report}

teardown_ends :
    (Destroy.destroy platform oracle config (start deleting)).1.comp.phase ≡ Phase.destroyed
unfolding Effects.◌>>=◌ Effects.pure Effects.fail Effects.gets Effects.modify Effects.ask
    Effects.lift Effects.wrap Effects.clock Effects.persist Routes.sync_routes
    Routes.publish_changed Routes.publish Routes.accept Routes.set_applied Routes.build_snapshot
    Snapshot.snapshot Snapshot.add_compositions Snapshot.add_composition Snapshot.add_plan
    Snapshot.add_overrides Snapshot.add_override Snapshot.add_profile Snapshot.route_override
    Snapshot.add_ingress Snapshot.add_selector Snapshot.ingress_entry Snapshot.endpoint_host
    profiles workload_for route_domain override_names namespace_for_id has_endpoint workload_kind
    Phase-discrete Failure.set_ready Destroy.destroy Destroy.begin_destroy Destroy.teardown
    Destroy.withdraw_published Destroy.withdraw Destroy.drain Destroy.retract Destroy.after_routes
    Destroy.remove_namespace Destroy.cleanup_ref Destroy.agree Destroy.after_namespace
    Destroy.remove_messaging Destroy.complete_destroy Destroy.mark_destroyed
teardown_ends = refl

destroy-Confirmed_example :
    Confirmed platform oracle config
      (start deleting)
      (Destroy.destroy platform oracle config (start deleting)).1
destroy-Confirmed_example = destroy-Confirmed platform oracle config (start deleting) teardown_ends

search_cycles-ends_example : search_cycles (("web", web) ∷ []) ≢ out_of_fuel
search_cycles-ends_example = search_cycles-ends (("web", web) ∷ [])

searched :
    search_cycles (("web", web) ∷ []) ≡ visited (record { visiting = []; complete = "web" ∷ [] })
unfolding search_cycles visit
searched = refl

search_cycles-acyclic_example : ¬ Depends (("web", web) ∷ []) "web" "web"
search_cycles-acyclic_example =
    search_cycles-acyclic (("web", web) ∷ []) (record { visiting = []; complete = "web" ∷ [] })
      "web" searched

identify-Identified_example :
    Identified platform oracle "web" report "web:2"
      (start published)
      (Workloads.identify platform oracle "web" report "web:2" (start published))
identify-Identified_example =
    identify-Identified platform oracle "web" report "web:2" (start published)

step_ends : (Step.step platform oracle config (start published)).1.comp.phase ≡ Phase.ready
unfolding Effects.◌>>=◌ Effects.pure Effects.fail Effects.gets Effects.modify Effects.ask
    Effects.ask_both Effects.lift Effects.catch Effects.wrap Effects.clock Effects.persist
    Routes.sync_routes Routes.publish_changed Routes.publish Routes.accept Routes.set_applied
    Routes.build_snapshot Snapshot.snapshot Snapshot.add_compositions Snapshot.add_composition
    Snapshot.add_plan Snapshot.add_overrides Snapshot.add_override Snapshot.add_profile
    Snapshot.route_override Snapshot.add_ingress Snapshot.add_selector Snapshot.ingress_entry
    Snapshot.endpoint_host profiles workload_for route_domain override_names namespace_for_id
    has_endpoint workload_kind Phase-discrete ExecutionState-discrete ComponentOverride-discrete
    Failure.set_ready Failure.started_at Step.step Step.provision Step.run_plan Step.run_overrides
    Step.conclude Baseline.begin_step Baseline.observe_current Baseline.observe_with
    Messaging.prepare_messaging Workloads.visit_components Workloads.visit_component
    Workloads.visit_profile Workloads.run_component Workloads.identify Workloads.set_workload
    Workloads.observe_workload Workloads.record_workload Workloads.update_execution
    Workloads.component_state Workloads.report Workloads.tally Publish.conclude_routed
    Publish.publish_routes Publish.declare_routing Publish.publish_selection Publish.verify_routes
    Publish.judge_checked Publish.recheck_baseline Publish.store_evidence Publish.judge_verification
    Publish.record_hops Publish.become_ready Publish.mark_ready Retire.overrides_equal
    Retire.retire_routed Workloads.workload_spec Option-discrete String-discrete
    Unready.schedule_next
step_ends = refl
