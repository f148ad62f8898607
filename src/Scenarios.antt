-- ===== src/Scenarios.antt =====
-- Runs of the program on concrete compositions, and the theorems applied to them.
mod Fixtures
mod Domains
mod Runs
mod Requests
mod Events
mod Views
mod Baselines
mod Recipes
use envy.Common.{
  ℕ, ◌≡◌, ◌<◌, refl, [], ◌∷◌, true, false, String, List, some, ◌==◌, leb, ltb, str_eq, eq_refl,
  arith,
}
use mathlib.Core.List.{Memᴰ}
use mathlib.Core.List.Memᴰ
use envy.Model.{Phase, Phase-discrete, plain, RouteEntry}
use envy.Domain.Catalog.{namespace_for_id, workload_for, profiles, route_domain, override_names}
use envy.Domain.Workload.{has_endpoint, workload_kind}
use envy.Reconciler.Effects.{Res, ok, History, Oracle}
use envy.Reconciler.Keeps.{AllLawful}
use envy.Reconciler.Safety.{SafeStep, step-SafeStep, SafeCycle, reconcile-SafeCycle}
use envy.Reconciler.Ready.Scans.{tick-AllLawful}
use envy.Reconciler.Destroy.Drained.{SafeDeletion, destroy-SafeDeletion}
use envy.Reconciler.Step
use envy.Reconciler.Cycle
use envy.Reconciler.Destroy
use envy.Reconciler.Snapshot
use envy.Reconciler.Snapshot.Isolation.{IsIsolated, snapshot-IsIsolated}
use envy.Reconciler.Snapshot.Complete.{Meshed, snapshot-Meshed, snapshot-ingress}
use envy.Reconciler.Failure
use envy.Reconciler.Failure.Backoff.{IsFailed, failure-IsFailed}
use envy.Reconciler.Step.Retire.{adopt_selection, is_current}
use envy.Reconciler.Step.Retire.Handover.{Handover, adopt_selection-Handover}
use Fixtures.{
  platform, oracle, config, start, published, deleting, shop_routes, wall_clock, plan, web,
  override,
}

tick-AllLawful_example : AllLawful (Cycle.tick platform oracle config (start published)).1.history
tick-AllLawful_example = tick-AllLawful platform oracle config (start published) tt

step-SafeStep_example :
    SafeStep oracle (start published) (Step.step platform oracle config (start published))
step-SafeStep_example = step-SafeStep platform oracle config (start published) tt

reconcile-SafeCycle_example :
    SafeCycle (start published) (Cycle.reconcile platform oracle config true (start published)).1
reconcile-SafeCycle_example = reconcile-SafeCycle platform oracle config true (start published) tt

destroy-SafeDeletion_example :
    SafeDeletion platform oracle config
      (Destroy.begin_destroy deleting)
      []
      (Destroy.destroy platform oracle config (start deleting)).1
destroy-SafeDeletion_example = destroy-SafeDeletion platform oracle config (start deleting)

published_routes : Snapshot.snapshot platform wall_clock (published ∷ []) ≡ ok shop_routes
unfolding Snapshot.snapshot Snapshot.add_compositions Snapshot.add_composition Snapshot.add_plan
    Snapshot.add_overrides Snapshot.add_override Snapshot.add_profile Snapshot.route_override
    Snapshot.add_ingress Snapshot.add_selector Snapshot.ingress_entry Snapshot.endpoint_host
    profiles workload_for route_domain override_names namespace_for_id has_endpoint workload_kind
    Phase-discrete
published_routes = refl

snapshot-IsIsolated_example : IsIsolated platform wall_clock (published ∷ []) shop_routes
snapshot-IsIsolated_example =
    snapshot-IsIsolated platform wall_clock (published ∷ []) shop_routes published_routes

routed : Snapshot.is_routed published ≡ true
unfolding Phase-discrete
routed = refl

admitted : Snapshot.is_admitted platform 1000 published ≡ true
unfolding Phase-discrete
admitted = refl

listed : Memᴰ "web" (override_names (Snapshot.selection published))
unfolding override_names
listed = Memᴰ.head refl

found : envy.Common.lookup "web" (profiles plan) ≡ some web
unfolding profiles
found = refl

reachable : has_endpoint web ≡ true
unfolding has_endpoint workload_kind
reachable = refl

snapshot-Meshed_example : Meshed platform published plan "web" web shop_routes
snapshot-Meshed_example =
    snapshot-Meshed platform wall_clock (published ∷ []) shop_routes published plan published_routes
      (Memᴰ.head refl) refl routed "web" web listed found reachable

snapshot-ingress_example :
    (host : String) × (Snapshot.endpoint_host platform published ≡ ok host)
    × Memᴰ (Snapshot.ingress_entry platform published plan host) shop_routes.ingress_entries
snapshot-ingress_example =
    snapshot-ingress platform wall_clock (published ∷ []) shop_routes published plan
      published_routes (Memᴰ.head refl) refl admitted

fair : (h : History) (n : ℕ) → 0 < n → oracle.random h n < n
fair h n p = p

failure-IsFailed_example :
    IsFailed oracle
      (plain "no such image")
      published
      (Failure.failure oracle (plain "no such image") (start published)).1.comp
failure-IsFailed_example = failure-IsFailed oracle fair (plain "no such image") (start published)

adopt_selection-Handover_example :
    (is_current (adopt_selection (record published { overrides = [] })) ≡ true)
    × Handover "web"
        (("web", override) ∷ [])
        (record published { overrides = [] })
        (adopt_selection (record published { overrides = [] }))
adopt_selection-Handover_example =
    adopt_selection-Handover "web" (("web", override) ∷ []) (record published { overrides = [] })
      refl (refl, tt)
