-- ===== src/Reconciler/Snapshot.antt =====
-- internal/reconciler/reconciler.go: `Snapshot`, the routes that all active compositions ask for.
pub mod Gives
pub mod Grows
pub mod Complete
pub mod Sorted
pub mod Isolation
use envy.Common.{
  String, Bool, false, not, ◌&&◌, Option, none, some, List, [], ◌∷◌, ◌++◌, Map, lookup, get_or,
  insert, if◌then◌else◌, str_eq, ◌<>◌, sort_by, text_le, leb, holds,
}
use envy.Model.{
  Composition, ComponentOverride, Component, ResolvedPlan, Endpoint, RouteEntry, RouteSnapshot,
  Platform, Phase, Phase-discrete, Err, plain, Time, WorkloadRef, Baseline, PreviewSelector,
}
use envy.Domain.Catalog.{
  profiles, override_names, workload_for, route_domain, namespace_for_id, no_binding,
}
use envy.Domain.Workload.{has_endpoint}
use envy.Reconciler.Effects.{Res, ok, failed}

abbrev pub bind : {A B : Type 0} → Res A → (A → Res B) → Res B
bind (ok a) f = f a
bind (failed e) f = failed e

abbrev pub no_endpoint : Endpoint
no_endpoint = record { url = ""; ready = false }

abbrev host_or : Err → Option String → Res String
host_or e none = failed e
host_or e (some h) = if str_eq h "" then failed e else ok h

module _ (p : Platform) where
  unfoldable pub endpoint_host : Composition → Res String
  endpoint_host c =
      host_or (plain "composition has no valid allocated endpoint")
        (p.hostname (get_or no_endpoint "public" c.endpoints).url)

  unfoldable pub baseline_host : Baseline → Res String
  baseline_host b = host_or (plain "baseline has no valid endpoint") (p.hostname b.endpoint)

abbrev pub empty_snapshot : RouteSnapshot
empty_snapshot = record {
  domains = [];
  mesh_entries = [];
  ingress_entries = [];
  selector_entries = [];
  owned_compositions = [];
}

-- The name by which a workload's Service is reached.
abbrev pub cluster_host : WorkloadRef → String
cluster_host ref = ref.service <> ("." <> (ref.namespace <> ".svc.cluster.local"))

-- Whether mesh routes are kept: routing was published and not yet withdrawn.
abbrev pub is_routed : Composition → Bool
is_routed c =
    c.runtime.routing_active
    && not c.runtime.routes_removed
    && not (holds (Phase-discrete c.phase Phase.destroyed))

-- The published overrides, or the desired ones before any were published.
abbrev pub selection : Composition → Map ComponentOverride
selection c = elim c.runtime.published_overrides [ some m ↦ m | none ↦ c.overrides ]

module _ (p : Platform) where
  -- The entry of an override in the mesh, for a workload whose reference is valid.
  abbrev pub mesh_entry : Composition → ResolvedPlan → String → Component → WorkloadRef → RouteEntry
  mesh_entry c plan component profile ref = record {
    message_isolation = false;
    domain = route_domain p plan.baseline component;
    composition_id = c.id;
    host = "";
    destination_host = cluster_host ref;
    ownership_token = c.runtime.ownership_token;
    selector_header = "";
    port = profile.port;
  }

  -- The rest of the loop's body for an override with an endpoint, its domain being listed.
  unfoldable pub route_override :
      Composition → ResolvedPlan → String → Component → RouteSnapshot → Res RouteSnapshot
  route_override c plan component profile s =
      let ref = workload_for c.runtime component in
      if not (is_routed c)
      then ok s
      else if str_eq ref.namespace (namespace_for_id c.id) && str_eq ref.service component
      then ok (record s {
        mesh_entries = s.mesh_entries ++ mesh_entry c plan component profile ref ∷ [];
      })
      else failed
          (plain ("active routing intent has no valid workload reference for " <> component))

  -- A profile that was found, if its id is that of the component.
  unfoldable pub add_profile :
      Composition → ResolvedPlan → String → Option Component → RouteSnapshot → Res RouteSnapshot
  add_profile c plan component none s = failed (plain ("missing profile for " <> component))
  add_profile c plan component (some profile) s =
      if not (str_eq profile.id component)
      then failed (plain ("missing profile for " <> component))
      else if not (has_endpoint profile)
      then ok s
      else route_override c plan component profile
          (record s { domains = s.domains ++ route_domain p plan.baseline component ∷ [] })

  -- The body of the loop over the selected components.
  unfoldable pub add_override :
      Composition → ResolvedPlan → String → RouteSnapshot → Res RouteSnapshot
  add_override c plan component s =
      add_profile c plan component (lookup component (profiles plan)) s

  unfoldable pub add_overrides :
      Composition → ResolvedPlan → List String → RouteSnapshot → Res RouteSnapshot
  add_overrides c plan [] s = ok s
  add_overrides c plan (component ∷ rest) s =
      bind (add_override c plan component s) (add_overrides c plan rest)

  -- Whether new requests are let in.
  abbrev pub is_admitted : Time → Composition → Bool
  is_admitted now c = is_routed c && not c.deletion_requested && not (leb c.expires_at now)

  abbrev with_selector : Option PreviewSelector → RouteEntry → RouteEntry
  with_selector none e = e
  with_selector (some s) e = record e { selector_header = s.header }

  -- The entry component's own override takes the place of the baseline's binding.
  unfoldable pub ingress_entry : Composition → ResolvedPlan → String → RouteEntry
  ingress_entry c plan host =
      let b = plan.baseline in
      let entry_component = b.routing.entry_component in
      let binding = get_or no_binding entry_component b.components in
      let profile = lookup entry_component (profiles plan) in
      with_selector b.routing.preview_selector (record {
        message_isolation = c.message_isolation;
        domain = route_domain p b entry_component;
        composition_id = c.id;
        host = host;
        destination_host = elim profile [
          | none ↦ binding.service_host
          | some _ ↦ cluster_host (workload_for c.runtime entry_component)
        ];
        ownership_token = c.runtime.ownership_token;
        selector_header = "";
        port = elim profile [ none ↦ binding.port | some pr ↦ pr.port ];
      })

  abbrev pub selector_entry : RouteEntry → PreviewSelector → String → RouteEntry
  selector_entry entry selector host = record entry {
    host = host;
    selector_header = selector.header;
  }

  -- The selector's entry: that of the ingress, at the baseline's host.
  unfoldable pub add_selector :
      Baseline → RouteEntry → Option PreviewSelector → RouteSnapshot → Res RouteSnapshot
  add_selector b entry none s = ok s
  add_selector b entry (some selector) s = bind (baseline_host p b) λ host. ok (record s {
    selector_entries = s.selector_entries ++ selector_entry entry selector host ∷ [];
  })

  unfoldable pub add_ingress : Time → Composition → ResolvedPlan → RouteSnapshot → Res RouteSnapshot
  add_ingress now c plan s =
      if not (is_admitted now c)
      then ok s
      else bind (endpoint_host p c) λ host.
        let entry = ingress_entry c plan host in
        add_selector plan.baseline entry plan.baseline.routing.preview_selector
          (record s { ingress_entries = s.ingress_entries ++ entry ∷ [] })

  unfoldable pub add_plan :
      Time → Composition → Option ResolvedPlan → RouteSnapshot → Res RouteSnapshot
  add_plan now c none s = failed (plain "composition has no resolved catalog plan")
  add_plan now c (some plan) s =
      bind (add_overrides c plan (override_names (selection c)) s) (add_ingress now c plan)

  -- The body of the loop over the compositions.
  unfoldable pub add_composition : Time → Composition → RouteSnapshot → Res RouteSnapshot
  add_composition now c s =
      add_plan now c c.runtime.plan (record s {
        owned_compositions = insert c.id c.runtime.ownership_token s.owned_compositions;
      })

  unfoldable pub add_compositions :
      (Composition → Time) → List Composition → RouteSnapshot → Res RouteSnapshot
  add_compositions clock [] s = ok s
  add_compositions clock (c ∷ cs) s =
      bind (add_composition (clock c) c s) (add_compositions clock cs)

  abbrev pub id_le : Composition → Composition → Bool
  id_le a b = text_le a.id b.id

  unfoldable pub snapshot : (Composition → Time) → List Composition → Res RouteSnapshot
  snapshot clock compositions = add_compositions clock (sort_by id_le compositions) empty_snapshot
