-- ===== src/Reconciler/Snapshot/Grows.antt =====
-- internal/reconciler/reconciler.go: `Snapshot` only adds entries, and adds those of a composition.
use envy.Common.{
  ◌≡◌, refl, String, true, not, ◌&&◌, Option, none, some, List, [], ◌∷◌, ◌++◌, str_eq,
}
use mathlib.Core.List.{Memᴰ}
use envy.Model.{
  Composition, Component, ResolvedPlan, RouteEntry, RouteSnapshot, Platform, Time, PreviewSelector,
}
use envy.Domain.Catalog.{workload_for, namespace_for_id}
use envy.Domain.Workload.{has_endpoint}
use envy.Reconciler.Effects.{Res, ok, failed}
use envy.Reconciler.Snapshot
use envy.Reconciler.Snapshot.{
  snapshot, add_compositions, add_composition, add_overrides, add_override, route_override,
  add_ingress, add_selector, ingress_entry, is_routed, is_admitted, endpoint_host, baseline_host,
  selection,
}
use envy.Reconciler.Snapshot.Gives.{Gives, Gives-ok, Gives-failed, Gives-bind, Gives-if}

-- The entries are kept.
pub record Grows (s t : RouteSnapshot) : Type 0 where
  pub mesh : (e : RouteEntry) → Memᴰ e s.mesh_entries → Memᴰ e t.mesh_entries
  pub ingress : (e : RouteEntry) → Memᴰ e s.ingress_entries → Memᴰ e t.ingress_entries

appended : {A : Type 0} (a : A) (xs ys : List A) → Memᴰ a xs → Memᴰ a (xs ++ ys)
appended a [] ys m = elim m [ ]
appended a (x ∷ xs) ys (Memᴰ.head e) = Memᴰ.head e
appended a (x ∷ xs) ys (Memᴰ.tail m) = Memᴰ.tail (appended a xs ys m)

last : {A : Type 0} (a : A) (xs : List A) → Memᴰ a (xs ++ a ∷ [])
last a [] = Memᴰ.head refl
last a (x ∷ xs) = Memᴰ.tail (last a xs)

pub stays : (s : RouteSnapshot) → Grows s s
stays s = record { mesh = λ e m. m; ingress = λ e m. m }

pub follows : (s t u : RouteSnapshot) → Grows s t → Grows t u → Grows s u
follows s t u g h = record {
  mesh = λ e m. h.mesh e (g.mesh e m);
  ingress = λ e m. h.ingress e (g.ingress e m);
}

module _ (p : Platform) (c : Composition) (plan : ResolvedPlan) where
  route_override-Grows :
      (component : String) (profile : Component) (s : RouteSnapshot)
      → Gives (Grows s) (route_override p c plan component profile s)
  unfolding route_override
  route_override-Grows component profile s =
      let ref = workload_for c.runtime component in
      Gives-if _ (not (is_routed c)) _ _ (λ _. Gives-ok _ s (stays s))
        λ _.
          Gives-if _ (str_eq ref.namespace (namespace_for_id c.id) && str_eq ref.service component)
            _ _
            (λ _.
              Gives-ok _
                (record s {
                  mesh_entries =
                      s.mesh_entries ++ Snapshot.mesh_entry p c plan component profile ref ∷ [];
                })
                (record { mesh = λ e m. appended e _ _ m; ingress = λ e m. m }))
            (λ _. Gives-failed _ _)

  add_profile-Grows :
      (component : String) (o : Option Component) (s : RouteSnapshot)
      → Gives (Grows s) (Snapshot.add_profile p c plan component o s)
  unfolding Snapshot.add_profile
  add_profile-Grows component none s = Gives-failed _ _
  add_profile-Grows component (some profile) s =
      Gives-if _ (not (str_eq profile.id component)) _ _ (λ _. Gives-failed _ _)
        λ _.
          Gives-if _ (not (has_endpoint profile)) _ _ (λ _. Gives-ok _ s (stays s))
            λ _. record {
              at = λ t e.
                  let g = (route_override-Grows component profile _).at t e in
                  record { mesh = g.mesh; ingress = g.ingress };
            }

  pub add_overrides-Grows :
      (names : List String) (s : RouteSnapshot) → Gives (Grows s) (add_overrides p c plan names s)
  unfolding add_overrides add_override
  add_overrides-Grows [] s = Gives-ok _ s (stays s)
  add_overrides-Grows (n ∷ names) s =
      Gives-bind (Grows s) (Grows s) (add_override p c plan n s) (add_overrides p c plan names)
        (add_profile-Grows n _ s)
        (λ t _ g. record { at = λ u e. follows s t u g ((add_overrides-Grows names t).at u e) })

  add_selector-Grows :
      (entry : RouteEntry) (o : Option PreviewSelector) (s : RouteSnapshot)
      → Gives (Grows s) (add_selector p plan.baseline entry o s)
  unfolding add_selector
  add_selector-Grows entry none s = Gives-ok _ s (stays s)
  add_selector-Grows entry (some selector) s = branch (baseline_host p plan.baseline)
    where
      branch :
          (r : Res String)
          → Gives (Grows s) (
              Snapshot.bind r (λ host. ok (record s {
                selector_entries =
                    s.selector_entries ++ Snapshot.selector_entry p entry selector host ∷ [];
              })))
      branch (ok host) = Gives-ok _ _ (record { mesh = λ e m. m; ingress = λ e m. m })
      branch (failed x) = Gives-failed _ _

  -- The entry of the ingress is there, and what was there stays.
  pub record Enters (host : String) (s t : RouteSnapshot) : Type 0 where
    pub grown : Grows s t
    pub entered : Memᴰ (ingress_entry p c plan host) t.ingress_entries

  selected :
      (host : String) (s : RouteSnapshot)
      → Gives (Enters host s) (
          add_selector p plan.baseline
            (ingress_entry p c plan host)
            plan.baseline.routing.preview_selector
            (record s { ingress_entries = s.ingress_entries ++ ingress_entry p c plan host ∷ [] }))
  selected host s = record {
    at = λ t e.
        let g = (add_selector-Grows _ _ _).at t e in
        record {
          grown = record { mesh = g.mesh; ingress = λ x m. g.ingress x (appended x _ _ m) };
          entered = g.ingress _ (last _ _);
        };
  }

  -- What a composition that is admitted is given, with the host of its endpoint.
  pub record Served (s t : RouteSnapshot) : Type 0 where
    pub grown : Grows s t
    pub host : String
    pub known : endpoint_host p c ≡ ok host
    pub entered : Memᴰ (ingress_entry p c plan host) t.ingress_entries

  pub add_ingress-Served :
      (now : Time) (s : RouteSnapshot)
      → is_admitted p now c ≡ true
      → Gives (Served s) (add_ingress p now c plan s)
  unfolding add_ingress
  add_ingress-Served now s admitted =
      Gives-if _ (not (is_admitted p now c)) _ _ (λ denied. cc) λ _. branch (endpoint_host p c) refl
    where
      branch :
          (r : Res String)
          → endpoint_host p c ≡ r
          → Gives (Served s) (
              Snapshot.bind r (λ host.
                add_selector p plan.baseline
                  (ingress_entry p c plan host)
                  plan.baseline.routing.preview_selector
                  (record s {
                    ingress_entries = s.ingress_entries ++ ingress_entry p c plan host ∷ [];
                  })))
      branch (ok host) e = record {
        at = λ t q.
            let x = (selected host s).at t q in
            record { grown = x.grown; host = host; known = e; entered = x.entered };
      }
      branch (failed x) e = Gives-failed _ _

  pub add_ingress-Grows :
      (now : Time) (s : RouteSnapshot) → Gives (Grows s) (add_ingress p now c plan s)
  unfolding add_ingress
  add_ingress-Grows now s =
      Gives-if _ (not (is_admitted p now c)) _ _ (λ _. Gives-ok _ s (stays s))
        λ _. branch (endpoint_host p c)
    where
      branch :
          (r : Res String)
          → Gives (Grows s) (
              Snapshot.bind r (λ host.
                add_selector p plan.baseline
                  (ingress_entry p c plan host)
                  plan.baseline.routing.preview_selector
                  (record s {
                    ingress_entries = s.ingress_entries ++ ingress_entry p c plan host ∷ [];
                  })))
      branch (ok host) = record { at = λ t q. ((selected host s).at t q).grown }
      branch (failed x) = Gives-failed _ _

  -- The mesh entry of a component whose workload can be reached.
  pub route_override-Memᴰ :
      (component : String) (profile : Component) (s : RouteSnapshot)
      → is_routed c ≡ true
      → Gives
          (λ t.
            Memᴰ
              (Snapshot.mesh_entry p c plan component profile (workload_for c.runtime component))
              t.mesh_entries)
          (route_override p c plan component profile s)
  unfolding route_override
  route_override-Memᴰ component profile s routed =
      let ref = workload_for c.runtime component in
      Gives-if _ (not (is_routed c)) _ _ (λ closed. cc)
        λ _.
          Gives-if _ (str_eq ref.namespace (namespace_for_id c.id) && str_eq ref.service component)
            _ _
            (λ _.
              Gives-ok _
                (record s {
                  mesh_entries =
                      s.mesh_entries ++ Snapshot.mesh_entry p c plan component profile ref ∷ [];
                })
                (last _ _))
            (λ _. Gives-failed _ _)
