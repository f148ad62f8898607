-- ===== src/Reconciler/Snapshot/Complete.antt =====
-- internal/reconciler/reconciler.go: `Snapshot` leaves out no route that is asked for.
use envy.Common.{
  ◌≡◌, refl, sym, subst, String, true, not, Option, none, some, List, [], ◌∷◌, str_eq, lookup,
  sort_by,
}
use mathlib.Core.List.{Memᴰ}
use envy.Model.{Composition, Component, ResolvedPlan, RouteSnapshot, Platform, Time}
use envy.Domain.Catalog.{profiles, override_names, workload_for}
use envy.Domain.Workload.{has_endpoint}
use envy.Reconciler.Effects.{ok}
use envy.Reconciler.Snapshot
use envy.Reconciler.Snapshot.{
  snapshot, add_compositions, add_composition, add_overrides, add_override, route_override,
  add_ingress, add_selector, ingress_entry, is_routed, is_admitted, endpoint_host, baseline_host,
  selection,
}
use envy.Reconciler.Snapshot.Gives.{Gives, Gives-ok, Gives-failed, Gives-bind, Gives-if}
use envy.Reconciler.Snapshot.Sorted.{sort_by-Memᴰ}
use envy.Reconciler.Snapshot.Grows.{
  Grows, stays, follows, add_overrides-Grows, add_ingress-Served, add_ingress-Grows,
  route_override-Memᴰ,
}

module _ (p : Platform) (c : Composition) (plan : ResolvedPlan) where
  -- What a composition whose routes are kept is given for a selected component.
  abbrev pub Meshed : String → Component → RouteSnapshot → Type 0
  Meshed component profile t =
      Memᴰ (Snapshot.mesh_entry p c plan component profile (workload_for c.runtime component))
        t.mesh_entries

  module _ (component : String) (profile : Component) (routed : is_routed c ≡ true)
      (found : lookup component (profiles plan) ≡ some profile)
      (reachable : has_endpoint profile ≡ true) where
    add_override-Memᴰ :
        (s : RouteSnapshot) → Gives (Meshed component profile) (add_override p c plan component s)
    unfolding add_override Snapshot.add_profile
    add_override-Memᴰ s =
        subst (λ o. Gives (Meshed component profile) (Snapshot.add_profile p c plan component o s))
          (sym found)
          (Gives-if _ (not (str_eq profile.id component)) _ _ (λ _. Gives-failed _ _)
            λ _.
              Gives-if _ (not (has_endpoint profile)) _ _ (λ closed. cc)
                λ _. route_override-Memᴰ p c plan component profile _ routed)

    add_overrides-Memᴰ :
        (names : List String) (s : RouteSnapshot)
        → Memᴰ component names
        → Gives (Meshed component profile) (add_overrides p c plan names s)
    unfolding add_overrides
    add_overrides-Memᴰ [] s m = elim m [ ]
    add_overrides-Memᴰ (n ∷ names) s (Memᴰ.tail m) =
        Gives-bind (λ _. Unit) _ (add_override p c plan n s) (add_overrides p c plan names)
          (record { at = λ _ _. tt }) (λ t _ _. add_overrides-Memᴰ names t m)
    add_overrides-Memᴰ (n ∷ names) s (Memᴰ.head e) =
        Gives-bind (Meshed component profile) _ (add_override p c plan n s)
          (add_overrides p c plan names)
          (subst (λ x. Gives (Meshed component profile) (add_override p c plan x s)) e
            (add_override-Memᴰ s))
          (λ t _ m. record { at = λ u q. ((add_overrides-Grows p c plan names t).at u q).mesh _ m })

module _ (p : Platform) (clock : Composition → Time) where
  -- All routes that a composition asks for are in the snapshot: those in the mesh of the selected
  -- components that can be reached, while its routes are kept, and its entry at the ingress, at the
  -- host of its endpoint, while it is admitted.
  pub record IsComplete (c : Composition) (s : RouteSnapshot) : Type 0 where
    pub plan : ResolvedPlan
    pub planned : c.runtime.plan ≡ some plan
    pub mesh :
        is_routed c ≡ true
        → (component : String) (profile : Component) → Memᴰ component (override_names (selection c))
        → lookup component (profiles plan) ≡ some profile
        → has_endpoint profile ≡ true
        → Meshed p c plan component profile s
    pub ingress :
        is_admitted p (clock c) c ≡ true
        → (host : String) × (endpoint_host p c ≡ ok host)
          × Memᴰ (ingress_entry p c plan host) s.ingress_entries

  IsComplete-grown :
      (c : Composition) (s t : RouteSnapshot) → Grows s t → IsComplete c s → IsComplete c t
  IsComplete-grown c s t g i = record {
    plan = i.plan;
    planned = i.planned;
    mesh = λ r n pr m f h. g.mesh _ (i.mesh r n pr m f h);
    ingress = λ a. let (host, known, m) = i.ingress a in (host, known, g.ingress _ m);
  }

  add_plan-Grows :
      (c : Composition) (o : Option ResolvedPlan) (s : RouteSnapshot)
      → Gives (Grows s) (Snapshot.add_plan p (clock c) c o s)
  unfolding Snapshot.add_plan
  add_plan-Grows c none s = Gives-failed _ _
  add_plan-Grows c (some plan) s =
      Gives-bind (Grows s) (Grows s) (add_overrides p c plan (override_names (selection c)) s) _
        (add_overrides-Grows p c plan _ s)
        (λ t _ g. record {
          at = λ u e. follows s t u g ((add_ingress-Grows p c plan (clock c) t).at u e);
        })

  add_plan-IsComplete :
      (c : Composition) (o : Option ResolvedPlan) (s : RouteSnapshot)
      → c.runtime.plan ≡ o
      → Gives (IsComplete c) (Snapshot.add_plan p (clock c) c o s)
  unfolding Snapshot.add_plan
  add_plan-IsComplete c none s e = Gives-failed _ _
  add_plan-IsComplete c (some plan) s e =
      Gives-bind (λ t. add_overrides p c plan (override_names (selection c)) s ≡ ok t) _ _ _
        (record { at = λ t q. q }) (λ t q _. record { at = λ u r. completed t u q r })
    where
      completed :
          (t u : RouteSnapshot)
          → add_overrides p c plan (override_names (selection c)) s ≡ ok t
          → add_ingress p (clock c) c plan t ≡ ok u
          → IsComplete c u
      completed t u q r = record {
        plan = plan;
        planned = e;
        mesh = λ routed n pr m f h.
            ((add_ingress-Grows p c plan (clock c) t).at u r).mesh _
              ((add_overrides-Memᴰ p c plan n pr routed f h _ s m).at t q);
        ingress = λ admitted.
            let x = (add_ingress-Served p c plan (clock c) t admitted).at u r in
            (x.host, x.known, x.entered);
      }

  add_compositions-Grows :
      (l : List Composition) (s : RouteSnapshot) → Gives (Grows s) (add_compositions p clock l s)
  unfolding add_compositions add_composition
  add_compositions-Grows [] s = Gives-ok _ s (stays s)
  add_compositions-Grows (c ∷ l) s =
      Gives-bind (Grows s) (Grows s) (add_composition p (clock c) c s) (add_compositions p clock l)
        (record {
          at = λ t e.
              let g = (add_plan-Grows c c.runtime.plan _).at t e in
              record { mesh = g.mesh; ingress = g.ingress };
        })
        (λ t _ g. record { at = λ u e. follows s t u g ((add_compositions-Grows l t).at u e) })

  add_compositions-IsComplete :
      (c : Composition) (l : List Composition) (s : RouteSnapshot)
      → Memᴰ c l
      → Gives (IsComplete c) (add_compositions p clock l s)
  unfolding add_compositions add_composition
  add_compositions-IsComplete c [] s m = elim m [ ]
  add_compositions-IsComplete c (d ∷ l) s (Memᴰ.tail m) =
      Gives-bind (λ _. Unit) _ (add_composition p (clock d) d s) (add_compositions p clock l)
        (record { at = λ _ _. tt }) (λ t _ _. add_compositions-IsComplete c l t m)
  add_compositions-IsComplete c (d ∷ l) s (Memᴰ.head e) =
      Gives-bind (IsComplete d) _ (add_composition p (clock d) d s) (add_compositions p clock l)
        (add_plan-IsComplete d d.runtime.plan _ refl)
        (λ t _ i. record {
          at = λ u q.
              subst (λ x. IsComplete x u) (sym e)
                (IsComplete-grown d t u ((add_compositions-Grows l t).at u q) i);
        })

  snapshot-IsComplete :
      (cs : List Composition) (s : RouteSnapshot) (c : Composition)
      → snapshot p clock cs ≡ ok s
      → Memᴰ c cs
      → IsComplete c s
  unfolding snapshot
  snapshot-IsComplete cs s c e m =
      (add_compositions-IsComplete c (sort_by (Snapshot.id_le p) cs) Snapshot.empty_snapshot
          (sort_by-Memᴰ (Snapshot.id_le p) c cs m)).at
        s e

  module _ (cs : List Composition) (s : RouteSnapshot) (c : Composition) (plan : ResolvedPlan)
      (built : snapshot p clock cs ≡ ok s) (listed : Memᴰ c cs)
      (planned : c.runtime.plan ≡ some plan) where
    same_plan : (snapshot-IsComplete cs s c built listed).plan ≡ plan
    same_plan = cc ((snapshot-IsComplete cs s c built listed).planned, planned)

    -- Where a snapshot is built, a given composition whose routes are kept has an entry in the mesh
    -- for each selected component that its plan says can be reached.
    pub snapshot-Meshed :
        is_routed c ≡ true
        → (component : String) (profile : Component) → Memᴰ component (override_names (selection c))
        → lookup component (profiles plan) ≡ some profile
        → has_endpoint profile ≡ true
        → Meshed p c plan component profile s
    snapshot-Meshed routed component profile m found reachable =
        subst (λ x. Meshed p c x component profile s) same_plan
          ((snapshot-IsComplete cs s c built listed).mesh routed component profile m
            (subst (λ x. lookup component (profiles x) ≡ some profile) (sym same_plan) found)
            reachable)

    -- Where a snapshot is built, a given composition that is admitted has an endpoint with a host,
    -- and the snapshot has its entry at the ingress for that host.
    pub snapshot-ingress :
        is_admitted p (clock c) c ≡ true
        → (host : String) × (endpoint_host p c ≡ ok host)
          × Memᴰ (ingress_entry p c plan host) s.ingress_entries
    snapshot-ingress admitted =
        subst
          (λ x.
            (host : String) × (endpoint_host p c ≡ ok host)
            × Memᴰ (ingress_entry p c x host) s.ingress_entries)
          same_plan ((snapshot-IsComplete cs s c built listed).ingress admitted)
