-- ===== src/Reconciler/Snapshot/Isolation.antt =====
-- internal/reconciler/reconciler.go: where the entries of a `Snapshot` come from and lead to.
use envy.Common.{
  ◌≡◌, ◌∙◌, refl, ap, sym, String, true, not, ◌&&◌, Option, none, some, List, [], ◌∷◌, ◌++◌, str_eq,
  eq_iff, ◌<>◌, All, All-append, &&-split, arith, sort_by,
}
use mathlib.Core.List.{Memᴰ}
use envy.Model.{
  Composition, Component, ResolvedPlan, RouteEntry, RouteSnapshot, Platform, Time, plain,
  WorkloadRef, PreviewSelector,
}
use envy.Domain.Catalog.{workload_for, namespace_for_id}
use envy.Domain.Workload.{has_endpoint}
use envy.Reconciler.Effects.{ok}
use envy.Reconciler.Snapshot
use envy.Reconciler.Snapshot.{
  snapshot, add_compositions, add_composition, add_overrides, add_override, route_override,
  add_ingress, add_selector, ingress_entry, is_routed, is_admitted, endpoint_host, baseline_host,
  cluster_host, selection,
}
use envy.Reconciler.Snapshot.Gives.{Gives, Gives-ok, Gives-failed, Gives-bind, Gives-if}
use envy.Reconciler.Snapshot.Sorted.{Memᴰ-sort_by}

-- An entry of the mesh: it belongs to a composition whose routes are kept, carries its token, and
-- leads into the namespace of that composition alone.
pub record Routed (cs : List Composition) (e : RouteEntry) : Type 0 where
  pub owner : Composition
  pub listed : Memᴰ owner cs
  pub routed : is_routed owner ≡ true
  pub id : e.composition_id ≡ owner.id
  pub token : e.ownership_token ≡ owner.runtime.ownership_token
  pub component : String
  pub destination :
      e.destination_host ≡ component <> ("." <> (namespace_for_id owner.id <> ".svc.cluster.local"))

module _ (p : Platform) (clock : Composition → Time) where
  -- An entry of the ingress or a selector: it belongs to a composition that is admitted, which is
  -- not being deleted and has not expired, and carries its token.
  pub record Admitted (cs : List Composition) (e : RouteEntry) : Type 0 where
    pub owner : Composition
    pub listed : Memᴰ owner cs
    pub admitted : is_admitted p (clock owner) owner ≡ true
    pub id : e.composition_id ≡ owner.id
    pub token : e.ownership_token ≡ owner.runtime.ownership_token
    pub isolation : e.message_isolation ≡ owner.message_isolation

  -- At the host that is allocated to the composition.
  pub record Hosted (cs : List Composition) (e : RouteEntry) : Type 0 where
    pub entry : Admitted cs e
    pub host : endpoint_host p (entry.owner) ≡ ok e.host

  pub record IsIsolated (cs : List Composition) (s : RouteSnapshot) : Type 0 where
    pub mesh : All (Routed cs) s.mesh_entries
    pub ingress : All (Hosted cs) s.ingress_entries
    pub selectors : All (Admitted cs) s.selector_entries

  with_domain-IsIsolated :
      (cs : List Composition) (s : RouteSnapshot) (ds : List (envy.Model.RouteDomain))
      → IsIsolated cs s
      → IsIsolated cs (record s { domains = ds })
  with_domain-IsIsolated cs s ds i = record {
    mesh = i.mesh;
    ingress = i.ingress;
    selectors = i.selectors;
  }

  module _ (cs : List Composition) (c : Composition) (listed : Memᴰ c cs)
      (plan : ResolvedPlan) where
    -- The test on the reference is what keeps an entry in the composition's namespace.
    mesh_entry-Routed :
        (component : String) (profile : Component) (ref : WorkloadRef)
        → is_routed c ≡ true
        → (str_eq ref.namespace (namespace_for_id c.id) && str_eq ref.service component) ≡ true
        → Routed cs (Snapshot.mesh_entry p c plan component profile ref)
    mesh_entry-Routed component profile ref routed valid =
        let (n, s) = &&-split _ _ valid in
        record {
          owner = c;
          listed = listed;
          routed = routed;
          id = refl;
          token = refl;
          component = component;
          destination =
              ap (λ x. x <> ("." <> (ref.namespace <> ".svc.cluster.local"))) ((eq_iff _ _).0 s)
              ∙ ap (λ x. component <> ("." <> (x <> ".svc.cluster.local"))) ((eq_iff _ _).0 n);
        }

    with_mesh-IsIsolated :
        (s : RouteSnapshot) (e : RouteEntry)
        → IsIsolated cs s
        → Routed cs e
        → IsIsolated cs (record s { mesh_entries = s.mesh_entries ++ e ∷ [] })
    with_mesh-IsIsolated s e i r = record {
      mesh = All-append (Routed cs) s.mesh_entries (e ∷ []) i.mesh (r, tt);
      ingress = i.ingress;
      selectors = i.selectors;
    }

    route_override-IsIsolated :
        (component : String) (profile : Component) (s : RouteSnapshot)
        → IsIsolated cs s
        → Gives (IsIsolated cs) (route_override p c plan component profile s)
    unfolding route_override
    route_override-IsIsolated component profile s i =
        let ref = workload_for c.runtime component in
        Gives-if _ (not (is_routed c)) _ _ (λ _. Gives-ok _ s i)
          λ routed.
            Gives-if _
              (str_eq ref.namespace (namespace_for_id c.id) && str_eq ref.service component) _ _
              (λ valid. Gives-ok _ _ (
                with_mesh-IsIsolated s _ i
                  (mesh_entry-Routed component profile ref (ground arith) valid)))
              (λ _. Gives-failed _ _)

    add_profile-IsIsolated :
        (component : String) (o : Option Component) (s : RouteSnapshot)
        → IsIsolated cs s
        → Gives (IsIsolated cs) (Snapshot.add_profile p c plan component o s)
    unfolding Snapshot.add_profile
    add_profile-IsIsolated component none s i = Gives-failed _ _
    add_profile-IsIsolated component (some profile) s i =
        Gives-if _ (not (str_eq profile.id component)) _ _ (λ _. Gives-failed _ _)
          λ _.
            Gives-if _ (not (has_endpoint profile)) _ _ (λ _. Gives-ok _ s i)
              λ _. route_override-IsIsolated component profile _ (with_domain-IsIsolated cs s _ i)

    add_overrides-IsIsolated :
        (names : List String) (s : RouteSnapshot)
        → IsIsolated cs s
        → Gives (IsIsolated cs) (add_overrides p c plan names s)
    unfolding add_overrides add_override
    add_overrides-IsIsolated [] s i = Gives-ok _ s i
    add_overrides-IsIsolated (n ∷ names) s i =
        Gives-bind _ _ _ _ (add_profile-IsIsolated n _ s i)
          (λ s' _ j. add_overrides-IsIsolated names s' j)

    -- The header of a selector does not say whose entry it is.
    ingress_entry-Hosted :
        (host : String)
        → is_admitted p (clock c) c ≡ true
        → endpoint_host p c ≡ ok host
        → Hosted cs (ingress_entry p c plan host)
    unfolding ingress_entry
    ingress_entry-Hosted host admitted known =
        selected plan.baseline.routing.preview_selector _ refl refl refl refl
      where
        selected :
            (o : Option PreviewSelector) (e : RouteEntry)
            → e.composition_id ≡ c.id
            → e.ownership_token ≡ c.runtime.ownership_token
            → e.message_isolation ≡ c.message_isolation
            → e.host ≡ host
            → Hosted cs (Snapshot.with_selector p o e)
        selected none e i t m h = record {
          entry = record {
            owner = c;
            listed = listed;
            admitted = admitted;
            id = i;
            token = t;
            isolation = m;
          };
          host = known ∙ ap ok (sym h);
        }
        selected (some _) e i t m h = record {
          entry = record {
            owner = c;
            listed = listed;
            admitted = admitted;
            id = i;
            token = t;
            isolation = m;
          };
          host = known ∙ ap ok (sym h);
        }

    add_selector-IsIsolated :
        (entry : RouteEntry) (o : Option PreviewSelector) (s : RouteSnapshot)
        → Admitted cs entry
        → IsIsolated cs s
        → Gives (IsIsolated cs) (add_selector p plan.baseline entry o s)
    unfolding add_selector
    add_selector-IsIsolated entry none s a i = Gives-ok _ s i
    add_selector-IsIsolated entry (some selector) s a i =
        Gives-bind (λ _. Unit) _ (baseline_host p plan.baseline)
          (λ host. ok (record s {
            selector_entries =
                s.selector_entries ++ Snapshot.selector_entry p entry selector host ∷ [];
          }))
          (record { at = λ _ _. tt })
          λ host _ _. Gives-ok _ _ (record {
            mesh = i.mesh;
            ingress = i.ingress;
            selectors =
                All-append (Admitted cs) s.selector_entries
                  (Snapshot.selector_entry p entry selector host ∷ []) i.selectors
                  (
                    record {
                      owner = a.owner;
                      listed = a.listed;
                      admitted = a.admitted;
                      id = a.id;
                      token = a.token;
                      isolation = a.isolation;
                    },
                    tt,
                  );
          })

    add_ingress-IsIsolated :
        (s : RouteSnapshot)
        → IsIsolated cs s
        → Gives (IsIsolated cs) (add_ingress p (clock c) c plan s)
    unfolding add_ingress
    add_ingress-IsIsolated s i =
        Gives-if _ (not (is_admitted p (clock c) c)) _ _ (λ _. Gives-ok _ s i)
          λ admitted.
            Gives-bind (λ _. Unit) _ (endpoint_host p c)
              (λ host.
                add_selector p plan.baseline (ingress_entry p c plan host)
                  plan.baseline.routing.preview_selector
                  (record s {
                    ingress_entries = s.ingress_entries ++ ingress_entry p c plan host ∷ [];
                  }))
              (record { at = λ _ _. tt })
              λ host known _.
                let h = ingress_entry-Hosted host (ground arith) known in
                add_selector-IsIsolated _ _ _ (h.entry) (record {
                  mesh = i.mesh;
                  ingress =
                      All-append (Hosted cs) s.ingress_entries (ingress_entry p c plan host ∷ [])
                        i.ingress (h, tt);
                  selectors = i.selectors;
                })

  add_plan-IsIsolated :
      (cs : List Composition) (c : Composition) (o : Option ResolvedPlan) (s : RouteSnapshot)
      → Memᴰ c cs
      → IsIsolated cs s
      → Gives (IsIsolated cs) (Snapshot.add_plan p (clock c) c o s)
  unfolding Snapshot.add_plan
  add_plan-IsIsolated cs c none s listed i = Gives-failed _ _
  add_plan-IsIsolated cs c (some plan) s listed i =
      Gives-bind _ _ _ _ (add_overrides-IsIsolated cs c listed plan _ s i)
        (λ s' _ j. add_ingress-IsIsolated cs c listed plan s' j)

  add_compositions-IsIsolated :
      (cs l : List Composition) (s : RouteSnapshot)
      → ((c : Composition) → Memᴰ c l → Memᴰ c cs)
      → IsIsolated cs s
      → Gives (IsIsolated cs) (add_compositions p clock l s)
  unfolding add_compositions add_composition
  add_compositions-IsIsolated cs [] s within i = Gives-ok _ s i
  add_compositions-IsIsolated cs (c ∷ l) s within i =
      Gives-bind _ _ _ _
        (add_plan-IsIsolated cs c c.runtime.plan _ (within c (Memᴰ.head refl))
          (record { mesh = i.mesh; ingress = i.ingress; selectors = i.selectors }))
        (λ s' _ j. add_compositions-IsIsolated cs l s' (λ d m. within d (Memᴰ.tail m)) j)

  -- Where a snapshot is built, every entry of the mesh belongs to a given composition whose routes
  -- are kept, carries its token and leads into its own namespace; every entry of the ingress belongs
  -- to one that is moreover not being deleted and has not expired by its clock, and stands at the
  -- host of its endpoint; and every entry of a selector belongs to such a composition.
  pub snapshot-IsIsolated :
      (cs : List Composition) (s : RouteSnapshot) → snapshot p clock cs ≡ ok s → IsIsolated cs s
  unfolding snapshot
  snapshot-IsIsolated cs s =
      (add_compositions-IsIsolated cs (sort_by (Snapshot.id_le p) cs) Snapshot.empty_snapshot
          (λ c. Memᴰ-sort_by (Snapshot.id_le p) c cs)
          (record { mesh = tt; ingress = tt; selectors = tt })).at
        s
