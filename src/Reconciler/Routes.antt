-- ===== src/Reconciler/Routes.antt =====
-- internal/reconciler/reconciler.go: `syncRoutes`. The mutex `routeMu` only keeps two calls apart.
use envy.Common.{Bool, false, Option, none, some, List, if◌then◌else◌, holds}
use envy.Model.{
  Composition, RouteSnapshot, RouteObservation, RouteSnapshot-discrete, Platform, noted,
  routes_pending,
}
use envy.Reconciler.Effects.{
  M, Oracle, ok, ask, pure, fail, lift, wrap, ◌>>=◌, ◌>>◌, check_guard, read_active, apply_routes,
}
use envy.Reconciler.Snapshot.{snapshot}

-- `reflect.DeepEqual(*r.routeCycle.applied, snapshot)`, where both are there.
abbrev pub already_applied : RouteSnapshot → Option (Option RouteSnapshot) → Bool
already_applied s none = false
already_applied s (some none) = false
already_applied s (some (some applied)) = holds (RouteSnapshot-discrete applied s)

-- Inside a scan, what was applied last.
unfoldable pub set_applied : Option RouteSnapshot → M (Unit {0})
set_applied a w =
    (ok tt, record w { route_cycle = elim w.route_cycle [ none ↦ none | some _ ↦ some a ] })

module _ (p : Platform) (o : Oracle) where
  -- The snapshot of the compositions read, by the wall clock.
  unfoldable pub build_snapshot : List Composition → M RouteSnapshot
  build_snapshot all w = lift (snapshot p (o.wall_clock w.history) all) w

  unfoldable pub accept : RouteObservation → RouteSnapshot → M (Unit {0})
  accept observed s =
      if observed.ready then set_applied (some s) else fail (noted routes_pending observed.message)

  unfoldable pub publish : RouteSnapshot → M (Unit {0})
  publish s = do
    set_applied none
    observed ← wrap "configure routes" (ask (apply_routes s) (λ h. o.apply_routes h s))
    accept observed s

  unfoldable pub publish_changed : RouteSnapshot → M (Unit {0})
  publish_changed s w = (if already_applied s w.route_cycle then pure tt else publish s) w

  unfoldable pub sync_routes : M (Unit {0})
  sync_routes = do
    ask check_guard o.guard
    all ← wrap "load aggregate routes" (ask read_active o.active)
    s ← build_snapshot all
    publish_changed s
