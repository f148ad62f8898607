-- ===== src/Reconciler/Destroy.antt =====
-- internal/reconciler/reconciler.go: `destroy`, the teardown of a composition.
pub mod Order
pub mod Trail
pub mod Retraction
pub mod Drained
pub mod Confirmed
use envy.Common.{
  ℕ, ◌+◌, String, Bool, true, false, not, ◌&&◌, ◌||◌, Option, none, some, List, [], ◌∷◌, Map, map,
  copy, if◌then◌else◌, str_eq, ltb,
}
use envy.Model.{
  Composition, Condition, Phase, Platform, Err, plain, WorkloadRef, MessageSubscription, Time,
  ResolvedPlan,
}
use envy.Domain.Catalog.{namespace_for_id, no_workload}
use envy.Reconciler.Effects.{
  M, Oracle, Config, Messaging, MessagingSpec, Res, ok, failed, ask, pure, fail, gets, modify, lift,
  wrap, clock, persist, ◌>>=◌, ◌>>◌, verify_absent, delete_namespace, confirm_absent,
  delete_messaging,
}
use envy.Reconciler.Snapshot.{endpoint_host}
use envy.Reconciler.Routes.{sync_routes}
use envy.Reconciler.Failure.{set_ready, set_operation, schedule, waiting_condition}

-- The assignments before any call.
unfoldable pub begin_destroy : Composition → Composition
begin_destroy c =
    let d = set_ready false (record c { phase = Phase.destroying }) in
    record d { latest_operation = record (d.latest_operation) { status = "running" } }

abbrev pub conflicts : WorkloadRef → WorkloadRef → Bool
conflicts ref seen =
    not (str_eq seen.namespace ref.namespace)
    || not (str_eq seen.ownership_token ref.ownership_token)
    || not (str_eq ref.namespace_uid "")
      && not (str_eq seen.namespace_uid "")
      && not (str_eq ref.namespace_uid seen.namespace_uid)

abbrev pub take_uid : WorkloadRef → WorkloadRef → WorkloadRef
take_uid ref seen =
    if str_eq seen.namespace_uid "" then ref else record ref { namespace_uid = seen.namespace_uid }

-- The loop over the recorded workloads: the reference to delete, or nothing where they disagree.
unfoldable pub agree : WorkloadRef → Map WorkloadRef → Option WorkloadRef
agree ref [] = some ref
agree ref ((_, seen) ∷ rest) =
    if str_eq seen.namespace ""
    then agree ref rest
    else if conflicts ref seen
    then none
    else agree (take_uid ref seen) rest

-- The namespace that belongs to a composition.
abbrev pub owned_namespace : Composition → WorkloadRef
owned_namespace c = record no_workload {
  namespace = namespace_for_id c.id;
  ownership_token = c.runtime.ownership_token;
}

-- The reference that is deleted, from the workloads on record.
unfoldable pub cleanup_ref : Composition → Res WorkloadRef
unfolding agree
cleanup_ref c =
    elim (agree (owned_namespace c) (copy c.runtime.workloads c.runtime.retiring_workloads)) [
      | none ↦ failed (plain "workload namespace ownership identities disagree")
      | some ref ↦ ok ref
    ]

abbrev pub unready : MessageSubscription → MessageSubscription
unready s = record s { ready = false }

abbrev pub with_drain : Time → Composition → Composition
with_drain until c = record c {
  runtime = record (c.runtime) { drain_until = some until };
  last_error = none;
}

abbrev pub without_routes : Composition → Composition
without_routes c = record c { runtime = record (c.runtime) { routes_removed = true } }

-- The assignments once everything is gone.
unfoldable pub mark_destroyed : Composition → Composition
mark_destroyed c = set_operation "succeeded" none (record c {
  phase = Phase.destroyed;
  last_error = none;
  runtime = record (c.runtime) { attempts = 0 };
  conditions =
      waiting_condition "WorkloadsReady" "owned workloads removed"
      ∷ waiting_condition "RoutesConfigured" "composition routes removed"
      ∷ waiting_condition "RouteVerified" "composition endpoint withdrawn"
      ∷ [];
})

module _ (p : Platform) (o : Oracle) (cfg : Config) where
  -- Routes are withdrawn for good: recorded first, and then published.
  unfoldable pub retract : M (Unit {0})
  retract = do modify without_routes; persist o; sync_routes p o

  -- Requests in flight are given time; `true` when that time is over.
  unfoldable pub drain : Option Time → M Bool
  drain none = do now ← clock o; modify (with_drain (now + cfg.drain_timeout)); pure false
  drain (some until) = do
    now ← clock o
    if ltb now until then pure false else (retract >> pure true)

  -- `true` when no route is left, `false` while waiting.
  unfoldable pub withdraw : M Bool
  withdraw = do
    host ← gets (endpoint_host p)
    name ← lift host
    ask (verify_absent name) (λ h. o.verify_absent h name)
    until ← gets (λ c. c.runtime.drain_until)
    drain until

  abbrev pub is_published : Composition → Bool
  is_published c = c.runtime.routing_active && not c.runtime.routes_removed

  unfoldable pub withdraw_published : Bool → M Bool
  withdraw_published published = if published then withdraw else pure true

  -- Whether the namespace with all overrides is gone.
  unfoldable pub remove_namespace : M Bool
  remove_namespace = do
    found ← gets cleanup_ref
    ref ← lift found
    wrap "delete owned workload" (ask (delete_namespace ref) (λ h. o.delete h ref))
    wrap "confirm workload cleanup" (ask (confirm_absent ref) (λ h. o.absent h ref))

  abbrev pub cleanup_spec : Composition → ResolvedPlan → MessagingSpec
  cleanup_spec c plan = record {
    composition_id = c.id;
    ownership_token = c.runtime.ownership_token;
    subscriptions = plan.message_subscriptions;
  }

  unfoldable pub delete_subscriptions : Messaging → ResolvedPlan → M Bool
  delete_subscriptions messaging plan = do
    spec ← gets (λ c. cleanup_spec c plan)
    gone ← ask (delete_messaging spec) (λ h. messaging.delete h spec)
    (if gone
        then (modify (λ c. record c { message_subscriptions = map unready c.message_subscriptions })
            >> pure true)
        else pure false)

  unfoldable pub remove_isolated : Option Messaging → Option ResolvedPlan → M Bool
  remove_isolated (some messaging) (some plan) = delete_subscriptions messaging plan
  remove_isolated _ _ = fail (plain "Pub/Sub cleanup requires provider and resolved plan")

  -- Whether the isolated subscriptions are gone.
  unfoldable pub remove_messaging : Composition → M Bool
  remove_messaging c =
      if c.message_isolation then remove_isolated o.messaging c.runtime.plan else pure true

  unfoldable pub complete_destroy : Bool → M (Unit {0})
  complete_destroy gone = if gone then modify mark_destroyed else pure tt

  unfoldable pub after_namespace : Bool → M (Unit {0})
  after_namespace true = do c ← gets (λ c. c); gone ← remove_messaging c; complete_destroy gone
  after_namespace false = do now ← clock o; modify (schedule (now + cfg.interval))

  unfoldable pub after_routes : Bool → M (Unit {0})
  after_routes true = do absent ← remove_namespace; after_namespace absent
  after_routes false = pure tt

  unfoldable pub teardown : M (Unit {0})
  teardown = do
    sync_routes p o
    published ← gets is_published
    withdrawn ← withdraw_published published
    after_routes withdrawn

  unfoldable pub destroy : M (Unit {0})
  destroy = modify begin_destroy >> teardown
