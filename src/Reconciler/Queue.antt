-- ===== src/Reconciler/Queue.antt =====
-- internal/reconciler/queue.go: the session of an event-driven reconciler. The work queue is a
-- library's, so what is asked of it is a list of calls. The mutex of the index only excludes two
-- uses at once, and what is logged is left out.
pub mod Index
pub mod Wakes
pub mod Processed
use envy.Common.{
  ℕ, ◌-◌, min, max, String, Bool, true, false, ◌&&◌, Option, none, some, List, [], ◌∷◌, Map, any,
  is_empty, get_or, insert, if◌then◌else◌, str_eq,
}
use envy.Model.{Composition, Platform, Time, Err}
use envy.Domain.Catalog.{namespace_for_id}
use envy.Reconciler.Effects.{
  M, Oracle, Config, Worker, History, Res, ok, failed, ask, pure, modify, ◌>>=◌, ◌>>◌, read_domain,
}
use envy.Reconciler.Failure.{seconds}
use envy.Reconciler.Cycle.{reconcile}

pub record RoutingKey : Type 0 where
  pub project : String
  pub baseline : String

abbrev pub same_key : RoutingKey → RoutingKey → Bool
same_key a b = str_eq a.project b.project && str_eq a.baseline b.baseline

abbrev pub routing_key : Composition → RoutingKey
routing_key c = record { project = c.project; baseline = c.baseline }

-- A call of the work queue.
pub data QueueCall : Type 0 where
  add : RoutingKey → QueueCall
  add_after : RoutingKey → Time → QueueCall
  add_rate_limited : RoutingKey → QueueCall
  forget : RoutingKey → QueueCall
  done : RoutingKey → QueueCall

-- A set of routing keys, each listed once.
abbrev pub insert_key : RoutingKey → List RoutingKey → List RoutingKey
insert_key k keys = if any (same_key k) keys then keys else k ∷ keys

-- The index by namespace, and the calls of the queue, the latest first.
pub record QueueSession : Type 0 where
  pub by_namespace : Map (List RoutingKey)
  pub calls : List QueueCall

-- The namespaces whose events concern a composition: its own, and those of its baseline.
unfoldable pub namespaces : Composition → List String
namespaces c = namespace_for_id c.id ∷ elim c.runtime.plan [
  | none ↦ []
  | some plan ↦ plan.baseline.routing.namespace ∷ plan.baseline.routing.gateway_namespace ∷ []
]

abbrev pub keys_of : String → Map (List RoutingKey) → List RoutingKey
keys_of ns m = get_or [] ns m

-- The loop over the namespaces.
abbrev pub index_namespaces :
    RoutingKey → List String → Map (List RoutingKey) → Map (List RoutingKey)
index_namespaces k [] m = m
index_namespaces k (ns ∷ rest) m =
    index_namespaces k rest (insert ns (insert_key k (keys_of ns m)) m)

unfoldable pub index : Composition → QueueSession → QueueSession
index c s = record s {
  by_namespace = index_namespaces (routing_key c) (namespaces c) s.by_namespace;
}

abbrev pub enqueue : RoutingKey → QueueSession → QueueSession
enqueue k s = record s { calls = add k ∷ s.calls }

-- `index` and `Add`, for each composition.
abbrev pub index_each : List Composition → QueueSession → QueueSession
index_each [] s = s
index_each (c ∷ cs) s = index_each cs (enqueue (routing_key c) (index c s))

-- `sweep`, with what `Active` answers.
unfoldable pub sweep : Res (List Composition) → QueueSession → QueueSession
sweep (failed e) s = s
sweep (ok all) s = index_each all (record s { by_namespace = [] })

abbrev pub enqueue_all : List RoutingKey → QueueSession → QueueSession
enqueue_all [] s = s
enqueue_all (k ∷ keys) s = enqueue_all keys (enqueue k s)

abbrev pub enqueue_everything : Map (List RoutingKey) → QueueSession → QueueSession
enqueue_everything [] s = s
enqueue_everything ((_, keys) ∷ m) s = enqueue_everything m (enqueue_all keys s)

unfoldable pub namespace_changed : String → QueueSession → QueueSession
namespace_changed ns s =
    if str_eq ns ""
    then enqueue_everything s.by_namespace s
    else enqueue_all (keys_of ns s.by_namespace) s

-- What `Get` answers.
abbrev pub index_returned : Res Composition → QueueSession → QueueSession
index_returned (failed e) s = s
index_returned (ok c) s = enqueue (routing_key c) (index c s)

-- `desiredChanged`, with what `Active` and `Get` answer.
unfoldable pub desired_changed :
    String → Res (List Composition) → Res Composition → QueueSession → QueueSession
desired_changed id all one s = if str_eq id "" then sweep all s else index_returned one s

-- What wakes a session, with the answers of the store.
pub data Event : Type 0 where
  swept : Res (List Composition) → Event
  in_namespace : String → Event
  of_desired : String → Res (List Composition) → Res Composition → Event

unfoldable pub handle : Event → QueueSession → QueueSession
handle (swept all) s = sweep all s
handle (in_namespace ns) s = namespace_changed ns s
handle (of_desired id all one) s = desired_changed id all one s

unfoldable pub handle_all : List Event → QueueSession → QueueSession
handle_all [] s = s
handle_all (e ∷ es) s = handle_all es (handle e s)

-- `&queueSession{…}`
abbrev pub new_session : QueueSession
new_session = record { by_namespace = []; calls = [] }

module _ (p : Platform) (o : Oracle) (cfg : Config) where
  -- The loop of a worker over the compositions of a routing domain.
  unfoldable pub reconcile_rows : List Composition → M (Unit {0})
  reconcile_rows [] = pure tt
  reconcile_rows (c ∷ cs) = do modify (λ _. c); reconcile p o cfg true; reconcile_rows cs

  -- The least delay that the compositions ask for, at most the one given.
  abbrev pub least_delay : History → Time → List Composition → Time
  least_delay h delay [] = delay
  least_delay h delay (c ∷ cs) =
      least_delay h (min (max (c.runtime.next_attempt_at - o.wall_clock h c) cfg.interval) delay) cs

  unfoldable pub ask_domain : RoutingKey → M (List Composition)
  ask_domain k =
      ask (read_domain k.project k.baseline) (λ h. o.active_domain h k.project k.baseline)

  abbrev pub delay_of : List Composition → History → Option Time
  delay_of rows h = if is_empty rows then none else some (least_delay h (seconds 30) rows)

  -- The delay after which the domain is to be looked at again, if it has compositions left.
  unfoldable pub next_delay : List Composition → M (Option Time)
  next_delay rows w = (ok (delay_of rows w.history), w)

  unfoldable pub reconcile_domain : RoutingKey → M (Option Time)
  reconcile_domain k = do
    rows ← ask_domain k
    reconcile_rows rows
    left ← ask_domain k
    next_delay left

  -- The calls of the queue, the latest first.
  abbrev pub conclude_key : RoutingKey → Res (Option Time) → List QueueCall
  conclude_key k (failed e) = done k ∷ add_rate_limited k ∷ []
  conclude_key k (ok none) = done k ∷ forget k ∷ []
  conclude_key k (ok (some delay)) = done k ∷ forget k ∷ add_after k delay ∷ []

  -- A worker has no scan under way: `worker.routeCycle = nil`.
  unfoldable pub process : RoutingKey → Worker → List QueueCall × Worker
  process k w =
      let (r, w') = reconcile_domain k (record w { route_cycle = none }) in (conclude_key k r, w')
