-- ===== src/Scenarios/Events.antt =====
-- internal/reconciler/queue.go: a session of one sweep and one event, and a worker's turn.
use envy.Common.{◌↔◌, refl, [], ◌∷◌, List}
use mathlib.Core.List.{Memᴰ}
use envy.Reconciler.Effects.{ok}
use envy.Reconciler.Queue.{
  Event, swept, in_namespace, handle_all, new_session, namespace_changed, namespaces, keys_of,
  routing_key, process,
}
use envy.Reconciler.Queue.Index.{Covers}
use envy.Reconciler.Queue.Wakes.{seen, IsWoken, handle_all-Covers, handle_all-wakes}
use envy.Reconciler.Queue.Processed.{IsProcessed, process-IsProcessed}
use envy.Scenarios.Fixtures.{platform, oracle, config, published, start}

abbrev events : List Event
events = swept (ok (published ∷ [])) ∷ in_namespace "shop" ∷ []

handle_all-Covers_example :
    Memᴰ (routing_key published) (keys_of "shop" (handle_all events new_session).by_namespace)
    ↔ Covers (seen events []) (routing_key published) "shop"
handle_all-Covers_example = handle_all-Covers events (routing_key published) "shop"

of_baseline : Memᴰ "shop" (namespaces published)
unfolding namespaces
of_baseline = Memᴰ.tail (Memᴰ.head refl)

handle_all-wakes_example :
    IsWoken
      (routing_key published)
      (handle_all events new_session).calls
      (namespace_changed "shop" (handle_all events new_session)).calls
handle_all-wakes_example = handle_all-wakes events published "shop" (Memᴰ.head refl) of_baseline

process-IsProcessed_example :
    IsProcessed platform oracle config
      (routing_key published)
      (start published)
      (process platform oracle config (routing_key published) (start published))
process-IsProcessed_example =
    process-IsProcessed platform oracle config (routing_key published) (start published) tt
