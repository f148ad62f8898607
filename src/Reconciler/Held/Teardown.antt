-- ===== src/Reconciler/Held/Teardown.antt =====
-- The parts of `destroy` leave the desired state and the endpoints as they are.
use envy.Common.{Bool, true, false, Option, none, some}
use envy.Model.{Composition, Platform, ResolvedPlan, Time}
use envy.Reconciler.Effects.{Oracle, Config, Messaging}
use envy.Reconciler.Keeps.{Keeps, Calm}
use envy.Reconciler.Intent.{held}
use envy.Reconciler.Held.{held_rules, held-modify, held-ask, sync_routes-Held}
use envy.Reconciler.Destroy

module _ (p : Platform) (o : Oracle) (cfg : Config) where
  retract-Held : Keeps (Calm held) (Destroy.retract p o cfg)
  unfolding Destroy.retract held
  retract-Held = search (held_rules, held-modify, sync_routes-Held)

  drain-Held : (until : Option Time) → Keeps (Calm held) (Destroy.drain p o cfg until)
  unfolding Destroy.drain held
  drain-Held none = search (held_rules, held-modify) depth 7
  drain-Held (some until) = search (held_rules, retract-Held)

  withdraw-Held : Keeps (Calm held) (Destroy.withdraw p o cfg)
  unfolding Destroy.withdraw
  withdraw-Held = search (held_rules, held-ask, drain-Held, tt) depth 9

  pub withdraw_published-Held :
      (b : Bool) → Keeps (Calm held) (Destroy.withdraw_published p o cfg b)
  unfolding Destroy.withdraw_published
  withdraw_published-Held b = search (held_rules, withdraw-Held)

  remove_namespace-Held : Keeps (Calm held) (Destroy.remove_namespace p o cfg)
  unfolding Destroy.remove_namespace
  remove_namespace-Held = search (held_rules, held-ask, tt) depth 9

  delete_subscriptions-Held :
      (m : Messaging) (plan : ResolvedPlan)
      → Keeps (Calm held) (Destroy.delete_subscriptions p o cfg m plan)
  unfolding Destroy.delete_subscriptions held
  delete_subscriptions-Held m plan = search (held_rules, held-ask, held-modify, tt) depth 9

  remove_isolated-Held :
      (m : Option Messaging) (plan : Option ResolvedPlan)
      → Keeps (Calm held) (Destroy.remove_isolated p o cfg m plan)
  unfolding Destroy.remove_isolated
  remove_isolated-Held (some m) (some plan) = delete_subscriptions-Held m plan
  remove_isolated-Held _ _ = search held_rules

  remove_messaging-Held : (c : Composition) → Keeps (Calm held) (Destroy.remove_messaging p o cfg c)
  unfolding Destroy.remove_messaging
  remove_messaging-Held c = search (held_rules, remove_isolated-Held)

  after_namespace-Held : (b : Bool) → Keeps (Calm held) (Destroy.after_namespace p o cfg b)
  unfolding Destroy.after_namespace Destroy.complete_destroy Destroy.mark_destroyed held
  after_namespace-Held true = search (held_rules, held-modify, remove_messaging-Held) depth 7
  after_namespace-Held false = search (held_rules, held-modify) depth 7

  pub after_routes-Held : (b : Bool) → Keeps (Calm held) (Destroy.after_routes p o cfg b)
  unfolding Destroy.after_routes
  after_routes-Held true = search (held_rules, remove_namespace-Held, after_namespace-Held)
  after_routes-Held false = search held_rules
