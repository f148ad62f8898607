-- ===== src/Reconciler/Step/Messaging.antt =====
-- internal/reconciler/reconciler.go: the part of `step` for isolated messaging.
use envy.Common.{
  String, Bool, true, false, ◌||◌, Option, none, some, List, [], ◌∷◌, ◌++◌, map, any, Map, get_or,
  insert, if◌then◌else◌, str_eq, ◌<>◌, set,
}
use envy.Model.{Composition, Condition, Err, plain, ResolvedPlan, MessageSubscription}
use envy.Reconciler.Effects.{
  M, Oracle, Messaging, Res, ok, failed, ask, ask_both, catch, pure, fail, gets, modify, persist,
  ◌>>=◌, ◌>>◌, validate_messaging, ensure_messaging,
}
use envy.Reconciler.Failure.{waiting_condition}
use envy.Reconciler.Destroy.{unready}

-- The inner loop: what is remembered of the subscription of the same name.
abbrev recall : Map Bool → MessageSubscription → List MessageSubscription → MessageSubscription
recall seen d [] = d
recall seen d (old ∷ rest) =
    recall seen
      (if str_eq old.name d.name
        then record d {
          ready = old.ready || get_or false old.name seen;
          backlog_may_be_lost = old.backlog_may_be_lost;
          instance_name = old.instance_name;
        }
        else d)
      rest

-- The desired subscriptions, with what was observed before.
unfoldable pub desired_subscriptions : ResolvedPlan → Composition → List MessageSubscription
desired_subscriptions plan c =
    let seen = c.runtime.messaging_observed in
    map (λ d. recall seen (record d { ready = get_or false d.name seen }) c.message_subscriptions)
      plan.message_subscriptions

abbrev note_ready : List MessageSubscription → Map Bool → Map Bool
note_ready [] seen = seen
note_ready (s ∷ ss) seen = note_ready ss (if s.ready then insert s.name true seen else seen)

unfoldable pub store_subscriptions : List MessageSubscription → Composition → Composition
store_subscriptions subs c = record c {
  message_subscriptions = subs;
  runtime = record (c.runtime) {
    messaging_observed = note_ready subs c.runtime.messaging_observed;
  };
}

-- The first subscription that is not ready.
unfoldable pub first_unready : List MessageSubscription → Option String
first_unready [] = none
first_unready (s ∷ ss) = if s.ready then first_unready ss else some s.name

abbrev messaging_ready : Condition
messaging_ready = record {
  kind = "MessagingReady";
  status = true;
  message = "filtered subscriptions ready; application propagation requires separate verification";
}

abbrev backlog_lost : Condition
backlog_lost = record {
  kind = "MessagingBacklogLost";
  status = true;
  message = "a subscription was recreated; previously queued messages may be lost";
}

unfoldable pub confirm_messaging : Composition → Composition
confirm_messaging c =
    let ready = set c.conditions 3 messaging_ready in
    let lost = any (λ s. s.backlog_may_be_lost) c.message_subscriptions in
    record c { conditions = if lost then ready ++ backlog_lost ∷ [] else ready }

abbrev pub none_ready : Composition → Composition
none_ready c = record c { message_subscriptions = map unready c.message_subscriptions }

abbrev pub expect_messaging : Composition → Composition
expect_messaging c = record c {
  conditions = c.conditions ++ waiting_condition "MessagingReady" "" ∷ [];
}

module _ (o : Oracle) where
  -- What was observed is durable before any publisher can start.
  unfoldable pub confirm : Option String → M (Unit {0})
  confirm (some name) = fail (plain ("Pub/Sub subscription is not ready: " <> name))
  confirm none = modify confirm_messaging >> persist o

  unfoldable pub check_ready : Option Err → List MessageSubscription → M (Unit {0})
  check_ready (some e) subs = fail e
  check_ready none subs = confirm (first_unready subs)

  unfoldable pub ensure_subscriptions : Messaging → ResolvedPlan → M (Unit {0})
  ensure_subscriptions messaging plan = do
    spec ← gets (λ c. record {
      composition_id = c.id;
      ownership_token = c.runtime.ownership_token;
      subscriptions = desired_subscriptions plan c;
    })
    got ← ask_both (ensure_messaging spec) (λ h. messaging.ensure h spec)
    modify (store_subscriptions got.0)
    check_ready got.1 got.0

  unfoldable pub validated : Res (Unit {0}) → M (Unit {0})
  validated (ok _) = pure tt
  validated (failed e) = modify none_ready >> fail e

  unfoldable pub prepare_with : Messaging → ResolvedPlan → M (Unit {0})
  prepare_with messaging plan = do
    r ← catch (ask (validate_messaging plan.baseline) (λ h. messaging.validate h plan.baseline))
    validated r
    ensure_subscriptions messaging plan

  unfoldable pub prepare_by : Option Messaging → ResolvedPlan → M (Unit {0})
  prepare_by none plan = fail (plain "Pub/Sub provider unavailable")
  prepare_by (some messaging) plan = prepare_with messaging plan

  unfoldable pub prepare_isolated : ResolvedPlan → M (Unit {0})
  prepare_isolated plan = do modify expect_messaging; prepare_by o.messaging plan

  unfoldable pub prepare_messaging : ResolvedPlan → M (Unit {0})
  prepare_messaging plan = do
    isolated ← gets (λ c. c.message_isolation)
    (if isolated then prepare_isolated plan else pure tt)
