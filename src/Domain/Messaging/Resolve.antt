-- ===== src/Domain/Messaging/Resolve.antt =====
-- internal/domain/messaging.go: `ResolveMessaging` and `MessagingEnvironment`.
use envy.Common.{
  String, Bool, false, Option, none, some, List, [], ◌∷◌, ◌++◌, if◌then◌else◌, str_eq, Map, insert,
  ◌<>◌, sort_by, text_le,
}
use mathlib.Core.Option
use envy.Model.{Baseline, PubSubTopic, PubSubConsumer, MessageSubscription, Platform, Time}
use envy.Domain.Messaging.Filter.{message_filter}

-- The loop over a topic's consumers: the inherited subscription of the component is emptied.
abbrev pub blank_consumers : String → Map PubSubConsumer → Map String → Map String
blank_consumers component [] env = env
blank_consumers component ((_, c) ∷ cs) env =
    blank_consumers component cs
      (if str_eq c.component component then insert c.subscription_env "" env else env)

abbrev pub blank_topics : String → Map PubSubTopic → Map String → Map String
blank_topics component [] env = env
blank_topics component ((_, t) ∷ ts) env =
    blank_topics component ts (blank_consumers component t.consumers env)

abbrev pub bind_subscriptions : String → List MessageSubscription → Map String → Map String
bind_subscriptions component [] env = env
bind_subscriptions component (s ∷ ss) env =
    bind_subscriptions component ss
      (if str_eq s.component component then insert s.subscription_env s.name env else env)

unfoldable pub messaging_environment :
    Baseline → String → Bool → List MessageSubscription → Map String
messaging_environment b component isolated subscriptions =
    let flag = ("ENVY_MESSAGE_ISOLATION", if isolated then "true" else "false") ∷ [] in
    let env = blank_topics component b.pubsub flag in
    if isolated then bind_subscriptions component subscriptions env else env

abbrev extend : String → List String → List String
extend c [] = c ∷ []
extend c (s ∷ ss) = (c <> s) ∷ ss

-- `strings.Split(s, "/")`
abbrev pub split_slash : String → List String
split_slash String.[] = "" ∷ []
split_slash (String.◌∷◌ c s) =
    let rest = split_slash s in
    let first = String.◌∷◌ c String.[] in if str_eq first "/" then "" ∷ rest else extend first rest

-- `strings.Split(topic, "/")[1]`, where a text with no slash is a panic, `none`.
abbrev pub topic_project : String → Option String
topic_project topic = elim (split_slash topic) [
  | [] ↦ none
  | _ ∷ rest ↦ elim rest [ [] ↦ none | project ∷ _ ↦ some project ]
]

abbrev pub subscription_le : MessageSubscription → MessageSubscription → Bool
subscription_le a b = text_le a.name b.name

module _ (p : Platform) (installation id : String) (expiry : Time) where
  -- One appended subscription.
  unfoldable pub resolve_consumer :
      String → PubSubTopic → String → PubSubConsumer → Option MessageSubscription
  resolve_consumer name t consumer c = elim (topic_project t.topic) [
    | none ↦ none
    | some project ↦ some (record {
      instance_name = "";
      name =
          "projects/"
          <> (project
              <> ("/subscriptions/envy-"
                  <> p.digest 20
                      (installation <> ("/" <> (id <> ("/" <> (name <> ("/" <> consumer))))))));
      topic = t.topic;
      component = c.component;
      subscription_env = c.subscription_env;
      filter = message_filter ("attributes.envy_composition = " <> p.quote id) c.filter;
      retention = "604800s";
      expires_at = expiry;
      ready = false;
      backlog_may_be_lost = false;
    })
  ]

  abbrev pub resolve_consumers :
      String → PubSubTopic → Map PubSubConsumer → Option (List MessageSubscription)
  resolve_consumers name t [] = some []
  resolve_consumers name t ((consumer, c) ∷ cs) = elim (resolve_consumer name t consumer c) [
    | none ↦ none
    | some s ↦ Option.map (λ ss. s ∷ ss) (resolve_consumers name t cs)
  ]

  abbrev pub resolve_topics : Map PubSubTopic → Option (List MessageSubscription)
  resolve_topics [] = some []
  resolve_topics ((name, t) ∷ ts) = elim (resolve_consumers name t t.consumers) [
    | none ↦ none
    | some ss ↦ Option.map (λ rest. ss ++ rest) (resolve_topics ts)
  ]

  unfoldable pub resolve_messaging : Baseline → Option (List MessageSubscription)
  unfolding resolve_consumer
  resolve_messaging b = Option.map (sort_by subscription_le) (resolve_topics b.pubsub)
