-- ===== src/Domain/Messaging/Validity.antt =====
-- internal/domain/messaging.go: what `ValidateMessaging` guarantees.
use envy.Common.{
  ◌+◌, ◌≤◌, ◌≡◌, refl, ap, subst, Bool, true, false, not, ◌&&◌, String, List, [], ◌∷◌, ◌++◌, length,
  length-append, Map, has_key, arith, leb, leb→le, &&-split, All, All-append, contains_text,
  is_empty,
}
use envy.Model.{Baseline, PubSubConsumer, PubSubTopic}
use envy.Domain.Catalog.{valid_catalog_id}
use envy.Domain.Messaging
use envy.Domain.Messaging.{
  Checked, passed, refused, require, listed, filter_ok, env_ok, env_key, is_resource,
  MessagingValidation, no_messaging, validate_consumer, validate_consumers, validate_topic,
  validate_topics, validate_publishers, validate_messaging,
}

-- All consumers that a baseline declares.
abbrev pub declared_by : Map PubSubConsumer → List PubSubConsumer
declared_by [] = []
declared_by ((_, c) ∷ cs) = c ∷ declared_by cs

abbrev pub consumers : Map PubSubTopic → List PubSubConsumer
consumers [] = []
consumers ((_, t) ∷ ts) = declared_by t.consumers ++ consumers ts

pub record IsConsumer (b : Baseline) (c : PubSubConsumer) : Type 0 where
  pub bound : has_key c.component b.components ≡ true
  pub resource : is_resource c.subscription ≡ true
  pub variable : env_ok c.subscription_env ≡ true
  pub filter : filter_ok c.filter ≡ true

-- What a check that passes establishes.
record Passes {A : Type 0} (P : A → Type 0) (r : Checked A) : Type 0 where
  at : (a : A) → r ≡ passed a → P a

got : {A : Type 0} → A → Checked A → A
got d (passed a) = a
got d (refused e) = d

Passes-passed : {A : Type 0} (P : A → Type 0) (a : A) → P a → Passes P (passed a)
unfolding got
Passes-passed P a h = record { at = λ x e. subst P (ap (got a) e) h }

Passes-require :
    {B : Type 0} (P : B → Type 0) (b : Bool) (message : String) (k : Checked B)
    → (b ≡ true → Passes P k)
    → Passes P (Messaging.◌>>=◌ (require b message) (λ _. k))
Passes-require P true message k h = h refl
Passes-require P false message k h = record { at = λ a e. cc }

Passes-bind :
    {A B : Type 0} (P : A → Type 0) (Q : B → Type 0) (r : Checked A) (f : A → Checked B)
    → Passes P r
    → ((a : A) → P a → Passes Q (f a))
    → Passes Q (Messaging.◌>>=◌ r f)
Passes-bind P Q (passed a) f h k = k a (h.at a refl)
Passes-bind P Q (refused e) f h k = record { at = λ a x. cc }

-- The consumers `cs` were counted and found valid.
record Counts (b : Baseline) (s : MessagingValidation) (cs : List PubSubConsumer)
    (t : MessagingValidation) : Type 0 where
  count : t.consumer_count ≡ s.consumer_count + length cs
  valid : All (IsConsumer b) cs

second_of : (a b c d : Bool) → (a && b && c && d) ≡ true → b ≡ true
second_of a b c d h = ground arith

validate_consumer-Counts :
    (b : Baseline) (s : MessagingValidation) (id : String) (c : PubSubConsumer)
    → Passes (Counts b s (c ∷ [])) (validate_consumer b s id c)
unfolding validate_consumer
validate_consumer-Counts b s id c =
    Passes-require _
      (valid_catalog_id id
        && is_resource c.subscription
        && contains_text c.subscription "/subscriptions/"
        && not (listed c.subscription s.subscriptions))
      _ _
      λ named. Passes-require _ (has_key c.component b.components) _ _ λ bound.
        Passes-require _ (env_ok c.subscription_env && not (listed (env_key c) s.environments)) _ _
          λ variable. Passes-require _ (filter_ok c.filter) _ _ λ filtered.
            Passes-passed _ _ (record {
              count = refl;
              valid = (
                record {
                  bound = bound;
                  resource = second_of _ _ _ _ named;
                  variable = (&&-split _ _ variable).0;
                  filter = filtered;
                },
                tt,
              );
            })

validate_consumers-Counts :
    (b : Baseline) (m : Map PubSubConsumer) (s : MessagingValidation)
    → Passes (Counts b s (declared_by m)) (validate_consumers b m s)
unfolding validate_consumers
validate_consumers-Counts b [] s = Passes-passed _ s (record { count = omega arith; valid = tt })
validate_consumers-Counts b ((id, c) ∷ m) s =
    Passes-bind (Counts b s (c ∷ [])) _ (validate_consumer b s id c) (validate_consumers b m)
      (validate_consumer-Counts b s id c)
      λ t g. record {
        at = λ u e.
            let h = (validate_consumers-Counts b m t).at u e in
            record { count = omega (arith, g.count, h.count); valid = (g.valid.0, h.valid) };
      }

validate_topic-Counts :
    (b : Baseline) (s : MessagingValidation) (name : String) (t : PubSubTopic)
    → Passes (Counts b s (declared_by t.consumers)) (validate_topic b s name t)
unfolding validate_topic
validate_topic-Counts b s name t =
    Passes-require _
      (valid_catalog_id name
        && is_resource t.topic
        && contains_text t.topic "/topics/"
        && not (listed t.topic s.topics))
      _ _
      λ _. Passes-require _ (not (is_empty t.publishers) && not (is_empty t.consumers)) _ _ λ _.
        Passes-bind (λ _. Unit) _ (validate_publishers b [] t.publishers) _
          (record { at = λ _ _. tt })
          λ _ _. record {
            at = λ u e.
                let h =
                  (validate_consumers-Counts b t.consumers
                      (record s { topics = t.topic ∷ s.topics })).at
                    u e in
                record { count = h.count; valid = h.valid };
          }

validate_topics-Counts :
    (b : Baseline) (m : Map PubSubTopic) (s : MessagingValidation)
    → Passes (Counts b s (consumers m)) (validate_topics b m s)
unfolding validate_topics
validate_topics-Counts b [] s = Passes-passed _ s (record { count = omega arith; valid = tt })
validate_topics-Counts b ((name, t) ∷ m) s =
    Passes-bind (Counts b s (declared_by t.consumers)) _ (validate_topic b s name t)
      (validate_topics b m) (validate_topic-Counts b s name t)
      λ v g. record {
        at = λ u e.
            let h = (validate_topics-Counts b m v).at u e in
            record {
              count =
                  omega (
                    arith,
                    g.count,
                    h.count,
                    length-append (declared_by t.consumers) (consumers m),
                  );
              valid =
                  All-append (IsConsumer b) (declared_by t.consumers) (consumers m) g.valid h.valid;
            };
      }

pub record IsMessaging (b : Baseline) : Type 0 where
  pub topics : length b.pubsub ≤ 20
  pub few : length (consumers b.pubsub) ≤ 40
  pub valid : All (IsConsumer b) (consumers b.pubsub)

-- A baseline whose messaging is accepted declares at most twenty topics and at most forty consumers
-- over all of them, and each consumer is bound to a component of the baseline, names a resource of
-- Pub/Sub and a variable that is not reserved, and has a filter that passes the test of filters.
pub validate_messaging-IsMessaging :
    (b : Baseline) → validate_messaging b ≡ passed tt → IsMessaging b
unfolding validate_messaging
validate_messaging-IsMessaging b e = (accepted).at tt e
  where
    required : (x : Bool) (message : String) → require x message ≡ passed tt → x ≡ true
    required true message q = refl
    required false message q = cc

    accepted : Passes (λ _. IsMessaging b) (validate_messaging b)
    accepted = Passes-require _ (leb (length b.pubsub) 20) _ _ λ topics.
        Passes-bind (Counts b no_messaging (consumers b.pubsub)) _
          (validate_topics b b.pubsub no_messaging) _
          (validate_topics-Counts b b.pubsub no_messaging)
          λ s g. record {
            at = λ _ q. record {
              topics = leb→le (length b.pubsub) 20 topics;
              few = omega (arith, g.count, leb→le s.consumer_count 40 (required _ _ q));
              valid = g.valid;
            };
          }
