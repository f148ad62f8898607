-- ===== src/Domain/Messaging.antt =====
-- internal/domain/messaging.go: Pub/Sub declarations, the filters that isolate a composition, and
-- the environment of its workloads.
pub mod Filter
pub mod Conjunction
pub mod Environment
pub mod Validity
pub mod Resolve
use envy.Common.{
  ℕ, ◌+◌, zero, suc, String, Bool, true, false, not, ◌&&◌, ◌||◌, Option, none, some, List, [], ◌∷◌,
  any, all, length, leb, ltb, ◌==◌, if◌then◌else◌, str_eq, codes, len, Map, lookup, has_key,
  starts_with, contains_text, ◌<>◌, is_empty,
}
use envy.Model.{Baseline, PubSubTopic, PubSubConsumer, Error, validation}
use envy.Domain.Catalog.{valid_catalog_id, is_lower, is_digit}
use Filter.{message_filter, balanced_filter}

-- A chain of checks that return an error.
pub data Checked (A : Type 0) : Type 0 where
  passed : A → Checked A
  refused : Error → Checked A

infixl 5 ◌>>=◌ ◌>>◌
abbrev pub ◌>>=◌ : {A B : Type 0} → Checked A → (A → Checked B) → Checked B
passed a >>= f = f a
refused e >>= f = refused e

abbrev pub ◌>>◌ : {B : Type 0} → Checked (Unit {0}) → Checked B → Checked B
m >> k = m >>= λ _. k

abbrev pub require : Bool → String → Checked (Unit {0})
require true message = passed tt
require false message = refused (validation message)

abbrev is_upper : ℕ → Bool
is_upper c = leb b'A' c && leb c b'Z'

abbrev is_letter : ℕ → Bool
is_letter c = is_lower c || is_upper c

abbrev is_alnum : ℕ → Bool
is_alnum c = is_letter c || is_digit c

abbrev one_of : List ℕ → ℕ → Bool
one_of cs c = any (λ d. c == d) cs

abbrev add_code : ℕ → List (List ℕ) → List (List ℕ)
add_code c [] = (c ∷ []) ∷ []
add_code c (s ∷ ss) = (c ∷ s) ∷ ss

-- The parts of a text between slashes.
abbrev pub segments : List ℕ → List (List ℕ)
segments [] = [] ∷ []
segments (c ∷ cs) = let rest = segments cs in if c == b'/' then [] ∷ rest else add_code c rest

abbrev project_part : List ℕ → Bool
project_part [] = false
project_part (c ∷ cs) = is_alnum c && all (λ d. is_alnum d || one_of (codes ".:-") d) cs

abbrev name_part : List ℕ → Bool
name_part [] = false
name_part (c ∷ cs) =
    is_letter c
    && all (λ d. is_alnum d || one_of (codes "._~+%-") d) cs
    && leb 2 (length cs)
    && leb (length cs) 254

abbrev same_codes : List ℕ → List ℕ → Bool
same_codes [] [] = true
same_codes (c ∷ cs) (d ∷ ds) = c == d && same_codes cs ds
same_codes _ _ = false

abbrev resource_parts : List (List ℕ) → Bool
resource_parts (a ∷ b ∷ c ∷ d ∷ []) =
    same_codes a (codes "projects")
    && project_part b
    && (same_codes c (codes "topics") || same_codes c (codes "subscriptions"))
    && name_part d
resource_parts _ = false

-- The regular expression `pubsubResource`. None of its classes has a slash.
unfoldable pub is_resource : String → Bool
is_resource text = resource_parts (segments (codes text))

-- The regular expression `messageEnv`.
abbrev env_codes : List ℕ → Bool
env_codes [] = false
env_codes (c ∷ cs) =
    (is_letter c || c == b'_') && all (λ d. is_alnum d || d == b'_') cs && leb (length cs) 127

unfoldable pub is_message_env : String → Bool
is_message_env text = env_codes (codes text)

pub record MessagingValidation : Type 0 where
  pub topics : List String
  pub subscriptions : List String
  pub environments : List String
  pub consumer_count : ℕ

abbrev pub listed : String → List String → Bool
listed s ss = any (str_eq s) ss

unfoldable pub validate_publishers : Baseline → List String → List String → Checked (Unit {0})
validate_publishers b seen [] = passed tt
validate_publishers b seen (p ∷ ps) = do
  require (has_key p b.components && not (listed p seen))
      "Pub/Sub publishers must be distinct bound components"
  validate_publishers b (p ∷ seen) ps

abbrev isolation_probe : String
isolation_probe = "attributes.envy_composition = \"00000000000000000000000000000000\""

-- The last test of a consumer: a filter that is balanced, does not name the isolation attribute,
-- has no control character and fits 256 bytes once composed.
unfoldable pub filter_ok : String → Bool
unfolding message_filter balanced_filter
filter_ok filter =
    balanced_filter (codes filter)
    && not (contains_text filter "envy_composition")
    && leb (len (message_filter isolation_probe filter)) 256
    && not (any (λ c. c == 13 || c == 10 || c == 0) (codes filter))

unfoldable pub env_ok : String → Bool
unfolding is_message_env
env_ok env = is_message_env env && not (starts_with env "ENVY_") && not (str_eq env "POD_UID")

abbrev pub env_key : PubSubConsumer → String
env_key c = c.component <> ("/" <> c.subscription_env)

unfoldable pub validate_consumer :
    Baseline → MessagingValidation → String → PubSubConsumer → Checked MessagingValidation
validate_consumer b s id c = do
  require
      (valid_catalog_id id
        && is_resource c.subscription
        && contains_text c.subscription "/subscriptions/"
        && not (listed c.subscription s.subscriptions))
      "Pub/Sub consumers require unique fully qualified subscription names and logical DNS IDs"
  require (has_key c.component b.components) "Pub/Sub consumer must be a bound component"
  require (env_ok c.subscription_env && not (listed (env_key c) s.environments))
      "Pub/Sub subscription environment keys must be valid, nonreserved and unique per component"
  require (filter_ok c.filter)
      "Pub/Sub business filter is invalid or exceeds the 256-byte composed filter limit"
  passed (record s {
    consumer_count = s.consumer_count + 1;
    subscriptions = c.subscription ∷ s.subscriptions;
    environments = env_key c ∷ s.environments;
  })

-- The loop over the consumers of a topic.
unfoldable pub validate_consumers :
    Baseline → Map PubSubConsumer → MessagingValidation → Checked MessagingValidation
validate_consumers b [] s = passed s
validate_consumers b ((id, c) ∷ cs) s = do
  s' ← validate_consumer b s id c
  validate_consumers b cs s'

unfoldable pub validate_topic :
    Baseline → MessagingValidation → String → PubSubTopic → Checked MessagingValidation
validate_topic b s name t = do
  require
      (valid_catalog_id name
        && is_resource t.topic
        && contains_text t.topic "/topics/"
        && not (listed t.topic s.topics))
      "Pub/Sub topics require unique fully qualified topic names and logical DNS IDs"
  require (not (is_empty t.publishers) && not (is_empty t.consumers))
      "Pub/Sub topics require publishers and consumer bindings"
  validate_publishers b [] t.publishers
  validate_consumers b t.consumers (record s { topics = t.topic ∷ s.topics })

unfoldable pub validate_topics :
    Baseline → Map PubSubTopic → MessagingValidation → Checked MessagingValidation
validate_topics b [] s = passed s
validate_topics b ((name, t) ∷ ts) s = do s' ← validate_topic b s name t; validate_topics b ts s'

abbrev pub no_messaging : MessagingValidation
no_messaging = record { topics = []; subscriptions = []; environments = []; consumer_count = 0 }

unfoldable pub validate_messaging : Baseline → Checked (Unit {0})
validate_messaging b = do
  require (leb (length b.pubsub) 20) "at most twenty Pub/Sub topics are supported"
  s ← validate_topics b b.pubsub no_messaging
  require (leb s.consumer_count 40) "at most forty Pub/Sub consumer bindings are supported"
