-- ===== src/Scenarios/Domains.antt =====
-- internal/domain: identifiers, filters and environments that the theorems are applied to.
use envy.Common.{◌≡◌, ◌↔◌, refl, [], true, codes}
use mathlib.Core.List.{Memᴰ}
use envy.Domain.Catalog.{valid_catalog_id}
use envy.Domain.Catalog.Labels.{IsLabel, valid_catalog_id-IsLabel}
use envy.Domain.Messaging.Filter.{balanced_filter, message_filter}
use envy.Domain.Messaging.Conjunction.{IsConjunction, message_filter-balanced}
use envy.Domain.Messaging
use envy.Domain.Messaging.Validity.{IsMessaging, validate_messaging-IsMessaging}
use envy.Domain.Messaging.Resolve.{messaging_environment}
use envy.Domain.Messaging.Environment.{IsKept, messaging_environment-IsKept}
use envy.Scenarios.Fixtures.{baseline, orders, orders_consumer}

valid_catalog_id-IsLabel_example : (valid_catalog_id "web-2" ≡ true) ↔ IsLabel (codes "web-2")
valid_catalog_id-IsLabel_example = valid_catalog_id-IsLabel "web-2"

isolating : balanced_filter (codes "attributes.envy_composition = \"c1\"") ≡ true
unfolding balanced_filter
isolating = refl

by_region : balanced_filter (codes "(attributes.region = \"e)u\")") ≡ true
unfolding balanced_filter
by_region = refl

message_filter-balanced_example :
    (balanced_filter (
        codes
          (message_filter "attributes.envy_composition = \"c1\"" "(attributes.region = \"e)u\")"))
      ≡ true)
    × IsConjunction "attributes.envy_composition = \"c1\"" "(attributes.region = \"e)u\")" (
        codes
          (message_filter "attributes.envy_composition = \"c1\"" "(attributes.region = \"e)u\")"))
message_filter-balanced_example =
    message_filter-balanced "attributes.envy_composition = \"c1\"" "(attributes.region = \"e)u\")"
      isolating by_region

messaging_environment-IsKept_example :
    IsKept "web" "ORDERS_SUBSCRIPTION" true [] (messaging_environment baseline "web" true [])
messaging_environment-IsKept_example =
    messaging_environment-IsKept baseline true [] "orders" orders "web" orders_consumer
      (Memᴰ.head refl) (Memᴰ.head refl)

accepted : Messaging.validate_messaging baseline ≡ Messaging.Checked.passed tt
unfolding Messaging.validate_messaging Messaging.validate_topics Messaging.validate_topic
    Messaging.validate_publishers Messaging.validate_consumers Messaging.validate_consumer
    Messaging.is_resource Messaging.env_ok Messaging.filter_ok valid_catalog_id
accepted = refl

validate_messaging-IsMessaging_example : IsMessaging baseline
validate_messaging-IsMessaging_example = validate_messaging-IsMessaging baseline accepted
